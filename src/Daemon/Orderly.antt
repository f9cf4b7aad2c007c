-- ===== src/Daemon/Orderly.antt =====
-- What holds between the calls and steps of a daemon whose calls of `stop` do not overlap and wait until
-- its thread has ended.
use soc2_sentinel.Base.{
  Option, ℕ, suc, ◌+◌, ◌<◌, ◌≤◌, subst, Bool-cases, inl, inr, String, ◌≡◌, refl, ap, sym, ◌∙◌, Bool,
  true, false, List, [], ◌∷◌, ◌++◌, arith, length, length-append, if◌then◌else◌,
}
use soc2_sentinel.Python.{Exception, Py, ok, raise}
use soc2_sentinel.Daemon.{Monitor, Phase, testing, cycling, waiting, start, execute_cycle}
use soc2_sentinel.Daemon.Threads.{
  Stopping, joining, leaving, System, start_in, Move, entered, cycled, waited, ran_now,
}

-- The calls of `stop` that are about to say that the daemon does not run.
abbrev pub leaving_count : List Stopping → ℕ
leaving_count [] = 0
leaving_count (joining ∷ stops) = leaving_count stops
leaving_count (leaving ∷ stops) = suc (leaving_count stops)

pub leaving_count_le : (stops : List Stopping) → leaving_count stops ≤ length stops
leaving_count_le [] = omega arith
leaving_count_le (joining ∷ stops) = omega (arith, leaving_count_le stops)
leaving_count_le (leaving ∷ stops) = omega (arith, leaving_count_le stops)

pub leaving_count-append :
    (xs ys : List Stopping) → leaving_count (xs ++ ys) ≡ leaving_count xs + leaving_count ys
leaving_count-append [] ys = omega arith
leaving_count-append (joining ∷ xs) ys = omega (arith, leaving_count-append xs ys)
leaving_count-append (leaving ∷ xs) ys = omega (arith, leaving_count-append xs ys)

-- There is no thread where the daemon says that it does not run, and never more than one; and there is one
-- where it runs and was not told to stop.
pub record IsSingle (m : Monitor) : Type 0 where
  pub idle : m.running ≡ false → length m.threads ≡ 0
  pub at_most : length m.threads ≤ 1
  pub busy : m.running ≡ true → m.stop_set ≡ false → length m.threads ≡ 1

-- With that, the thread that was started last is the only one, at most one call of `stop` has still to
-- return, the daemon runs and was told to stop until it does, and no thread is left where it has waited.
pub record IsOrderly (s : System) : Type 0 where
  pub single : IsSingle s.state
  pub dead : s.latest_alive ≡ false → length s.state.threads ≡ 0
  pub one : length s.stops ≤ 1
  pub told : 0 < length s.stops → (s.state.running ≡ true) × (s.state.stop_set ≡ true)
  pub emptied : 0 < leaving_count s.stops → length s.state.threads ≡ 0

-- A thread moves on.
length-moved :
    (threads before after : List Phase) (p q : Phase)
    → threads ≡ before ++ (p ∷ after)
    → length (before ++ (q ∷ after)) ≡ length threads
length-moved threads before after p q h =
    omega (arith, ap length h, length-append before (p ∷ after), length-append before (q ∷ after))

pub length-ended :
    (threads before after : List Phase) (p : Phase)
    → threads ≡ before ++ (p ∷ after)
    → suc (length (before ++ after)) ≡ length threads
length-ended threads before after p h =
    omega (arith, ap length h, length-append before (p ∷ after), length-append before after)

module _ (describe : Exception → String) where
  cycle-running :
      (now : String) (provider : Py (Unit {0}))
      (collectors : List (String × Option (Py (Unit {0})))) (drift : Py ℕ) (m : Monitor)
      → ((execute_cycle describe now provider collectors drift m).1.running ≡ m.running)
        × ((execute_cycle describe now provider collectors drift m).1.stop_set ≡ m.stop_set)
        × ((execute_cycle describe now provider collectors drift m).1.threads ≡ m.threads)
  unfolding execute_cycle
  cycle-running now (ok _) collectors drift m = (refl, refl, refl)
  cycle-running now (raise _) collectors drift m = (refl, refl, refl)

  -- What a move keeps.
  pub Move-keeps :
      {m n : Monitor}
      → Move describe m n
      → (n.running ≡ m.running) × (n.stop_set ≡ m.stop_set) × (length n.threads ≡ length m.threads)
  Move-keeps (entered m before after next_run e h) =
      (refl, refl, length-moved m.threads before after testing cycling h)
  Move-keeps (cycled m before after now provider collectors drift h) =
      let (r, f, _) = cycle-running now provider collectors drift m in
      (r, f, length-moved m.threads before after cycling waiting h)
  Move-keeps (waited m before after h) =
      (refl, refl, length-moved m.threads before after waiting testing h)
  Move-keeps (ran_now m now provider collectors drift) =
      let (r, f, t) = cycle-running now provider collectors drift m in (r, f, ap length t)

pub moved-IsOrderly :
    (s : System) (n : Monitor)
    → (n.running ≡ s.state.running)
      × (n.stop_set ≡ s.state.stop_set)
      × (length n.threads ≡ length s.state.threads)
    → IsOrderly s
    → IsOrderly (record s { state = n })
moved-IsOrderly s n (h, k, l) o = record {
  single = record {
    idle = λ r. l ∙ o.single.idle (sym h ∙ r);
    at_most = omega (arith, l, o.single.at_most);
    busy = λ r f. l ∙ o.single.busy (sym h ∙ r) (sym k ∙ f);
  };
  dead = λ d. l ∙ o.dead d;
  one = o.one;
  told = λ p. let (r, f) = o.told p in (h ∙ r, k ∙ f);
  emptied = λ p. l ∙ o.emptied p;
}

pub started-IsOrderly : (s : System) → IsOrderly s → IsOrderly (start_in s)
unfolding start
started-IsOrderly s o = elim (Bool-cases s.state.running) [
  | inl r ↦ subst IsOrderly (ap (λ b. with_running b) (sym r)) o
  | inr r ↦ subst IsOrderly (ap (λ b. with_running b) (sym r)) (fresh r)
]
  where
    with_running : Bool → System
    with_running b = record s {
      state = if b then s.state else record (s.state) {
        stop_set = false;
        running = true;
        threads = s.state.threads ++ (testing ∷ []);
      };
      latest_alive = if b then s.latest_alive else true;
    }

    fresh : s.state.running ≡ false → IsOrderly (with_running false)
    fresh r =
        let single : length (s.state.threads ++ (testing ∷ [])) ≡ 1 =
          omega (arith, length-append s.state.threads (testing ∷ []), o.single.idle r) in
        let none_left : length s.stops ≡ 0 = ground (arith, o.told, r) in
        record {
          single = record {
            idle = λ h. absurd (ground (arith, h));
            at_most = omega (arith, single);
            busy = λ _ _. single;
          };
          dead = λ d. absurd (ground (arith, d));
          one = o.one;
          told = λ p. absurd (omega (arith, p, none_left));
          emptied = λ p. absurd (omega (arith, p, none_left, leaving_count_le s.stops));
        }
