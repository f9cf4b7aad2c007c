-- ===== src/Daemon/Piled.antt =====
-- What becomes of the threads where calls of `stop` overlap, or do not wait until the thread has ended.
use soc2_sentinel.Base.{
  ℕ, zero, suc, String, ◌≡◌, refl, Bool, true, false, ◌&&◌, List, Option, none, some, [], ◌∷◌, ◌++◌,
  arith, length, length-append,
}
use soc2_sentinel.Base.Int.{ℤ}
use soc2_sentinel.Python.{Exception}
use soc2_sentinel.Daemon.{Phase, testing, cycling, monitor, start, request_stop, finish_stop}
use soc2_sentinel.Daemon.Threads.{
  joining, leaving, System, made, started, requested, joined, finished, ended, moved, entered,
  Reaches, begin, next,
}

module _ (describe : Exception → String) (provider_name : String) (interval : ℤ) where
  -- The daemon runs, its thread that was started last is about to test the event, which is not set, and
  -- these threads that were started earlier go on too.
  abbrev piled : Option String → List Phase → System
  piled next_run threads = record {
    state = record (monitor provider_name interval) {
      stop_set = false;
      running = true;
      next_run_timestamp = next_run;
      threads = threads ++ (testing ∷ []);
    };
    latest_alive = true;
    stops = [];
  }

  Reaches-piled_first :
      (waits alone : Bool)
      → Reaches describe waits alone (made provider_name interval) (piled none [])
  unfolding start monitor
  Reaches-piled_first waits alone = next begin (started (made provider_name interval))

  -- The last thread begins a cycle, a stop gives up waiting for it, and a start.
  Reaches-piled_late :
      (alone : Bool) (next_run : Option String) (threads : List Phase)
      → Reaches describe false alone (made provider_name interval) (piled next_run threads)
      → Reaches describe false alone
          (made provider_name interval)
          (piled (some "later") (threads ++ (cycling ∷ [])))
  unfolding start request_stop finish_stop
  Reaches-piled_late alone next_run threads r =
      let m = (piled next_run threads).state in
      let r₁ = next r (moved (piled next_run threads) (entered m threads [] "later" refl refl)) in
      let r₂ = next r₁ (requested _ refl (λ _. refl)) in
      let r₃ = next r₂ (joined _ [] [] refl (λ h. absurd (ground (arith, h)))) in
      let r₄ = next r₃ (finished _ [] [] refl) in next r₄ (started _)

  -- Two stops that wait until the last thread has ended, the first of which returns before a start and the
  -- second one after it, and another start.
  Reaches-piled_overlapping :
      (waits : Bool) (next_run : Option String) (threads : List Phase)
      → Reaches describe waits false (made provider_name interval) (piled next_run threads)
      → Reaches describe waits false
          (made provider_name interval)
          (piled next_run ((threads ++ []) ++ (testing ∷ [])))
  unfolding start request_stop finish_stop
  Reaches-piled_overlapping waits next_run threads r =
      let r₁ = next r (requested (piled next_run threads) refl (λ h. absurd (ground (arith, h)))) in
      let r₂ = next r₁ (requested _ refl (λ h. absurd (ground (arith, h)))) in
      let r₃ = next r₂ (ended _ threads [] testing refl refl refl) in
      let r₄ = next r₃ (joined _ [] (joining ∷ []) refl (λ _. refl)) in
      let r₅ = next r₄ (joined _ (leaving ∷ []) [] refl (λ _. refl)) in
      let r₆ = next r₅ (finished _ [] (leaving ∷ []) refl) in
      let r₇ = next r₆ (started _) in
      let r₈ = next r₇ (finished _ [] [] refl) in next r₈ (started _)

  piled-grows :
      (waits alone : Bool)
      → (waits && alone) ≡ false
      → (n : ℕ)
      → (next_run : Option String) × (threads : List Phase) × Reaches describe waits alone
          (made provider_name interval)
          (piled next_run threads)
        × (length threads ≡ n)
  piled-grows waits alone h zero = (none, [], Reaches-piled_first waits alone, refl)
  piled-grows false alone h (suc n) =
      let (next_run, threads, r, e) = piled-grows false alone h n in
      (
        some "later",
        threads ++ (cycling ∷ []),
        Reaches-piled_late alone next_run threads r,
        omega (arith, e, length-append threads (cycling ∷ [])),
      )
  piled-grows true false h (suc n) =
      let (next_run, threads, r, e) = piled-grows true false h n in
      (
        next_run,
        (threads ++ []) ++ (testing ∷ []),
        Reaches-piled_overlapping true next_run threads r,
        omega (arith, e, length-append threads [], length-append (threads ++ []) (testing ∷ [])),
      )
  piled-grows true true h (suc n) = absurd (ground (arith, h))

  -- If calls of `stop` may overlap, even where each waits until the thread that was started last has
  -- ended, and if a stop may give up waiting, even where the calls do not overlap: for every number
  -- there are calls and steps after which more threads than that are under way at the same time, while
  -- the daemon says that it runs, the stop event is not set and no stop is pending.
  pub Reaches-piled :
      (waits alone : Bool)
      → (waits && alone) ≡ false
      → (n : ℕ)
      → (s : System) × Reaches describe waits alone (made provider_name interval) s
        × (length s.state.threads ≡ suc n)
        × (s.state.running ≡ true)
        × (s.state.stop_set ≡ false)
        × (s.stops ≡ [])
  Reaches-piled waits alone h n =
      let (next_run, threads, r, e) = piled-grows waits alone h n in
      (
        piled next_run threads,
        r,
        omega (arith, e, length-append threads (testing ∷ [])),
        refl,
        refl,
        refl,
      )
