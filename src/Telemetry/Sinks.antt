-- ===== src/Telemetry/Sinks.antt =====
-- The registered sinks of a `TelemetryManager`, and what a pass over them does to each.
use soc2_sentinel.Base.{
  Bool, ℕ, true, false, List, [], ◌∷◌, ◌++◌, ◌≡◌, refl, ap, arith, ◌==◌, Bool-cases, if-both, inl,
  inr, if◌then◌else◌,
}
use soc2_sentinel.Telemetry.{
  SinkClass, Manager, is_member, remove_first, new_manager, add_sink, remove_sink, clear_sinks,
  send_each, dispatch,
}

-- No sink is registered twice.
abbrev pub IsDistinct : List ℕ → Type 0
IsDistinct [] = Unit
IsDistinct (ref ∷ refs) = (is_member refs ref ≡ false) × IsDistinct refs

is_member-snoc :
    (refs : List ℕ) (ref other : ℕ)
    → is_member (refs ++ (ref ∷ [])) other ≡ (if is_member refs other then true else other == ref)
is_member-snoc [] ref other = ground arith
is_member-snoc (r ∷ refs) ref other = ground (arith, is_member-snoc refs ref other)

snoc-IsDistinct :
    (refs : List ℕ) (ref : ℕ)
    → IsDistinct refs
    → is_member refs ref ≡ false
    → IsDistinct (refs ++ (ref ∷ []))
snoc-IsDistinct [] ref d h = (refl, tt)
snoc-IsDistinct (r ∷ refs) ref (fresh, d) h = (
  ground (arith, is_member-snoc refs ref r, fresh, h),
  snoc-IsDistinct refs ref d (ground (arith, h)),
)

is_member-remove_first :
    (refs : List ℕ) (ref other : ℕ)
    → is_member refs other ≡ false
    → is_member (remove_first refs ref) other ≡ false
is_member-remove_first [] ref other h = refl
is_member-remove_first (r ∷ refs) ref other h =
    ground (arith, h, is_member-remove_first refs ref other (ground (arith, h)))

remove_first-IsDistinct :
    (refs : List ℕ) (ref : ℕ) → IsDistinct refs → IsDistinct (remove_first refs ref)
remove_first-IsDistinct [] ref d = tt
remove_first-IsDistinct (r ∷ refs) ref (fresh, d) =
    if-both IsDistinct (ref == r) (λ _. d)
      (λ _. (is_member-remove_first refs ref r fresh, remove_first-IsDistinct refs ref d))

module _ (E S : Type 0) (C : SinkClass E S) where
  -- Registering, removing and clearing keep the registered sinks without repetition.
  pub sinks-IsDistinct :
      (m : Manager E S C)
      → IsDistinct m.sinks
      → ((ref : ℕ) → IsDistinct (add_sink E S C ref m).sinks)
        × ((ref : ℕ) → IsDistinct (remove_sink E S C ref m).sinks)
        × IsDistinct (clear_sinks E S C m).sinks
  unfolding add_sink remove_sink clear_sinks
  sinks-IsDistinct m d = (
    λ ref. elim (Bool-cases (is_member m.sinks ref)) [
      | inl h ↦ rw h d
      | inr h ↦ rw h (snoc-IsDistinct m.sinks ref d h)
    ],
    λ ref. elim (Bool-cases (is_member m.sinks ref)) [
      | inl h ↦ rw h (remove_first-IsDistinct m.sinks ref d)
      | inr h ↦ rw h d
    ],
    (refl, tt),
  )

  -- The sinks of a new manager are registered once each.
  pub new_manager-IsDistinct :
      (store : ℕ → S) (syslog http enable_worker : Bool)
      → IsDistinct (new_manager E S C store syslog http enable_worker).sinks
  unfolding new_manager
  new_manager-IsDistinct store false false false = (refl, (refl, tt))
  new_manager-IsDistinct store false false true = (refl, (refl, tt))
  new_manager-IsDistinct store false true false = (refl, (refl, (refl, tt)))
  new_manager-IsDistinct store false true true = (refl, (refl, (refl, tt)))
  new_manager-IsDistinct store true false false = (refl, (refl, (refl, tt)))
  new_manager-IsDistinct store true false true = (refl, (refl, (refl, tt)))
  new_manager-IsDistinct store true true false = (refl, (refl, (refl, (refl, tt))))
  new_manager-IsDistinct store true true true = (refl, (refl, (refl, (refl, tt))))

  -- A pass over the sinks reaches each once.
  pub dispatch-at :
      (batch : List E) (refs : List ℕ) (store : ℕ → S) (ref : ℕ)
      → IsDistinct refs
      → dispatch E S C batch refs store ref
        ≡ (if is_member refs ref then (C.send_batch batch (store ref)).1 else store ref)
  unfolding dispatch
  dispatch-at batch [] store ref d = refl
  dispatch-at batch (r ∷ refs) store ref (fresh, d) = ground (
    arith,
    same,
    fresh,
    dispatch-at batch refs
        (λ other. if other == r then (C.send_batch batch (store r)).1 else store other) ref d,
  )
    where
      same :
          (ref == r) ≡ true → (C.send_batch batch (store ref)).1 ≡ (C.send_batch batch (store r)).1
      same h = ap (λ i. (C.send_batch batch (store i)).1) (ground (arith, h))

  pub send_each-at :
      (event : E) (refs : List ℕ) (store : ℕ → S) (ref : ℕ)
      → IsDistinct refs
      → send_each E S C event refs store ref
        ≡ (if is_member refs ref then (C.send event (store ref)).1 else store ref)
  unfolding send_each
  send_each-at event [] store ref d = refl
  send_each-at event (r ∷ refs) store ref (fresh, d) = ground (
    arith,
    same,
    fresh,
    send_each-at event refs
        (λ other. if other == r then (C.send event (store r)).1 else store other) ref d,
  )
    where
      same : (ref == r) ≡ true → (C.send event (store ref)).1 ≡ (C.send event (store r)).1
      same h = ap (λ i. (C.send event (store i)).1) (ground (arith, h))
