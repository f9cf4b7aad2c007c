-- ===== src/Telemetry/Attempts.antt =====
-- When a `HttpSink` delivers.
use soc2_sentinel.Base.{
  ℕ, zero, suc, ◌+◌, ◌≤◌, ◌<◌, true, List, [], ◌∷◌, ◌≡◌, refl, sym, subst, ◌∙◌, ◌↔◌, ◌⊎◌, inl, inr,
  arith, Bool-cases, ◌==◌,
}
use soc2_sentinel.Python.{Py, ok, raise, Py-cases, ok-injective}
use soc2_sentinel.Telemetry.{
  HttpSink, Deed, requested, paused, is_success, attempts, post, is_web_address,
}

-- The numbers of the requests.
abbrev pub asked : List Deed → ℕ
asked [] = 0
asked (requested attempt ∷ deeds) = suc (asked deeds)
asked (paused attempt ∷ deeds) = asked deeds

abbrev pub IsSuccess : Py ℕ → Type 0
IsSuccess response = (status : ℕ) × (response ≡ ok status) × (is_success status ≡ true)

-- One of so many attempts from this one on is answered with success.
abbrev pub IsAnswered : ℕ → ℕ → (ℕ → Py ℕ) → Type 0
IsAnswered left first respond =
    (attempt : ℕ) × (first ≤ attempt) × (attempt < first + left) × IsSuccess (respond attempt)

IsSuccess-cases : (response : Py ℕ) → IsSuccess response ⊎ (¬ IsSuccess response)
IsSuccess-cases (ok status) = elim (Bool-cases (is_success status)) [
  | inl h ↦ inl (status, refl, h)
  | inr h ↦ inr (λ (other, same, k). ground (arith, h, k, ok-injective status other same))
]
IsSuccess-cases (raise e) = inr (λ (other, same, k). cc)

module _ (left first : ℕ) (respond : ℕ → Py ℕ) where
  attempts-success : IsSuccess (respond first) → (attempts (suc left) first respond).0 ≡ true
  unfolding attempts
  attempts-success (status, h, k) = rw (h, k) refl

  attempts-failure :
      ¬ IsSuccess (respond first)
      → (attempts (suc left) first respond).0 ≡ (attempts left (suc first) respond).0
  unfolding attempts
  attempts-failure f = elim (Py-cases (respond first)) [
    | inl (status, h) ↦ elim (Bool-cases (is_success status)) [
      | inl k ↦ absurd (f (status, h, k))
      | inr k ↦ rw (h, k) refl
    ]
    | inr (e, h) ↦ rw h refl
  ]

attempts-IsAnswered :
    (left first : ℕ) (respond : ℕ → Py ℕ)
    → ((attempts left first respond).0 ≡ true) ↔ IsAnswered left first respond
unfolding attempts
attempts-IsAnswered zero first respond =
    (λ h. absurd (ground (arith, h)), λ (attempt, low, high, s). absurd (omega arith))
attempts-IsAnswered (suc left) first respond =
    let later = attempts-IsAnswered left (suc first) respond in
    elim (IsSuccess-cases (respond first)) [
      | inl s ↦
          (λ _. (first, omega arith, omega arith, s), λ _. attempts-success left first respond s)
      | inr f ↦ (
        λ h. widened (later.0 (sym (attempts-failure left first respond f) ∙ h)),
        λ (attempt, low, high, s).
            attempts-failure left first respond f
            ∙ later.1 (attempt, after attempt low f s, omega arith, s),
      )
    ]
  where
    widened : IsAnswered left (suc first) respond → IsAnswered (suc left) first respond
    widened (attempt, low, high, s) = (attempt, omega arith, omega arith, s)

    after :
        (attempt : ℕ)
        → first ≤ attempt
        → ¬ IsSuccess (respond first)
        → IsSuccess (respond attempt)
        → suc first ≤ attempt
    after attempt low f s = elim (Bool-cases (attempt == first)) [
      | inl h ↦ absurd (f (subst (λ i. IsSuccess (respond i)) (ground (arith, h)) s))
      | inr h ↦ ground (arith, h)
    ]

asked-attempts_le :
    (left first : ℕ) (respond : ℕ → Py ℕ) → asked (attempts left first respond).1 ≤ left
unfolding attempts
asked-attempts_le zero first respond = omega arith
asked-attempts_le (suc left) first respond = elim (Py-cases (respond first)) [
  | inl (status, h) ↦ elim (Bool-cases (is_success status)) [
    | inl k ↦ rw (h, k) (omega arith)
    | inr k ↦ rw (h, k) (omega (arith, asked-attempts_le left (suc first) respond))
  ]
  | inr (e, h) ↦ elim (Bool-cases (left == 0)) [
    | inl k ↦ rw (h, k) (omega (arith, asked-attempts_le left (suc first) respond))
    | inr k ↦ rw (h, k) (omega (arith, asked-attempts_le left (suc first) respond))
  ]
]

-- An HTTP sink delivers exactly where its address begins with http:// or https:// and one of as many
-- attempts as the greatest number of retries, counted from 1, is answered with a status from 200 to 299,
-- and it sends no more requests than that number.
pub post-delivered :
    (sink : HttpSink) (respond : ℕ → Py ℕ)
    → (((post sink respond).0 ≡ true)
        ↔ ((is_web_address sink.endpoint_url ≡ true) × IsAnswered sink.max_retries 1 respond))
      × (asked (post sink respond).1 ≤ sink.max_retries)
unfolding post
post-delivered sink respond = elim (Bool-cases (is_web_address sink.endpoint_url)) [
  | inl h ↦
      let answered = attempts-IsAnswered sink.max_retries 1 respond in
      rw h (
        (λ k. (refl, answered.0 k), λ (_, k). answered.1 k),
        asked-attempts_le sink.max_retries 1 respond,
      )
  | inr h ↦
      rw h ((λ k. absurd (ground (arith, k)), λ (k, _). absurd (ground (arith, k))), omega arith)
]
