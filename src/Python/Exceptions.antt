-- ===== src/Python/Exceptions.antt =====
-- Exceptions as values.
use soc2_sentinel.Base.{◌≡◌, refl, ◌⊎◌, inl, inr, Bool, true, false}

pub data Exception : Type 0 where
  value_error type_error overflow_error attribute_error key_error zero_division_error : Exception
  permission_error validation_error os_error : Exception
  -- Two ValueErrors that the policy evaluator raises itself, told apart by their messages.
  unsupported_node forbidden_syntax : Exception

pub data Py {ℓ} (A : Type ℓ) : Type ℓ where
  ok : A → Py A
  raise : Exception → Py A

-- A raised exception leaves the rest of the block out.
module _ {ℓ κ} {A : Type ℓ} {B : Type κ} where
  infixl 5 ◌>>=◌
  abbrev pub ◌>>=◌ : Py A → (A → Py B) → Py B
  raise exception >>= next = raise exception
  ok value >>= next = next value

-- `try: m` / `except (TypeError, ValueError): return fallback`
abbrev pub or_else {ℓ} : {A : Type ℓ} → Py A → A → Py A
or_else (ok a) fallback = ok a
or_else (raise type_error) fallback = ok fallback
or_else (raise value_error) fallback = ok fallback
or_else (raise e) fallback = raise e

-- Whatever a computation returns has the property; a raised exception returns nothing.
pub data Returns {ℓ κ} {A : Type ℓ} (P : A → Type κ) : Py A → Type (ℓ ⊔ κ) where
  returned : {a : A} → P a → Returns P (ok a)
  raised : {e : Exception} → Returns P (raise e)

module _ {ℓ κ} {A : Type ℓ} {P : A → Type κ} where
  pub Returns-if :
      (b : Bool) {m n : Py A}
      → (b ≡ true → Returns P m)
      → (b ≡ false → Returns P n)
      → Returns P (elim b [ true ↦ m | false ↦ n ])
  Returns-if true hm hn = hm refl
  Returns-if false hm hn = hn refl

module _ {ℓ κ μ ν} {A : Type ℓ} {B : Type κ} {P : A → Type μ} {Q : B → Type ν} where
  pub Returns-bind :
      {m : Py A} (f : A → Py B)
      → Returns P m
      → ((a : A) → P a → Returns Q (f a))
      → Returns Q (m >>= f)
  Returns-bind f (returned p) h = h _ p
  Returns-bind f raised h = raised

module _ {ℓ κ ν} {A : Type ℓ} {B : Type κ} {Q : B → Type ν} where
  -- The same where nothing need be known of the first result.
  pub Returns-then : (m : Py A) (f : A → Py B) → ((a : A) → Returns Q (f a)) → Returns Q (m >>= f)
  Returns-then (ok a) f h = h a
  Returns-then (raise e) f h = raised

module _ {ℓ κ μ} {A : Type ℓ} {P : A → Type κ} {Q : A → Type μ} where
  pub Returns-weaken : {m : Py A} → ((a : A) → P a → Q a) → Returns P m → Returns Q m
  Returns-weaken f (returned p) = returned (f _ p)
  Returns-weaken f raised = raised

-- The parts of a block that returns.
module _ {ℓ κ} {A : Type ℓ} {B : Type κ} where
  pub >>=-eq-ok :
      (first : Py A) (next : A → Py B) {result : B}
      → (first >>= next) ≡ ok result
      → (value : A) × (first ≡ ok value) × (next value ≡ ok result)
  >>=-eq-ok (raise exception) next h = cc
  >>=-eq-ok (ok value) next h = (value, refl, h)

pub Returns-ok {ℓ κ} : {A : Type ℓ} {P : A → Type κ} {a : A} → Returns P (ok a) → P a
Returns-ok (returned p) = p

-- To split on what a computation does, and keep the equation.
pub Py-cases {ℓ} :
    {A : Type ℓ} (m : Py A) → ((a : A) × (m ≡ ok a)) ⊎ ((e : Exception) × (m ≡ raise e))
Py-cases (ok a) = inl (a, refl)
Py-cases (raise e) = inr (e, refl)

pub ok-injective {ℓ} : {A : Type ℓ} (a b : A) → ok a ≡ ok b → a ≡ b
ok-injective a b h = cc

-- What a computation returns is what it is equal to.
pub Returns-self {ℓ} : {A : Type ℓ} (m : Py A) → Returns (λ a. m ≡ ok a) m
Returns-self (ok a) = returned refl
Returns-self (raise e) = raised
