-- ===== src/Python/Values.antt =====
-- The values that `json.loads` returns, over the type of floats, and dictionary access.
use soc2_sentinel.Base.{
  String, ◌≡◌, refl, Bool, true, false, not, ◌||◌, Option, none, some, arith, str_eq_iff,
}
use soc2_sentinel.Base.{str_eq, if◌then◌else◌}
use soc2_sentinel.Base.Int.{ℤ}
use soc2_sentinel.Python.Exceptions.{Py, ok, raise, attribute_error, type_error, key_error}

-- `bool(s)` of a text that may be `None`
abbrev pub is_given : Option String → Bool
is_given none = false
is_given (some s) = not (str_eq s "")

-- `s or default` of such a text
abbrev pub or_text : Option String → String → String
or_text none default = default
or_text (some s) default = if str_eq s "" then default else s

-- `d[key]` and `d.get(key, default)` of a field that may be missing
abbrev pub required {ℓ} : {A : Type ℓ} → Option A → Py A
required none = raise key_error
required (some a) = ok a

abbrev pub get_or {ℓ} : {A : Type ℓ} → Option A → A → A
get_or none default = default
get_or (some a) default = a

mutual
  pub data Val (F : Type 0) : Type 0 where
    null : Val F
    bool : Bool → Val F
    int : ℤ → Val F
    float : F → Val F
    str : String → Val F
    list : Items F → Val F
    dict : Fields F → Val F

  pub data Items (F : Type 0) : Type 0 where
    nil : Items F
    item : Val F → Items F → Items F

  pub data Fields (F : Type 0) : Type 0 where
    end : Fields F
    field : String → Val F → Fields F → Fields F

module _ {F : Type 0} where
  -- `k in d`
  unfoldable pub has : Fields F → String → Bool
  has end k = false
  has (field j v d) k = str_eq k j || has d k

  -- `d.get(k, default)`
  unfoldable pub get : Fields F → String → Val F → Val F
  get end k default = default
  get (field j v d) k default = if str_eq k j then v else get d k default

  abbrev pub is_null : Val F → Bool
  is_null null = true
  is_null _ = false

  -- `v == s` for a text `s`
  abbrev pub is_text : Val F → String → Bool
  is_text (str t) s = str_eq t s
  is_text _ s = false

  -- A value on which the code calls `.get` or `.items`: only a dictionary has these methods.
  abbrev pub as_dict : Val F → Py (Fields F)
  as_dict (dict d) = ok d
  as_dict _ = raise attribute_error

  abbrev pub is_empty : Fields F → Bool
  is_empty end = true
  is_empty (field _ _ _) = false

  -- `d[k] = v`
  unfoldable pub set : Fields F → String → Val F → Fields F
  set end k v = field k v end
  set (field j w d) k v = if str_eq k j then field j v d else field j w (set d k v)

  pub get-set :
      (d : Fields F) (k j : String) (v default : Val F)
      → get (set d k v) j default ≡ (if str_eq j k then v else get d j default)
  unfolding get set
  get-set end k j v default = refl
  get-set (field i w d) k j v default =
      ground (arith, str_eq_iff j i, str_eq_iff k i, str_eq_iff j k, get-set d k j v default)

  -- `xs + ys` of two lists
  unfoldable pub extend : Items F → Items F → Items F
  extend nil ys = ys
  extend (item x xs) ys = item x (extend xs ys)

  -- A value that the code iterates over as a list.
  abbrev pub as_list : Val F → Py (Items F)
  as_list (list xs) = ok xs
  as_list _ = raise type_error
