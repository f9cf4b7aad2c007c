-- ===== src/Auth/Chars.antt =====
-- What sentinel/auth.py uses of Python's texts where it puts a token together and takes it apart. Such
-- a text is the list of its code points.
use soc2_sentinel.Base.{
  Codes, ℕ, zero, suc, ◌-◌, ◌%◌, Bool, true, false, [], ◌∷◌, ◌++◌, Option, none, some, ◌==◌, length,
  if◌then◌else◌,
}

-- `text[len(prefix):]` where `text.startswith(prefix)`
unfoldable pub without_prefix : Codes → Codes → Option Codes
without_prefix [] text = some text
without_prefix (p ∷ ps) [] = none
without_prefix (p ∷ ps) (c ∷ text) =
    let rest = without_prefix ps text in if c == p then rest else none

-- `text.split(c, 1)` where `c in text`
unfoldable pub split_once : ℕ → Codes → Option (Codes × Codes)
split_once c [] = none
split_once c (d ∷ text) =
    let rest = split_once c text in
    if d == c
    then some ([], text)
    else elim rest [ none ↦ none | some parts ↦ some (d ∷ parts.0, parts.1) ]

abbrev pub repeated : ℕ → ℕ → Codes
repeated zero c = []
repeated (suc n) c = c ∷ repeated n c

abbrev strip_onto : Bool → ℕ → Codes → Codes
strip_onto true d [] = []
strip_onto true d (e ∷ rest) = d ∷ e ∷ rest
strip_onto false d rest = d ∷ rest

-- `text.rstrip(c)`
unfoldable pub rstrip : ℕ → Codes → Codes
rstrip c [] = []
rstrip c (d ∷ text) = strip_onto (d == c) d (rstrip c text)

-- `text + "=" * ((4 - len(text) % 4) % 4)`
unfoldable pub padded : Codes → Codes
padded text = text ++ repeated ((4 - length text % 4) % 4) b'='

unfoldable pub eq_codes : Codes → Codes → Bool
eq_codes [] [] = true
eq_codes [] (_ ∷ _) = false
eq_codes (_ ∷ _) [] = false
eq_codes (c ∷ cs) (d ∷ ds) = let rest = eq_codes cs ds in if c == d then rest else false
