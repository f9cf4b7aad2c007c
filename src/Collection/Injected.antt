-- ===== src/Collection/Injected.antt =====
-- What the cells of an exported line can begin with.
use soc2_sentinel.Base.{
  ℕ, Codes, codes, All, ◌≡◌, refl, ap, ◌∙◌, false, List, [], ◌∷◌, ◌++◌, ◌==◌, Bool-cases, inl, inr,
  if◌then◌else◌,
}
use soc2_sentinel.Auth.Parts.{eq_codes_refl}
use soc2_sentinel.Security.{
  CellValue, nothing, text, number, is_injection_prefix, has_break, sanitize_text,
  sanitize_csv_cell,
}
use soc2_sentinel.Collection.Export.{value_at_key, join_codes, export_cell, export_line}

-- The first code point is none that begins a formula.
abbrev pub IsHarmless : Codes → Type 0
IsHarmless [] = Unit
IsHarmless (c ∷ cs) = is_injection_prefix c ≡ false

sanitize_text-IsHarmless : (content : Codes) → IsHarmless (sanitize_text content)
unfolding sanitize_text
sanitize_text-IsHarmless [] = tt
sanitize_text-IsHarmless (c ∷ cs) = elim (Bool-cases (is_injection_prefix c)) [
  | inl bad ↦ rw (bad, sanitize_text) refl
  | inr good ↦ elim (Bool-cases (has_break (c ∷ cs))) [
    | inl broken ↦ rw (good, broken, sanitize_text) refl
    | inr whole ↦ rw (good, whole, sanitize_text) good
  ]
]

-- No sanitized cell begins with a code point that begins a formula.
pub sanitize_csv_cell-IsHarmless : (v : CellValue) → IsHarmless (sanitize_csv_cell v)
unfolding sanitize_csv_cell
sanitize_csv_cell-IsHarmless nothing = tt
sanitize_csv_cell-IsHarmless (text content) = sanitize_text-IsHarmless content
sanitize_csv_cell-IsHarmless (number content) = sanitize_text-IsHarmless content

abbrev prepend : ℕ → List Codes → List Codes
prepend c [] = (c ∷ []) ∷ []
prepend c (cell ∷ cells) = (c ∷ cell) ∷ cells

-- The cells of a line that has no quotation marks, as a spreadsheet reads it.
pub cells_of : Codes → List Codes
cells_of [] = [] ∷ []
cells_of (c ∷ cs) = let rest = cells_of cs in if c == b',' then [] ∷ rest else prepend c rest

-- There is no comma in it.
abbrev pub HasNoComma : Codes → Type 0
HasNoComma = All (λ c. (c == b',') ≡ false)

cells_of-whole : (cell : Codes) → HasNoComma cell → cells_of cell ≡ cell ∷ []
unfolding cells_of
cells_of-whole [] h = refl
cells_of-whole (c ∷ cell) (h, hs) = rw (h, cells_of-whole cell hs) refl

cells_of-comma :
    (cell line : Codes) → HasNoComma cell → cells_of (cell ++ (b',' ∷ line)) ≡ cell ∷ cells_of line
unfolding cells_of
cells_of-comma [] line h = refl
cells_of-comma (c ∷ cell) line (h, hs) = rw (h, cells_of-comma cell line hs) refl

-- A text with a comma is exported without quotation marks: where neither part has another comma or a
-- line break, and the first part begins harmlessly, its line is read as two cells, of which the second is
-- what follows the comma, and may begin with a formula.
pub export_line_injected :
    (redact_pii : Codes → Codes) (key : Codes) (c : ℕ) (cell formula : Codes)
    → is_injection_prefix c ≡ false
    → has_break (c ∷ (cell ++ (b',' ∷ formula))) ≡ false
    → HasNoComma (c ∷ cell)
    → HasNoComma formula
    → cells_of (
        export_line redact_pii false (key ∷ []) ((key, text (c ∷ (cell ++ (b',' ∷ formula)))) ∷ []))
      ≡ (c ∷ cell) ∷ formula ∷ []
unfolding export_line export_cell value_at_key join_codes sanitize_csv_cell sanitize_text
export_line_injected redact_pii key c cell formula good unbroken whole whole' =
    rw (eq_codes_refl key, value_at_key)
      (rw (good, unbroken, sanitize_text)
        (cells_of-comma (c ∷ cell) formula whole
          ∙ ap (λ cells. (c ∷ cell) ∷ cells) (cells_of-whole formula whole')))

-- With a formula as the second part.
export_line_injected_formula :
    cells_of
      (export_line (λ t. t) false (codes "name" ∷ []) ((codes "name", text (codes "x,=1+2")) ∷ []))
    ≡ codes "x" ∷ codes "=1+2" ∷ []
export_line_injected_formula =
    export_line_injected (λ t. t) (codes "name") b'x' [] (codes "=1+2") refl refl (refl, tt)
      (refl, (refl, (refl, (refl, tt))))
