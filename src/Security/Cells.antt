-- ===== src/Security/Cells.antt =====
-- `sanitize_csv_cell` of sentinel/security.py, on code points.
use soc2_sentinel.Base.{ℕ, Codes, Bool, false, ◌||◌, [], ◌∷◌, ◌++◌, ◌==◌, if◌then◌else◌}

-- `None`, a text, and a number with the text that `str` gives.
pub data CellValue : Type 0 where
  nothing : CellValue
  text number : Codes → CellValue

-- `_CSV_INJECTION_PREFIXES`; the last two are the tabulator and the carriage return.
abbrev pub is_injection_prefix : ℕ → Bool
is_injection_prefix c = c == b'=' || c == b'+' || c == b'-' || c == b'@' || c == 9 || c == 13

-- `"\n" in text or "\r" in text`
abbrev pub has_break : Codes → Bool
has_break [] = false
has_break (c ∷ cs) = c == 10 || c == 13 || has_break cs

-- `text.replace('"', '""')`
unfoldable pub doubled_quotes : Codes → Codes
doubled_quotes [] = []
doubled_quotes (c ∷ cs) =
    let rest = doubled_quotes cs in if c == b'"' then c ∷ c ∷ rest else c ∷ rest

unfoldable pub sanitize_text : Codes → Codes
unfolding doubled_quotes
sanitize_text [] = []
sanitize_text (c ∷ cs) =
    if is_injection_prefix c
    then b'\'' ∷ c ∷ cs
    else if has_break (c ∷ cs)
    then b'"' ∷ (doubled_quotes (c ∷ cs) ++ (b'"' ∷ []))
    else c ∷ cs

unfoldable pub sanitize_csv_cell : CellValue → Codes
unfolding sanitize_text
sanitize_csv_cell nothing = []
sanitize_csv_cell (text content) = sanitize_text content
sanitize_csv_cell (number content) = sanitize_text content
