-- ===== src/Collection/Export.antt =====
-- `sanitize_csv_export` of sentinel/collectors/_helpers.py, on code points. What `redact_pii` does is a
-- parameter.
use soc2_sentinel.Base.{Codes, Bool, true, false, ◌&&◌, List, [], ◌∷◌, ◌++◌, map, if◌then◌else◌}
use soc2_sentinel.Auth.{eq_codes}
use soc2_sentinel.Security.{CellValue, text, sanitize_csv_cell}

-- A row is a dictionary, in insertion order.
abbrev pub Row : Type 0
Row = List (Codes × CellValue)

-- `row.get(key, "")`
unfoldable pub value_at_key : Row → Codes → CellValue
value_at_key [] key = text []
value_at_key ((k, v) ∷ row) key = if eq_codes key k then v else value_at_key row key

-- `sep.join(parts)`
unfoldable pub join_codes : Codes → List Codes → Codes
join_codes sep [] = []
join_codes sep (p ∷ []) = p
join_codes sep (p ∷ q ∷ parts) = p ++ (sep ++ join_codes sep (q ∷ parts))

abbrev pub is_text_value : CellValue → Bool
is_text_value (text _) = true
is_text_value _ = false

module _ (redact_pii : Codes → Codes) (redact : Bool) where
  unfoldable pub export_cell : CellValue → Codes
  unfolding sanitize_csv_cell
  export_cell value =
      let content = sanitize_csv_cell value in
      if redact && is_text_value value
      then sanitize_csv_cell (text (redact_pii content))
      else content

  unfoldable pub export_line : List Codes → Row → Codes
  unfolding value_at_key join_codes export_cell
  export_line headers row =
      join_codes (b',' ∷ []) (map (λ key. export_cell (value_at_key row key)) headers)

  unfoldable pub sanitize_csv_export : List Row → Codes
  unfolding export_line join_codes
  sanitize_csv_export [] = []
  sanitize_csv_export (first ∷ rows) =
      let headers = map (λ (e : Codes × CellValue). e.0) first in
      let lines = join_codes (b',' ∷ []) headers ∷ map (export_line headers) (first ∷ rows) in
      join_codes (10 ∷ []) lines ++ (10 ∷ [])
