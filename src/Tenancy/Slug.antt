-- ===== src/Tenancy/Slug.antt =====
-- `TENANT_SLUG_REGEX.match` of sentinel/tenancy.py, on code points. Python's `$` matches at the end of a
-- text and also before a line break that ends it.
use soc2_sentinel.Base.{
  ℕ, Codes, Bool, false, ◌&&◌, ◌||◌, [], ◌∷◌, leb, ◌==◌, length, if◌then◌else◌,
}

-- `[a-z0-9]`
abbrev pub is_edge : ℕ → Bool
is_edge c = (leb b'a' c && leb c b'z') || (leb b'0' c && leb c b'9')

-- `[a-z0-9\-_]`
abbrev pub is_inner : ℕ → Bool
is_inner c = is_edge c || ((c == b'-') || (c == b'_'))

-- Inner characters, and one of `[a-z0-9]` at the end.
unfoldable pub ends_slug : Codes → Bool
ends_slug [] = false
ends_slug (c ∷ []) = is_edge c
ends_slug (c ∷ d ∷ text) = is_inner c && ends_slug (d ∷ text)

-- The whole text is matched; there are 1 to 62 inner characters.
unfoldable pub is_whole_slug : Codes → Bool
unfolding ends_slug
is_whole_slug [] = false
is_whole_slug (c ∷ text) =
    is_edge c && ((leb 2 (length text) && leb (length text) 63) && ends_slug text)

-- A text without the line break at its end.
unfoldable pub without_newline : Codes → Codes
without_newline [] = []
without_newline (c ∷ []) = if c == b'\n' then [] else c ∷ []
without_newline (c ∷ d ∷ text) = c ∷ without_newline (d ∷ text)

unfoldable pub is_slug : Codes → Bool
unfolding is_whole_slug without_newline
is_slug text = is_whole_slug text || is_whole_slug (without_newline text)
