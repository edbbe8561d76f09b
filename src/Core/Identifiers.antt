-- ===== src/Core/Identifiers.antt =====
-- The regular expression `^[a-z_][a-z0-9_]{0,62}$` of internal/config/validate.go and of the two
-- client packages: an unquoted PostgreSQL identifier.
use Prim.Native.Char.{code as code_point}
use go_outbox.Base.{ℕ, zero, suc, ◌≡◌, refl, Bool, true, false, ◌&&◌, ◌||◌, String, leb, ◌==◌}

abbrev pub is_lower : ℕ → Bool
is_lower c = leb b'a' c && leb c b'z'

abbrev pub is_word : ℕ → Bool
is_word c = is_lower c || (leb b'0' c && leb c b'9' || c == b'_')

-- `[a-z0-9_]{0,n}$`
abbrev pub words_left : ℕ → String → Bool
words_left n String.[] = true
words_left zero (String.◌∷◌ c s) = false
words_left (suc n) (String.◌∷◌ c s) = is_word (code_point c) && words_left n s

-- `identifier.MatchString`
unfoldable pub is_identifier : String → Bool
is_identifier String.[] = false
is_identifier (String.◌∷◌ c s) =
    (is_lower (code_point c) || code_point c == b'_') && words_left 62 s

quoted_name : is_identifier "out\"box" ≡ false
unfolding is_identifier
quoted_name = refl
