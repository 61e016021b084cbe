-- ===== src/Patterns.antt =====
-- The regular expressions and character tests of internal/tunnel/model.go, on the bytes of a string.
use nordmac.Base.{ℕ, Bool, true, false, ◌&&◌, ◌||◌, Text, [], ◌∷◌, leb, ltb, ◌==◌, nat_eq, length}

abbrev pub is_lower_hex : ℕ → Bool
is_lower_hex c = leb b'a' c && leb c b'f' || leb b'0' c && leb c b'9'

abbrev pub is_alpha : ℕ → Bool
is_alpha c = leb b'a' c && leb c b'z' || leb b'A' c && leb c b'Z'

abbrev pub is_alnum : ℕ → Bool
is_alnum c = is_alpha c || leb b'0' c && leb c b'9'

unfoldable pub every : (ℕ → Bool) → Text → Bool
every p [] = true
every p (c ∷ s) = p c && every p s

unfoldable pub some_byte : (ℕ → Bool) → Text → Bool
some_byte p [] = false
some_byte p (c ∷ s) = p c || some_byte p s

-- `^[a-f0-9]{n}$`
unfoldable pub is_hex : ℕ → Text → Bool
unfolding every
is_hex n s = length s == n && every is_lower_hex s

-- `ValidSessionID`, by `^[a-f0-9]{32}$`
unfoldable pub valid_session_id : Text → Bool
unfolding is_hex
valid_session_id s = is_hex 32 s

-- `^[a-f0-9]{64}$`
unfoldable pub is_fingerprint : Text → Bool
unfolding is_hex
is_fingerprint s = is_hex 64 s

-- `^[a-zA-Z][a-zA-Z0-9]{0,15}$`
unfoldable pub is_interface : Text → Bool
unfolding every
is_interface [] = false
is_interface (c ∷ s) = is_alpha c && every is_alnum s && leb (length s) 15

-- The runes below 0x20 and 0x7f are single bytes of UTF-8.
unfoldable pub has_control : Text → Bool
unfolding some_byte
has_control s = some_byte (λ c. ltb c 0x20 || c == 0x7f) s

-- `strings.ContainsAny(s, " \t")`
unfoldable pub has_blank : Text → Bool
unfolding some_byte
has_blank s = some_byte (λ c. c == 0x20 || c == 0x09) s
