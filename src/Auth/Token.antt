-- ===== src/Auth/Token.antt =====
-- The access token: internal/tokeninput/read.go and `validateToken` of internal/nordauth/client.go.
use nordmac.Base.{
  ℕ, ◌+◌, Bool, true, false, not, ◌&&◌, ◌||◌, Option, none, some, [], ◌∷◌, Text, ltb, ◌==◌, nat_eq,
  length, take, Error, message, Outcome, ok, err, panic, Check, pass, reject_if, ◌>>◌,
  if◌then◌else◌,
}

-- `bytes.TrimSuffix` of one byte
unfoldable pub trim_last : ℕ → Text → Text
trim_last b [] = []
trim_last b (c ∷ []) = if c == b then [] else c ∷ []
trim_last b (c ∷ d ∷ s) = c ∷ trim_last b (d ∷ s)

-- The loop over the bytes of a token.
unfoldable pub check_bytes : Text → Check
check_bytes [] = pass
check_bytes (value ∷ token) =
    let rest = check_bytes token in
    if (ltb value b'0' || ltb b'9' value) && (ltb value b'a' || ltb b'f' value)
    then err (message "invalid Nord access token format")
    else rest

abbrev pub max_token_bytes : ℕ
max_token_bytes = 4096

-- `validateToken`; the tests of `normalize` are the same.
unfoldable pub validate_token : Text → Check
validate_token token = do
  reject_if (length token == 0 || ltb max_token_bytes (length token))
      "invalid Nord access token format"
  check_bytes token

abbrev pub when_valid : Text → Check → Outcome Text
when_valid raw (ok _) = ok raw
when_valid raw (err e) = err e
when_valid raw panic = panic

-- `normalize`
unfoldable pub normalize : Text → Bool → Outcome Text
normalize raw true =
    let trimmed = trim_last 13 (trim_last 10 raw) in when_valid trimmed (validate_token trimmed)
normalize raw false = when_valid raw (validate_token raw)

abbrev pub read_input : Outcome Text → Outcome Text
read_input (ok bytes) = normalize (take (max_token_bytes + 3) bytes) true
read_input (err e) = err (message "read token from stdin")
read_input panic = panic

-- `ReadStdin`; a nil reader is `none`.
unfoldable pub read_stdin : Option (Outcome Text) → Outcome Text
read_stdin none = err (message "token stdin is unavailable")
read_stdin (some input) = read_input input

-- A terminal, with what its calls answer; a nil prompt is `has_prompt = false`.
pub record Terminal : Type 0 where
  pub has_prompt : Bool
  pub is_terminal : Bool
  pub prompt_error : Option Error
  pub password : Outcome Text
  pub newline_error : Option Error

abbrev pub after_newline : Option Error → Text → Outcome Text
after_newline none raw = normalize raw false
after_newline (some e) raw = err (message "finish token prompt")

abbrev pub after_password : Outcome Text → Option Error → Outcome Text
after_password (ok raw) newline = after_newline newline raw
after_password (err e) newline = err (message "read hidden token")
after_password panic newline = panic

abbrev pub after_prompt : Option Error → Outcome Text → Outcome Text
after_prompt none next = next
after_prompt (some e) next = err (message "write token prompt")

-- `ReadHidden`
unfoldable pub read_hidden : Terminal → Outcome Text
read_hidden t =
    if not t.has_prompt
    then err (message "token prompt is unavailable")
    else if not t.is_terminal
    then err (message "hidden token input requires a terminal")
    else after_prompt t.prompt_error (after_password t.password t.newline_error)
