-- ===== src/Auth/Accepted.antt =====
-- The tokens that `ReadStdin` of internal/tokeninput/read.go accepts.
use nordmac.Base.{
  ℕ, zero, suc, ◌≤◌, ◌<◌, true, false, some, [], ◌∷◌, ◌++◌, Text, nat_eq, ==-refl, length, take,
  length-append, ok, err, panic, Check, pass, reject_if-pass, pass-reject_if, >>-pass, pass->>,
  if◌then◌else◌, ite, All, ◌≡◌, ◌≢◌, ◌⊎◌, ◌↔◌, inl, inr, refl, sym, ap, subst, ◌∙◌, arith,
  ℕ_discrete, append_assoc, append-nil,
}
use nordmac.Base.Triples.{ok-injective}
use nordmac.Auth.Token.{trim_last, check_bytes, validate_token, when_valid, normalize, read_stdin}

-- A digit or one of the letters a to f.
abbrev pub IsHex : ℕ → Type 0
IsHex c = ((b'0' ≤ c) × (c ≤ b'9')) ⊎ ((b'a' ≤ c) × (c ≤ b'f'))

-- One to 4096 lower case hexadecimal digits.
abbrev pub IsToken : Text → Type 0
IsToken t = (0 < length t) × (length t ≤ 4096) × All IsHex t

-- The line endings that are taken off.
pub data IsEnding : (t : Text) → Type 0 where
  no_ending : IsEnding []
  newline : IsEnding (10 ∷ [])
  carriage_return : IsEnding (13 ∷ [])
  both : IsEnding (13 ∷ 10 ∷ [])

check_bytes-All : (t : Text) → check_bytes t ≡ pass → All IsHex t
unfolding check_bytes
check_bytes-All [] h = tt
check_bytes-All (c ∷ t) h = (ground (arith, h), check_bytes-All t (ground (arith, h)))

All-check_bytes : (t : Text) → All IsHex t → check_bytes t ≡ pass
unfolding check_bytes
All-check_bytes [] h = refl
All-check_bytes (c ∷ t) (h, hs) = ground (arith, h, All-check_bytes t hs)

pub validate_token-IsToken : (t : Text) → (validate_token t ≡ pass) ↔ IsToken t
unfolding validate_token
validate_token-IsToken t = (
  λ h.
      let (a, b) = >>-pass _ _ h in
      let bounds = reject_if-pass _ _ a in
      (ground (arith, bounds), ground (arith, bounds), check_bytes-All t b),
  λ (p, q, hs). pass->> _ _ (pass-reject_if _ _ (ground (arith, p, q))) (All-check_bytes t hs),
)

-- What trimming leaves is the text, or the text without its last byte.
trim_last-lem : (b : ℕ) (s : Text) → (trim_last b s ≡ s) ⊎ (s ≡ trim_last b s ++ (b ∷ []))
unfolding trim_last
trim_last-lem b [] = inl refl
trim_last-lem b (c ∷ []) = last (ℕ_discrete c b)
  where
    last :
        (d : Dec (c ≡ b))
        → ((if ite d true false then [] else c ∷ []) ≡ c ∷ [])
          ⊎ (c ∷ [] ≡ (if ite d true false then [] else c ∷ []) ++ (b ∷ []))
    last (yes e) = inr (ap (λ x. x ∷ []) e)
    last (no n) = inl refl
trim_last-lem b (c ∷ d ∷ s) = elim (trim_last-lem b (d ∷ s)) [
  | inl e ↦ inl (ap (λ x. c ∷ x) e)
  | inr e ↦ inr (ap (λ x. c ∷ x) e)
]

-- A last byte is taken off when it is this one, and stays otherwise.
trim_last-append : (b : ℕ) (s : Text) → trim_last b (s ++ (b ∷ [])) ≡ s
unfolding trim_last ℕ_discrete
trim_last-append b [] = rw (==-refl b) refl
trim_last-append b (c ∷ []) = rw (==-refl b) refl
trim_last-append b (c ∷ d ∷ s) = ap (λ x. c ∷ x) (trim_last-append b (d ∷ s))

trim_last-other : (b c : ℕ) (s : Text) → c ≢ b → trim_last b (s ++ (c ∷ [])) ≡ s ++ (c ∷ [])
unfolding trim_last
trim_last-other b c [] n = last (ℕ_discrete c b)
  where
    last : (d : Dec (c ≡ b)) → (if ite d true false then [] else c ∷ []) ≡ c ∷ []
    last (yes e) = absurd (n e)
    last (no _) = refl
trim_last-other b c (x ∷ []) n = ap (λ y. x ∷ y) (trim_last-other b c [] n)
trim_last-other b c (x ∷ d ∷ s) n = ap (λ y. x ∷ y) (trim_last-other b c (d ∷ s) n)

trim_last-hex : (b : ℕ) (s : Text) → b < 48 → All IsHex s → trim_last b s ≡ s
unfolding trim_last
trim_last-hex b [] l h = refl
trim_last-hex b (c ∷ []) l (h, _) = trim_last-other b c [] (λ e. ground (arith, h, l, e))
trim_last-hex b (c ∷ d ∷ s) l (h, hs) = ap (λ x. c ∷ x) (trim_last-hex b (d ∷ s) l hs)

take-short : (n : ℕ) (s : Text) → length (take n s) < n → take n s ≡ s
take-short zero s h = absurd (omega (arith, h))
take-short (suc n) [] h = refl
take-short (suc n) (c ∷ s) h = ap (λ x. c ∷ x) (take-short n s (omega (arith, h)))

take-all : (n : ℕ) (s : Text) → length s ≤ n → take n s ≡ s
take-all zero [] h = refl
take-all zero (c ∷ s) h = absurd (omega (arith, h))
take-all (suc n) [] h = refl
take-all (suc n) (c ∷ s) h = ap (λ x. c ∷ x) (take-all n s (omega (arith, h)))

when_valid-ok : (raw t : Text) (k : Check) → when_valid raw k ≡ ok t → (k ≡ pass) × (raw ≡ t)
when_valid-ok raw t (ok tt) h = (refl, ok-injective _ _ h)
when_valid-ok raw t (err e) h = cc
when_valid-ok raw t panic h = cc

-- The text is what is left and an ending.
IsEnding-trimmed : (s : Text) → (e : Text) × IsEnding e × (s ≡ trim_last 13 (trim_last 10 s) ++ e)
IsEnding-trimmed s = split (trim_last-lem 10 s) (trim_last-lem 13 (trim_last 10 s))
  where
    split :
        (trim_last 10 s ≡ s) ⊎ (s ≡ trim_last 10 s ++ (10 ∷ []))
        → (trim_last 13 (trim_last 10 s) ≡ trim_last 10 s)
          ⊎ (trim_last 10 s ≡ trim_last 13 (trim_last 10 s) ++ (13 ∷ []))
        → (e : Text) × IsEnding e × (s ≡ trim_last 13 (trim_last 10 s) ++ e)
    split (inl a) (inl b) = ([], no_ending, sym (append-nil _ ∙ (b ∙ a)))
    split (inr a) (inl b) = (10 ∷ [], newline, a ∙ ap (λ x. x ++ (10 ∷ [])) (sym b))
    split (inl a) (inr b) = (13 ∷ [], carriage_return, sym a ∙ b)
    split (inr a) (inr b) =
        (13 ∷ 10 ∷ [], both, a ∙ (ap (λ x. x ++ (10 ∷ [])) b ∙ append_assoc _ (13 ∷ []) (10 ∷ [])))

IsEnding-length : (e : Text) → IsEnding e → length e ≤ 2
IsEnding-length e no_ending = omega arith
IsEnding-length e newline = omega arith
IsEnding-length e carriage_return = omega arith
IsEnding-length e both = omega arith

trimmed : (t e : Text) → All IsHex t → IsEnding e → trim_last 13 (trim_last 10 (t ++ e)) ≡ t
trimmed t e h no_ending =
    ap (λ x. trim_last 13 (trim_last 10 x)) (append-nil t)
    ∙ (ap (trim_last 13) (trim_last-hex 10 t (omega arith) h) ∙ trim_last-hex 13 t (omega arith) h)
trimmed t e h newline =
    ap (trim_last 13) (trim_last-append 10 t) ∙ trim_last-hex 13 t (omega arith) h
trimmed t e h carriage_return =
    ap (trim_last 13) (trim_last-other 10 13 t (λ q. absurd (omega (arith, q))))
    ∙ trim_last-append 13 t
trimmed t e h both =
    ap (λ x. trim_last 13 (trim_last 10 x)) (sym (append_assoc t (13 ∷ []) (10 ∷ [])))
    ∙ (ap (trim_last 13) (trim_last-append 10 (t ++ (13 ∷ []))) ∙ trim_last-append 13 t)

-- From bytes that are read without an error, `ReadStdin` returns a token exactly when they are one
-- to 4096 lower case hexadecimal digits, the token, followed by nothing, "\n", "\r" or "\r\n".
pub read_stdin-IsToken :
    (input t : Text)
    → (read_stdin (some (ok input)) ≡ ok t)
      ↔ (IsToken t × ((e : Text) × IsEnding e × (input ≡ t ++ e)))
unfolding read_stdin normalize
read_stdin-IsToken input t = (accepted, λ (token, (e, ending, at)). returned token e ending at)
  where
    read : Text
    read = take 4099 input

    accepted :
        read_stdin (some (ok input)) ≡ ok t
        → IsToken t × ((e : Text) × IsEnding e × (input ≡ t ++ e))
    accepted h =
        let (valid, same) = when_valid-ok _ t _ h in
        let (e, ending, at) = IsEnding-trimmed read in
        let whole : read ≡ t ++ e = at ∙ ap (λ x. x ++ e) same in
        let token : IsToken t =
          subst IsToken same
            ((validate_token-IsToken (trim_last 13 (trim_last 10 read))).0 valid) in
        let short : length read < 4099 =
          omega (arith, ap length whole, length-append t e, IsEnding-length e ending, token.1) in
        (token, (e, ending, sym (take-short 4099 input short) ∙ whole))

    returned :
        IsToken t → (e : Text) → IsEnding e → input ≡ t ++ e → read_stdin (some (ok input)) ≡ ok t
    returned token e ending at =
        let long : length input ≤ 4099 =
          omega (arith, ap length at, length-append t e, IsEnding-length e ending, token.1) in
        let cut : trim_last 13 (trim_last 10 read) ≡ t =
          ap (λ x. trim_last 13 (trim_last 10 x)) (take-all 4099 input long ∙ at)
          ∙ trimmed t e token.2 ending in
        let valid : validate_token t ≡ pass = (validate_token-IsToken t).1 token in
        ap (λ x. when_valid x (validate_token x)) cut ∙ ap (when_valid t) valid
