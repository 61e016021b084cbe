-- ===== src/Command/Parsed.antt =====
-- The arguments that `parseRecommend` of internal/command/run.go reads back as the query.
use nordmac.Base.{
  ℕ, true, false, List, [], ◌∷◌, ◌++◌, Text, ◌==◌, nat_eq, text_eq, ==-refl, ite, ◌≡◌, ◌≢◌, refl,
  sym, ap, ◌∙◌, subst, Text-discrete, ℕ_discrete,
}
use nordmac.Strings.{ascii, has_prefix}
use nordmac.Connection.World.{Query}
use nordmac.Command.Arguments.{
  json_flag, city_flag, server_flag, city_equals, server_equals, is_flag, parsed, with_country,
  with_city, with_server, nothing, parse_from, no_query, parse_recommend,
}

-- The arguments of a query.
abbrev pub flag_of : Text → Text → List Text → List Text
flag_of flag [] args = args
flag_of flag (c ∷ value) args = (flag ++ (c ∷ value)) ∷ args

pub arguments : Query → List Text
arguments q = flag_of city_equals q.city (flag_of server_equals q.server (q.country ∷ []))

abbrev head_or : Text → ℕ
head_or [] = 0
head_or (c ∷ s) = c

-- A text that does not begin with a dash is none of the flags.
not-flag : (c : ℕ) (s p : Text) → c ≢ b'-' → (let t : Text = c ∷ s in t == b'-' ∷ p) ≡ false
not-flag c s p n = decided (Text-discrete (c ∷ s) (b'-' ∷ p))
  where
    decided : (d : Dec (c ∷ s ≡ b'-' ∷ p)) → ite d true false ≡ false
    decided (yes e) = absurd (n (ap head_or e))
    decided (no d) = refl

not-empty : (c : ℕ) (s : Text) → (let t : Text = c ∷ s in t == []) ≡ false
unfolding Text-discrete
not-empty c s = refl

parse_country :
    (q : Query) (c : ℕ) (s : Text)
    → q.country ≡ []
    → c ≢ b'-'
    → parse_from nothing q ((c ∷ s) ∷ []) ≡ parsed (with_country q (c ∷ s))
unfolding parse_from
parse_country q c s e n =
    let t : Text = c ∷ s in
    let e1 : (t == json_flag) ≡ false = not-flag c s _ n in
    let e2 : (t == ascii "--help") ≡ false = not-flag c s _ n in
    let e3 : (t == ascii "-h") ≡ false = not-flag c s _ n in
    let e4 : (t == city_flag) ≡ false = not-flag c s _ n in
    let e5 : (t == server_flag) ≡ false = not-flag c s _ n in
    let e6 : has_prefix t city_equals ≡ false = not-flag c _ _ n in
    let e7 : has_prefix t server_equals ≡ false = not-flag c _ _ n in
    let e8 : is_flag t ≡ false = not-flag c _ _ n in
    let e9 : (q.country == []) ≡ true = ap (λ (x : Text). x == []) e ∙ ==-refl {A = Text} [] in
    rw (e1, e2, e3, e4, e5, e6, e7, e8, e9, not-empty c s) refl

-- `parseRecommend` reads the arguments of a query back as that query: a city and a server written
-- with "=", each only if there is one, and then the country, which does not begin with a dash.
pub parse_recommend-arguments :
    (q : Query) (c : ℕ) (s : Text)
    → q.country ≡ c ∷ s
    → c ≢ b'-'
    → parse_recommend (arguments q) ≡ parsed q
unfolding parse_from Text-discrete ℕ_discrete arguments
parse_recommend-arguments q c s e n =
    subst
      (λ (x : Text).
        (let r : Query = record { country = x; city = q.city; server = q.server } in
          parse_recommend (arguments r) ≡ parsed r))
      (sym e) (go q.city q.server)
  where
    go :
        (city server : Text)
        → parse_recommend (arguments (record { country = c ∷ s; city = city; server = server }))
          ≡ parsed (record { country = c ∷ s; city = city; server = server })
    go [] [] = parse_country no_query c s refl n
    go (a ∷ x) [] = parse_country (with_city no_query (a ∷ x)) c s refl n
    go [] (b ∷ y) = parse_country (with_server no_query (b ∷ y)) c s refl n
    go (a ∷ x) (b ∷ y) = parse_country (with_server (with_city no_query (a ∷ x)) (b ∷ y)) c s refl n
