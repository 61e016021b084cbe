-- ===== src/Recommend/Select.antt =====
-- `ResolveCountry`, `ResolveCity` and `Select` of internal/recommend/recommend.go.
use nordmac.Base.{
  Bool, false, ◌&&◌, ◌||◌, Option, none, some, List, [], ◌∷◌, ◌++◌, ◌==◌, text_eq, int_eq, nat_eq,
  contains, Text, ℤ, pos, length, Outcome, ok, err, wrap, sentinel, Sentinel, if◌then◌else◌,
}

-- What the code calls of Go's strings, unicode and encoding/base64.
pub record Strings : Type 0 where
  pub to_lower : Text → Text
  pub trim_space : Text → Text
  pub keep_letters_digits : Text → Text
  pub equal_fold : Text → Text → Bool
  pub decode_base64 : Text → Option Text

pub record City : Type 0 where
  pub id : ℤ
  pub name : Text
  pub slug : Text

pub record Country : Type 0 where
  pub id : ℤ
  pub name : Text
  pub code : Text
  pub cities : List City

pub record Server : Type 0 where
  pub id : ℤ
  pub name : Text
  pub hostname : Text
  pub station : Text
  pub load : ℤ
  pub status : Text
  pub country_id : ℤ
  pub country_name : Text
  pub country_code : Text
  pub city_id : ℤ
  pub city_name : Text
  pub city_slug : Text
  pub wireguard_pub_key : Text

-- "online"
abbrev pub online : Text
online = b'o' ∷ b'n' ∷ b'l' ∷ b'i' ∷ b'n' ∷ b'e' ∷ []

-- ".nordvpn.com"
abbrev pub domain : Text
domain = b'.' ∷ b'n' ∷ b'o' ∷ b'r' ∷ b'd' ∷ b'v' ∷ b'p' ∷ b'n' ∷ b'.' ∷ b'c' ∷ b'o' ∷ b'm' ∷ []

-- The loop that collects the matches.
abbrev pub matches {ℓ} : {A : Type ℓ} → (A → Bool) → List A → List A
matches p [] = []
matches p (x ∷ xs) = let rest = matches p xs in if p x then x ∷ rest else rest

-- The only match, or the error.
unfoldable pub only {ℓ} : {A : Type ℓ} → List A → Outcome A
only [] = err (wrap "no match" (sentinel Sentinel.no_match))
only (x ∷ []) = ok x
only (x ∷ y ∷ xs) = err (wrap "ambiguous" (sentinel Sentinel.ambiguous))

abbrev pub invalid {ℓ} : {A : Type ℓ} → Outcome A
invalid = err (wrap "is required" (sentinel Sentinel.invalid_query))

module _ (go : Strings) where
  -- `normalize`
  abbrev pub normalize : Text → Text
  normalize value = go.keep_letters_digits (go.trim_space (go.to_lower value))

  abbrev pub is_country : Text → Country → Bool
  is_country want c = normalize c.code == want || normalize c.name == want

  -- `ResolveCountry`
  unfoldable pub resolve_country : List Country → Text → Outcome Country
  resolve_country countries input =
      let want = normalize input in
      if want == [] then invalid else only (matches (is_country want) countries)

  abbrev pub is_city : Text → City → Bool
  is_city want c = normalize c.name == want || normalize c.slug == want

  -- `ResolveCity`
  unfoldable pub resolve_city : Country → Text → Outcome City
  resolve_city country input =
      let want = normalize input in
      if want == [] then invalid else only (matches (is_city want) country.cities)

  abbrev pub host_of : Text → Text
  host_of value = go.to_lower (go.trim_space value)

  -- `normalizeServer`
  unfoldable pub normalize_server : Text → Text
  normalize_server value =
      let host = host_of value in
      if host == [] then [] else if contains host b'.' then host else host ++ domain

  -- `validWireGuardKey`
  abbrev pub is_key : Option Text → Bool
  is_key none = false
  is_key (some decoded) = length decoded == 32

  abbrev pub valid_wireguard_key : Text → Bool
  valid_wireguard_key value = is_key (go.decode_base64 value)

  -- The four tests of the loop in `Select`, after the test for a duplicate.
  unfoldable pub is_eligible : Country → ℤ → Text → Server → Bool
  is_eligible country city_id want_host s =
      (s.country_id == country.id && go.equal_fold s.country_code country.code)
      && (city_id == pos 0 || s.city_id == city_id)
      && (want_host == [] || host_of s.hostname == want_host)
      && (go.equal_fold s.status online && valid_wireguard_key s.wireguard_pub_key)

  -- The loop of `Select`.
  unfoldable pub select_from : Country → ℤ → Text → List Text → List Server → Outcome Server
  select_from country city_id want seen [] = err (wrap "no match" (sentinel Sentinel.no_match))
  select_from country city_id want seen (s ∷ servers) =
      let host = host_of s.hostname in
      let skipped = select_from country city_id want seen servers in
      let next = select_from country city_id want (host ∷ seen) servers in
      if contains seen host
      then skipped
      else if is_eligible country city_id want s
      then ok s
      else next

  -- `Select`
  unfoldable pub select : List Server → Country → ℤ → Text → Outcome Server
  select servers country city_id exact_server =
      select_from country city_id (normalize_server exact_server) [] servers
