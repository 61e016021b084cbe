-- ===== src/Strings.antt =====
-- What the program uses of Go's `strings` and `strconv`, on the bytes of a string.
use Prim.Native.Char.{code}
use nordmac.Base.{
  ℕ, zero, suc, ◌+◌, ◌-◌, ◌*◌, ◌^◌, Bool, ◌&&◌, ◌||◌, Option, none, some, List, [], ◌∷◌, ◌++◌, Text,
  String, leb, ltb, ◌==◌, nat_eq, text_eq, if◌then◌else◌, length, take, drop,
}

-- The bytes of a literal of ASCII characters.
abbrev pub ascii : String → Text
ascii String.[] = []
ascii (String.◌∷◌ c s) = code c ∷ ascii s

abbrev pub has_prefix : Text → Text → Bool
has_prefix s p = take (length p) s == p

-- `strings.TrimPrefix`
abbrev pub trim_prefix : Text → Text → Text
trim_prefix s p = if has_prefix s p then drop (length p) s else s

-- `strings.Contains`
unfoldable pub includes : Text → Text → Bool
includes [] p = p == []
includes (c ∷ s) p = has_prefix (c ∷ s) p || includes s p

-- `strings.Split` on one byte
abbrev pub cons_part : ℕ → List Text → List Text
cons_part c [] = (c ∷ []) ∷ []
cons_part c (p ∷ ps) = (c ∷ p) ∷ ps

unfoldable pub split : ℕ → Text → List Text
split b [] = [] ∷ []
split b (c ∷ s) = let rest = split b s in if c == b then [] ∷ rest else cons_part c rest

-- `strings.Join`
unfoldable pub join_with : Text → List Text → Text
join_with sep [] = []
join_with sep (p ∷ []) = p
join_with sep (p ∷ q ∷ ps) = p ++ sep ++ join_with sep (q ∷ ps)

-- `strings.Cut` at one byte
abbrev pub cons_cut : ℕ → Option (Text × Text) → Option (Text × Text)
cons_cut c none = none
cons_cut c (some (k, v)) = some (c ∷ k, v)

unfoldable pub cut : ℕ → Text → Option (Text × Text)
cut b [] = none
cut b (c ∷ s) = let rest = cut b s in if c == b then some ([], s) else cons_cut c rest

abbrev pub lower_byte : ℕ → ℕ
lower_byte c = if leb b'A' c && leb c b'Z' then c + 32 else c

-- How many bytes of a white space rune stand here.
abbrev is_space_2 : ℕ → ℕ → Bool
is_space_2 a b = a == 0xC2 && (b == 0x85 || b == 0xA0)

abbrev is_space_3 : ℕ → ℕ → ℕ → Bool
is_space_3 a b c =
    a == 0xE1 && b == 0x9A && c == 0x80
    || a == 0xE2 && b == 0x80 && (leb 0x80 c && leb c 0x8A || c == 0xA8 || c == 0xA9 || c == 0xAF)
    || a == 0xE2 && b == 0x81 && c == 0x9F
    || a == 0xE3 && b == 0x80 && c == 0x80

abbrev is_space : ℕ → Bool
is_space c = leb 9 c && leb c 13 || c == 32

-- On the first bytes, and on the last bytes of a reversed text.
abbrev pub space_front : Text → ℕ
space_front [] = 0
space_front (a ∷ []) = if is_space a then 1 else 0
space_front (a ∷ b ∷ []) = if is_space a then 1 else if is_space_2 a b then 2 else 0
space_front (a ∷ b ∷ c ∷ s) =
    if is_space a then 1 else if is_space_2 a b then 2 else if is_space_3 a b c then 3 else 0

abbrev pub space_back : Text → ℕ
space_back [] = 0
space_back (a ∷ []) = if is_space a then 1 else 0
space_back (a ∷ b ∷ []) = if is_space a then 1 else if is_space_2 b a then 2 else 0
space_back (a ∷ b ∷ c ∷ s) =
    if is_space a then 1 else if is_space_2 b a then 2 else if is_space_3 c b a then 3 else 0

-- Drops the runes that `front` measures; the number counts the bytes left of one.
unfoldable pub trim_from : (Text → ℕ) → ℕ → Text → Text
trim_from front k [] = []
trim_from front (suc k) (c ∷ s) = trim_from front k s
trim_from front zero (c ∷ s) = elim (front (c ∷ s)) [ zero ↦ c ∷ s | suc k ↦ trim_from front k s ]

abbrev reversed_onto : Text → Text → Text
reversed_onto acc [] = acc
reversed_onto acc (c ∷ s) = reversed_onto (c ∷ acc) s

abbrev pub reversed : Text → Text
reversed s = reversed_onto [] s

-- `strings.TrimSpace`
unfoldable pub trim_space : Text → Text
unfolding trim_from
trim_space s = reversed (trim_from space_back 0 (reversed (trim_from space_front 0 s)))

abbrev pub digit : ℕ → Option ℕ
digit c = if leb b'0' c && leb c b'9' then some (c - b'0') else none

abbrev pub hex_digit : ℕ → Option ℕ
hex_digit c =
    if leb b'0' c && leb c b'9'
    then some (c - b'0')
    else if leb b'a' c && leb c b'f'
    then some (c - b'a' + 10)
    else if leb b'A' c && leb c b'F'
    then some (c - b'A' + 10)
    else none

-- The number that some digits write.
abbrev digits_from : (ℕ → Option ℕ) → ℕ → ℕ → Text → Option ℕ
digits_from value base n [] = some n
digits_from value base n (c ∷ s) = elim (value c) [
  | none ↦ none
  | some d ↦ digits_from value base (n * base + d) s
]

-- `strconv.ParseUint` below `limit`
abbrev pub parse_uint : (ℕ → Option ℕ) → ℕ → ℕ → Text → Option ℕ
parse_uint value base limit [] = none
parse_uint value base limit (c ∷ s) = elim (digits_from value base 0 (c ∷ s)) [
  | none ↦ none
  | some n ↦ if ltb n limit then some n else none
]

abbrev zero_only : Option ℕ → Option ℕ
zero_only (some zero) = some 0
zero_only _ = none

-- What `strconv.Atoi` answers, where it is not negative.
unfoldable pub atoi : Text → Option ℕ
atoi [] = none
atoi (c ∷ s) =
    if c == b'+'
    then parse_uint digit 10 (2 ^ 63) s
    else if c == b'-'
    then zero_only (parse_uint digit 10 (2 ^ 63) s)
    else parse_uint digit 10 (2 ^ 63) (c ∷ s)
