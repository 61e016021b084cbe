-- ===== src/Darwin/Fields.antt =====
-- How internal/darwinnet/route.go reads what `route get` prints: fields, destinations and masks.
use nordmac.Base.{
  ℕ, zero, suc, ◌+◌, ◌-◌, ◌*◌, ◌/◌, ◌%◌, ◌^◌, Bool, true, false, ◌&&◌, Option, none, some, List, [],
  ◌∷◌, ◌++◌, Text, ltb, leb, ◌==◌, nat_eq, text_eq, length, message, Outcome, ok, err, panic,
  if◌then◌else◌, replicate,
}
use nordmac.Netip.{Addr, v4, v6, Prefix}
use nordmac.Netip.Prefixes
use nordmac.Strings.{
  ascii, has_prefix, trim_prefix, includes, split, join_with, cut, trim_space, hex_digit,
  parse_uint, atoi,
}

-- The map of `parseRouteFields`, the newest entry first.
abbrev pub Fields : Type 0
Fields = List (Text × Text)

-- A missing key reads as "".
unfoldable pub field : Fields → Text → Text
field [] key = []
field ((k, v) ∷ fs) key = if k == key then v else field fs key

abbrev pub add_line : Option (Text × Text) → Fields → Fields
add_line none fs = fs
add_line (some (k, v)) fs = (trim_space k, trim_space v) ∷ fs

unfoldable pub fields_from : Fields → List Text → Fields
fields_from fs [] = fs
fields_from fs (l ∷ ls) = fields_from (add_line (cut b':' l) fs) ls

-- `parseRouteFields`
abbrev pub parse_route_fields : Text → Fields
parse_route_fields output = fields_from [] (split 10 output)

-- `bits.OnesCount32`, on the bits of a number below 2 ^ w
unfoldable pub ones_count : ℕ → ℕ → ℕ
ones_count zero n = 0
ones_count (suc w) n = n % 2 + ones_count w (n / 2)

-- `^uint32(0) << (32 - ones)`
abbrev pub shifted_ones : ℕ → ℕ
shifted_ones ones = (2 ^ 32 - 1) * 2 ^ (32 - ones) % 2 ^ 32

-- The `canonical` of `maskBits`.
unfoldable pub canonical : ℕ → ℕ
canonical ones = if ltb 0 ones then shifted_ones ones else 0

-- `maskBits`
unfoldable pub mask_bits : ℕ → Outcome ℕ
mask_bits mask =
    let ones = ones_count 32 mask in
    if mask == canonical ones then ok ones else err (message "non-contiguous IPv4 route mask")

-- The bits of a number below 2 ^ w, the highest first.
unfoldable pub bits_of : ℕ → ℕ → List Bool
bits_of zero n = []
bits_of (suc w) n = (n / 2 ^ w % 2 == 1) ∷ bits_of w n

-- The loop over the bits of an IPv6 mask.
unfoldable pub count_mask : ℕ → Bool → List Bool → Outcome ℕ
count_mask ones zero_seen [] = ok ones
count_mask ones zero_seen (bit ∷ bits) =
    let more = count_mask (suc ones) zero_seen bits in
    let no_more = count_mask ones true bits in
    if zero_seen && bit
    then err (message "non-contiguous route mask")
    else if bit
    then more
    else no_more

abbrev pub of_uint : Option ℕ → Outcome ℕ
of_uint none = err (message "invalid syntax")
of_uint (some mask) = mask_bits mask

-- A mask written as an address of the family.
unfoldable pub mask_addr : ℕ → Option Addr → Outcome ℕ
mask_addr width (some (v4 n)) =
    if width == 32 then mask_bits n else err (message "invalid route mask")
mask_addr width (some (v6 n z)) =
    if width == 128 then count_mask 0 false (bits_of 128 n) else err (message "invalid route mask")
mask_addr width _ = err (message "invalid route mask")

abbrev pub zeros : ℕ → List Text
zeros n = replicate n (ascii "0")

module _ (parse_addr : Text → Option Addr) where
  abbrev pub parsed : Option Addr → Outcome Addr
  parsed none = err (message "unable to parse IP")
  parsed (some a) = ok a

  -- `parseMaskBits`
  unfoldable pub parse_mask_bits : Text → ℕ → Outcome ℕ
  parse_mask_bits value width =
      if value == ascii "default"
      then ok 0
      else if width == 32 && has_prefix value (ascii "0x")
      then of_uint (parse_uint hex_digit 16 (2 ^ 32) (trim_prefix value (ascii "0x")))
      else mask_addr width (parse_addr value)

  -- `parseBSDAddress`
  unfoldable pub parse_bsd_address : Text → Outcome Addr
  parse_bsd_address value =
      let parts = split b'.' value in
      if ltb 4 (length parts)
      then err (message "invalid route destination")
      else parsed (parse_addr (join_with (ascii ".") (parts ++ zeros (4 - length parts))))

  abbrev pub with_bits : Addr → Outcome ℕ → Outcome Prefix
  with_bits a (ok n) = ok (Prefixes.masked (Prefixes.from a n))
  with_bits a (err e) = err e
  with_bits a panic = panic

  abbrev pub by_mask : Addr → Text → ℕ → Outcome Prefix
  by_mask a mask width =
      if mask == []
      then err (message "non-host route is missing its mask")
      else with_bits a (parse_mask_bits mask width)

  -- The length that the field `prefixlen` gives, where it is one.
  abbrev pub by_length : Addr → Option ℕ → Text → ℕ → Outcome Prefix
  by_length a none mask width = by_mask a mask width
  by_length a (some n) mask width = if leb n width then with_bits a (ok n) else by_mask a mask width

  unfoldable pub prefix_of : Fields → ℕ → Outcome Addr → Outcome Prefix
  prefix_of fs width (err e) = err e
  prefix_of fs width panic = panic
  prefix_of fs width (ok a) =
      if includes (field fs (ascii "flags")) (ascii "HOST")
      then ok (Prefixes.from a width)
      else by_length a (atoi (field fs (ascii "prefixlen"))) (field fs (ascii "mask")) width

  -- `parseRoutePrefix`
  unfoldable pub parse_route_prefix : Fields → ℕ → Outcome Prefix
  parse_route_prefix fs width =
      let destination = field fs (ascii "destination") in
      if destination == ascii "default" && width == 32
      then ok (Prefixes.from (v4 0) 0)
      else prefix_of fs width
          (if width == 128 then parsed (parse_addr destination) else parse_bsd_address destination)
