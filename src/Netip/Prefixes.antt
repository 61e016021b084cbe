-- ===== src/Netip/Prefixes.antt =====
-- The methods of `netip.Prefix` that the program calls.
use nordmac.Base.{
  ℕ, ◌+◌, ◌-◌, ◌*◌, ◌/◌, ◌^◌, Bool, false, ◌&&◌, [], ◌==◌, nat_eq, text_eq, if◌then◌else◌, leb, ltb,
}
use nordmac.Netip.{Addr, zero_addr, v4, v6, Prefix}
use nordmac.Netip.Address

-- Clears all but the first `b` of `w` bits.
unfoldable pub mask_bits : ℕ → ℕ → ℕ → ℕ
mask_bits w b n = n / 2 ^ (w - b) * 2 ^ (w - b)

abbrev pub zero : Prefix
zero = record { addr = zero_addr; bits_plus_one = 0 }

-- `netip.PrefixFrom`
abbrev pub from : Addr → ℕ → Prefix
from a b = record {
  addr = Address.without_zone a;
  bits_plus_one = if Address.is_valid a && leb b (Address.bit_len a) then b + 1 else 0;
}

abbrev pub is_valid : Prefix → Bool
is_valid p = ltb 0 p.bits_plus_one

-- The length of a valid prefix.
abbrev pub bits : Prefix → ℕ
bits p = p.bits_plus_one - 1

abbrev pub mask_addr : Addr → ℕ → Prefix
mask_addr zero_addr b = zero
mask_addr (v4 n) b = if leb b 32 then from (v4 (mask_bits 32 b n)) b else zero
mask_addr (v6 n z) b = if leb b 128 then from (v6 (mask_bits 128 b n) []) b else zero

abbrev pub masked : Prefix → Prefix
masked p = if is_valid p then mask_addr p.addr (bits p) else zero

abbrev pub same_start : ℕ → ℕ → ℕ → ℕ → Bool
same_start w b n m = n / 2 ^ (w - b) == m / 2 ^ (w - b)

abbrev pub contains_addr : Addr → ℕ → Addr → Bool
contains_addr (v4 n) b (v4 m) = same_start 32 b n m
contains_addr (v6 n z) b (v6 m y) = y == [] && same_start 128 b n m
contains_addr _ b _ = false

abbrev pub contains : Prefix → Addr → Bool
contains p a = is_valid p && contains_addr p.addr (bits p) a
