-- ===== src/Netip/Address.antt =====
-- The methods of `netip.Addr` that the program calls.
use nordmac.Base.{
  ℕ, ◌/◌, ◌%◌, ◌^◌, Bool, true, false, not, ◌&&◌, ◌||◌, [], ◌==◌, nat_eq, text_eq, if◌then◌else◌,
}
use nordmac.Netip.{Addr, zero_addr, v4, v6}

abbrev pub is_valid : Addr → Bool
is_valid zero_addr = false
is_valid _ = true

abbrev pub is_4 : Addr → Bool
is_4 (v4 n) = true
is_4 _ = false

abbrev pub is_6 : Addr → Bool
is_6 (v6 n z) = true
is_6 _ = false

abbrev pub bit_len : Addr → ℕ
bit_len zero_addr = 0
bit_len (v4 n) = 32
bit_len (v6 n z) = 128

-- 0.0.0.0 and ::
abbrev pub is_unspecified : Addr → Bool
is_unspecified zero_addr = false
is_unspecified (v4 n) = n == 0
is_unspecified (v6 n z) = n == 0 && z == []

-- An IPv4-mapped IPv6 address stands for its IPv4 address.
unfoldable pub unmap : Addr → Addr
unmap zero_addr = zero_addr
unmap (v4 n) = v4 n
unmap (v6 n z) = if n / 2 ^ 32 == 0xffff then v4 (n % 2 ^ 32) else v6 n z

-- 224.0.0.0/4 and ff00::/8
unfoldable pub is_multicast_plain : Addr → Bool
is_multicast_plain zero_addr = false
is_multicast_plain (v4 n) = n / 2 ^ 28 == 14
is_multicast_plain (v6 n z) = n / 2 ^ 120 == 255

unfoldable pub is_multicast : Addr → Bool
unfolding unmap is_multicast_plain
is_multicast a = is_multicast_plain (unmap a)

-- 10.0.0.0/8, 172.16.0.0/12, 192.168.0.0/16 and fc00::/7
unfoldable pub is_private_plain : Addr → Bool
is_private_plain zero_addr = false
is_private_plain (v4 n) = n / 2 ^ 24 == 10 || n / 2 ^ 20 == 2753 || n / 2 ^ 16 == 49320
is_private_plain (v6 n z) = n / 2 ^ 121 == 126

unfoldable pub is_private : Addr → Bool
unfolding unmap is_private_plain
is_private a = is_private_plain (unmap a)

-- Not unspecified, broadcast, loopback, multicast or link-local.
unfoldable pub is_global_unicast_plain : Addr → Bool
unfolding is_multicast_plain
is_global_unicast_plain zero_addr = false
is_global_unicast_plain (v4 n) =
    not (n == 0)
    && not (n == 0xffffffff)
    && not (n / 2 ^ 24 == 127)
    && not (is_multicast_plain (v4 n))
    && not (n / 2 ^ 16 == 43518)
is_global_unicast_plain (v6 n z) =
    not (n == 0) && not (n == 1) && not (is_multicast_plain (v6 n z)) && not (n / 2 ^ 118 == 1018)

unfoldable pub is_global_unicast : Addr → Bool
unfolding unmap is_global_unicast_plain
is_global_unicast a = is_global_unicast_plain (unmap a)

abbrev pub without_zone : Addr → Addr
without_zone zero_addr = zero_addr
without_zone (v4 n) = v4 n
without_zone (v6 n z) = v6 n []
