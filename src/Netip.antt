-- ===== src/Netip.antt =====
-- What the program uses of Go's `net/netip`: addresses, prefixes and endpoints as comparable values.
-- An IPv4 address is a number below 2 ^ 32, an IPv6 address one below 2 ^ 128 with its zone.
pub mod Address
pub mod Prefixes
use nordmac.Base.{ℕ, Text, Eq, ℕ_discrete, Text-discrete}

pub data Addr : Type 0 where
  zero_addr : Addr
  v4 : ℕ → Addr
  v6 : ℕ → Text → Addr

unfoldable pub Addr-discrete : Discrete Addr
unfolding ℕ_discrete Text-discrete
Addr-discrete = hlevel (ℕ_discrete, Text-discrete)

instance abbrev pub addr_eq : Eq Addr
addr_eq = record { dec = Addr-discrete }

-- `bits_plus_one` is 0 in the zero value and in an invalid prefix.
pub record Prefix : Type 0 where
  pub addr : Addr
  pub bits_plus_one : ℕ

unfoldable pub Prefix-discrete : Discrete Prefix
unfolding ℕ_discrete Addr-discrete
Prefix-discrete = hlevel (ℕ_discrete, Addr-discrete)

instance abbrev pub prefix_eq : Eq Prefix
prefix_eq = record { dec = Prefix-discrete }

pub record AddrPort : Type 0 where
  pub addr : Addr
  pub port : ℕ
