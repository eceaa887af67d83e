-- ===== src/Net.antt =====
-- Go's package `net` as the program uses it: an address is its octets, a network an address and
-- the number of leading ones of its mask.
use lazyjack.Base.{ℕ, Bytes, Bool, Option}

pub record IpNet : Type 0 where
  pub ip : Bytes
  pub ones : ℕ

pub record Net : Type 0 where
  -- `net.ParseCIDR`: the address and its network, or the error.
  pub parse_cidr : Bytes → Option (Bytes × IpNet)
  -- `net.ParseIP`; `none` is the nil slice.
  pub parse_ip : Bytes → Option Bytes
  -- `IP.String`
  pub ip_string : Bytes → Bytes
  -- `IP.To4() != nil`
  pub is_to4 : Bytes → Bool
  -- `IPNet.Contains`
  pub net_contains : IpNet → Bytes → Bool
