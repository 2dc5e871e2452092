-- ===== src/Address.antt =====
-- What the program uses of Python's `ipaddress`, for IPv4: addresses are numbers below 2 ^ 32.
pub mod Parse
pub mod Print
pub mod Overlap
use mininet_zone_segmentatio.Base.{ℕ, ◌+◌, ◌-◌, ◌*◌, ◌/◌, ◌^◌, Bool, ◌||◌, ◌==◌, nat_eq}

-- An `IPv4Network`.
pub record Subnet : Type 0 where
  pub network_address : ℕ
  pub prefixlen : ℕ

-- `net.num_addresses`
unfoldable pub num_addresses : Subnet → ℕ
num_addresses s = 2 ^ (32 - s.prefixlen)

-- `addr in net`: `addr & netmask == network_address`
unfoldable pub in_subnet : ℕ → Subnet → Bool
in_subnet addr s = addr / num_addresses s * num_addresses s == s.network_address

unfoldable pub broadcast_address : Subnet → ℕ
broadcast_address s = s.network_address + (num_addresses s - 1)

-- `net.overlaps(other)`
unfoldable pub overlaps : Subnet → Subnet → Bool
overlaps s t =
    in_subnet s.network_address t
    || (in_subnet (broadcast_address s) t
        || (in_subnet t.network_address s || in_subnet (broadcast_address t) s))
