-- ===== src/Policy.antt =====
-- firewall_rules.py: the zones and the block rules, and the decisions taken with them. The module
-- globals ZONES, BLOCK_ALL_IP and BLOCK_ICMP are the three fields of `Policy`.
pub mod Load
pub mod Table
pub mod Decisions
pub mod Known
pub mod Blocks
pub mod Validity
pub mod Shipped
use mininet_zone_segmentatio.Base.{
  ℕ, String, Bool, true, false, not, ◌&&◌, ◌||◌, Option, none, some, List, [], ◌∷◌, ◌==◌, nat_eq,
  string_eq, pair_eq, contains, Dict, lookup, has_key, if◌then◌else◌,
}
use mininet_zone_segmentatio.Address.{Subnet, in_subnet}

-- The dict that ZONES holds for a zone's name.
pub record Zone : Type 0 where
  pub subnet : Subnet
  pub gateway : ℕ
  pub gateway_mac : String

abbrev pub Zones : Type 0
Zones = Dict String Zone

-- A set of (src_zone, dst_zone) pairs.
abbrev pub Pairs : Type 0
Pairs = List (String × String)

pub record Policy : Type 0 where
  pub zones : Zones
  pub block_all_ip : Pairs
  pub block_icmp : Pairs

-- The first zone whose subnet holds the address; `none` is Python's None.
unfoldable pub zone_for_ip : Zones → ℕ → Option String
zone_for_ip [] addr = none
zone_for_ip ((name, zone) ∷ zones) addr =
    if in_subnet addr zone.subnet then some name else zone_for_ip zones addr

-- `zone_for_ip(src_ip) == ingress_zone`
is_zone : Option String → String → Bool
is_zone none z = false
is_zone (some n) z = n == z

-- The test of a zone that is known, whose gateway the source must not claim.
valid_in : Zones → ℕ → String → Option Zone → Bool
valid_in zones src_ip name none = false
valid_in zones src_ip name (some zone) =
    if src_ip == zone.gateway then false else is_zone (zone_for_ip zones src_ip) name

unfoldable pub source_ip_valid_for_zone : Zones → ℕ → Option String → Bool
unfolding valid_in is_zone
source_ip_valid_for_zone zones src_ip none = false
source_ip_valid_for_zone zones src_ip (some name) = valid_in zones src_ip name (lookup name zones)

-- `zone in ZONES`, where the zone may be None.
unfoldable pub is_known : Zones → Option String → Bool
is_known zones none = false
is_known zones (some name) = has_key name zones

-- `(src_zone, dst_zone) in table`
unfoldable pub is_blocked : Pairs → Option String → Option String → Bool
is_blocked table (some src) (some dst) = contains table (src, dst)
is_blocked table _ _ = false

unfoldable pub firewall_allowed : Policy → Option String → Option String → Bool → Bool
firewall_allowed p src_zone dst_zone is_icmp =
    if not (is_known p.zones src_zone) || not (is_known p.zones dst_zone)
    then false
    else if is_blocked p.block_all_ip src_zone dst_zone
    then false
    else if is_icmp && is_blocked p.block_icmp src_zone dst_zone
    then false
    else true
