-- ===== src/Policy/Shipped.antt =====
-- policy.json: the document that ships with the program, and what `load_policy` makes of it.
use mininet_zone_segmentatio.Base.{
  ℕ, String, ◌≡◌, refl, some, List, [], ◌∷◌, insert, string_eq, nat_eq, pair_eq, contains, lookup,
  ok,
}
use mininet_zone_segmentatio.Text.{lower, mac_matches}
use mininet_zone_segmentatio.Address.{in_subnet, num_addresses, overlaps, broadcast_address}
use mininet_zone_segmentatio.Address.Parse.{ip_address, ip_network}
use mininet_zone_segmentatio.Policy.{Zone, Zones, Policy}
use mininet_zone_segmentatio.Policy.Load.{
  RawZone, RawRule, RawPolicy, load_policy, load_zones, load_zone, load_rules, load_rule,
  check_apart, add_pairs, add_targets, add_pair, add_block, known_zones,
}

abbrev raw_zone : String → String → String → RawZone
raw_zone subnet gateway mac = record {
  subnet = some subnet;
  gateway = some gateway;
  gateway_mac = some mac;
}

abbrev raw_rule : ℕ → List String → List String → String → RawRule
raw_rule n sources targets block = record {
  rule = some n;
  sources = some sources;
  targets = some targets;
  block = some block;
}

abbrev pub document : RawPolicy
document = record {
  zones =
      ("DeptA", raw_zone "10.1.1.0/24" "10.1.1.1" "02:00:00:00:00:01")
      ∷ ("DeptB", raw_zone "10.1.2.0/24" "10.1.2.1" "02:00:00:00:00:02")
      ∷ ("DataCenter", raw_zone "10.1.3.0/24" "10.1.3.1" "02:00:00:00:00:03")
      ∷ ("Trust", raw_zone "192.47.38.0/24" "192.47.38.1" "02:00:00:00:00:04")
      ∷ ("Untrust", raw_zone "108.35.24.0/24" "108.35.24.1" "02:00:00:00:00:05")
      ∷ [];
  rules =
      raw_rule 1 ("Untrust" ∷ []) ("DataCenter" ∷ []) "all"
      ∷ raw_rule 2 ("Untrust" ∷ []) ("DeptA" ∷ "DeptB" ∷ "DataCenter" ∷ []) "icmp"
      ∷ raw_rule 3 ("Trust" ∷ []) ("DataCenter" ∷ []) "all"
      ∷ raw_rule 4 ("Trust" ∷ []) ("DeptB" ∷ []) "icmp"
      ∷ raw_rule 6 ("DeptA" ∷ []) ("DeptB" ∷ []) "icmp"
      ∷ raw_rule 6 ("DeptB" ∷ []) ("DeptA" ∷ []) "icmp"
      ∷ raw_rule 7 ("DataCenter" ∷ []) ("Trust" ∷ "Untrust" ∷ []) "all"
      ∷ [];
}

abbrev zone_of : ℕ → ℕ → String → Zone
zone_of network gateway mac = record {
  subnet = record { network_address = network; prefixlen = 24 };
  gateway = gateway;
  gateway_mac = mac;
}

-- The addresses are 10.1.1.0, 10.1.2.0, 10.1.3.0, 192.47.38.0 and 108.35.24.0.
abbrev pub zones : Zones
zones =
    ("DeptA", zone_of 167837952 167837953 "02:00:00:00:00:01")
    ∷ ("DeptB", zone_of 167838208 167838209 "02:00:00:00:00:02")
    ∷ ("DataCenter", zone_of 167838464 167838465 "02:00:00:00:00:03")
    ∷ ("Trust", zone_of 3224315392 3224315393 "02:00:00:00:00:04")
    ∷ ("Untrust", zone_of 1814239232 1814239233 "02:00:00:00:00:05")
    ∷ []

abbrev pub policy : Policy
policy = record {
  zones = zones;
  block_all_ip =
      ("Untrust", "DataCenter")
      ∷ ("Trust", "DataCenter")
      ∷ ("DataCenter", "Trust")
      ∷ ("DataCenter", "Untrust")
      ∷ [];
  block_icmp =
      ("Untrust", "DeptA")
      ∷ ("Untrust", "DeptB")
      ∷ ("Untrust", "DataCenter")
      ∷ ("Trust", "DeptB")
      ∷ ("DeptA", "DeptB")
      ∷ ("DeptB", "DeptA")
      ∷ [];
}

-- The document loads, and gives these tables.
pub load_policy-document : load_policy (some document) ≡ ok policy
unfolding load_policy load_zones load_zone load_rules load_rule check_apart add_pairs add_targets
    add_pair add_block known_zones ip_address ip_network lower mac_matches in_subnet num_addresses
    overlaps broadcast_address insert lookup contains string_eq nat_eq pair_eq
load_policy-document = refl
