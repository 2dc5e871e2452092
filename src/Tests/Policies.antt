-- ===== src/Tests/Policies.antt =====
-- The theorems on firewall_rules.py, at policy.json.
use mininet_zone_segmentatio.Base.{
  ◌≡◌, ◌≢◌, ◌↔◌, true, not, ◌&&◌, some, keys, any, contains, string_eq, nat_eq, pair_eq,
}
use mininet_zone_segmentatio.Policy.{zone_for_ip, source_ip_valid_for_zone, firewall_allowed}
use mininet_zone_segmentatio.Policy.Shipped.{document, policy, zones, load_policy-document}
use mininet_zone_segmentatio.Policy.Blocks.{rule_blocks, load_policy-blocks}
use mininet_zone_segmentatio.Policy.Validity.{IsValid, IsWellFormed, load_policy-IsValid}
use mininet_zone_segmentatio.Policy.Decisions.{
  Holds, rule_denies, zone_for_ip_iff, source_ip_valid_iff, firewall_allowed-document,
}
use mininet_zone_segmentatio.Policy.Table.{untrust, dept_a, name, table, firewall_allowed-table}

load_policy-IsValid_example : IsValid policy
load_policy-IsValid_example = load_policy-IsValid document policy load_policy-document

load_policy-blocks_example :
    (contains policy.block_all_ip ("Trust", "DataCenter")
      ≡ any (rule_blocks "all" "Trust" "DataCenter") document.rules)
    × (contains policy.block_icmp ("Trust", "DataCenter")
        ≡ any (rule_blocks "icmp" "Trust" "DataCenter") document.rules)
load_policy-blocks_example =
    load_policy-blocks document policy "Trust" "DataCenter" load_policy-document

firewall_allowed-document_example : firewall_allowed policy (some "DeptA") (some "DeptB") true ≡ (
    contains (keys document.zones) "DeptA"
    && (contains (keys document.zones) "DeptB"
        && not (any (rule_denies "DeptA" "DeptB" true) document.rules)))
firewall_allowed-document_example =
    firewall_allowed-document document policy "DeptA" "DeptB" true load_policy-document

firewall_allowed-table_example :
    firewall_allowed policy (some (name untrust)) (some (name dept_a)) true
    ≡ table untrust dept_a true
firewall_allowed-table_example = firewall_allowed-table untrust dept_a true

zones-IsWellFormed : IsWellFormed zones
zones-IsWellFormed = (load_policy-IsValid document policy load_policy-document).well_formed

-- 10.1.3.178 is the server of the data center.
zone_for_ip_iff_example :
    (zone_for_ip zones 167838642 ≡ some "DataCenter") ↔ Holds zones 167838642 "DataCenter"
zone_for_ip_iff_example = zone_for_ip_iff zones 167838642 "DataCenter" zones-IsWellFormed

source_ip_valid_iff_example :
    (source_ip_valid_for_zone zones 167838642 (some "DataCenter") ≡ true)
    ↔ ((h : Holds zones 167838642 "DataCenter") × (167838642 ≢ h.zone.gateway))
source_ip_valid_iff_example = source_ip_valid_iff zones 167838642 "DataCenter" zones-IsWellFormed
