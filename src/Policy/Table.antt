-- ===== src/Policy/Table.antt =====
-- The policy table of controller.py's header and of the README, rule by rule, against policy.json.
use mininet_zone_segmentatio.Base.{
  String, ◌≡◌, refl, Bool, true, false, some, lookup, contains, string_eq, pair_eq,
}
use mininet_zone_segmentatio.Policy.{firewall_allowed, is_known, is_blocked}
use mininet_zone_segmentatio.Policy.Shipped.{policy}

pub data ZoneName : Type 0 where
  dept_a dept_b data_center trust untrust : ZoneName

abbrev pub name : ZoneName → String
name dept_a = "DeptA"
name dept_b = "DeptB"
name data_center = "DataCenter"
name trust = "Trust"
name untrust = "Untrust"

-- Rule 1, rule 2 (rule 1 covers its case of the data center), 3, 4, 6 (both directions), 7 (both
-- zones); rules 5 and 9 are the last line.
unfoldable pub table : ZoneName → ZoneName → Bool → Bool
table untrust data_center is_icmp = false
table untrust dept_a true = false
table untrust dept_b true = false
table trust data_center is_icmp = false
table trust dept_b true = false
table dept_a dept_b true = false
table dept_b dept_a true = false
table data_center trust is_icmp = false
table data_center untrust is_icmp = false
table _ _ _ = true

-- For every two zones and both kinds of packet, the decision under the shipped policy is the one
-- that the documented table of rules states.
pub firewall_allowed-table :
    (src dst : ZoneName) (is_icmp : Bool)
    → firewall_allowed policy (some (name src)) (some (name dst)) is_icmp ≡ table src dst is_icmp
unfolding firewall_allowed is_known is_blocked lookup contains string_eq pair_eq table
firewall_allowed-table dept_a dept_a true = refl
firewall_allowed-table dept_a dept_a false = refl
firewall_allowed-table dept_b dept_a true = refl
firewall_allowed-table dept_b dept_a false = refl
firewall_allowed-table data_center dept_a true = refl
firewall_allowed-table data_center dept_a false = refl
firewall_allowed-table trust dept_a true = refl
firewall_allowed-table trust dept_a false = refl
firewall_allowed-table untrust dept_a true = refl
firewall_allowed-table untrust dept_a false = refl
firewall_allowed-table _ _ true = refl
firewall_allowed-table _ _ false = refl
