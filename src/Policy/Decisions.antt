-- ===== src/Policy/Decisions.antt =====
-- The decisions of firewall_rules.py, against what they are meant to decide.
use mininet_zone_segmentatio.Base.{
  ℕ, String, ◌≡◌, ◌≢◌, ◌↔◌, Bool, true, not, ◌&&◌, ◌||◌, none, some, List, [], ◌∷◌, arith, inl, inr,
  Bool-cases, Option-cases, Dict, keys, lookup, has_key, insert, NodupKeys, lookup-insert, nat_eq,
  string_eq, pair_eq, contains, any, ok, raise_if, lookup-nil, >>=-eq-ok,
}
use mininet_zone_segmentatio.Address.{in_subnet}
use mininet_zone_segmentatio.Address.Overlap.{overlaps-disjoint}
use mininet_zone_segmentatio.Policy.{
  Zone, Zones, Policy, zone_for_ip, source_ip_valid_for_zone, firewall_allowed, is_known,
  is_blocked,
}
use mininet_zone_segmentatio.Policy.Load.{
  RawZone, RawRule, RawPolicy, load_zone, load_zones, load_policy, load_rules, is_empty, no_zones,
}
use mininet_zone_segmentatio.Policy.Blocks.{rule_blocks, load_policy-blocks}
use mininet_zone_segmentatio.Policy.Validity.{IsWellFormed}

-- The named zone has the address in its subnet.
pub record Holds (zones : Zones) (addr : ℕ) (name : String) : Type 0 where
  pub zone : Zone
  pub found : lookup name zones ≡ some zone
  pub inside : in_subnet addr zone.subnet ≡ true

zone_for_ip-Holds :
    (zones : Zones) (addr : ℕ) (n : String)
    → NodupKeys zones
    → zone_for_ip zones addr ≡ some n
    → Holds zones addr n
unfolding zone_for_ip lookup
zone_for_ip-Holds [] addr n u h = cc
zone_for_ip-Holds ((k, z) ∷ zones) addr n (fresh, u) h =
    elim (Bool-cases (in_subnet addr z.subnet)) [
      | inl i ↦ record { zone = z; found = ground arith; inside = i }
      | inr i ↦
          let later = zone_for_ip-Holds zones addr n u (ground arith) in
          record { zone = later.zone; found = ground (arith, later.found); inside = later.inside }
    ]

zone_for_ip-some :
    (zones : Zones) (addr : ℕ) (n : String) (z : Zone)
    → lookup n zones ≡ some z
    → in_subnet addr z.subnet ≡ true
    → zone_for_ip zones addr ≢ none
unfolding zone_for_ip lookup
zone_for_ip-some [] addr n z h i = cc
zone_for_ip-some ((k, y) ∷ zones) addr n z h i = ground (arith, zone_for_ip-some zones addr n z)

-- Under well-formed zones, two zones that hold one address are the same.
same_zone :
    (zones : Zones) (addr : ℕ) (m n : String)
    → IsWellFormed zones
    → Holds zones addr m
    → Holds zones addr n
    → m ≡ n
same_zone zones addr m n wf hm hn = elim (string_eq.dec m n) [
  | yes e ↦ e
  | no ne ↦ cc (
    overlaps-disjoint hm.zone.subnet hn.zone.subnet addr (wf.sound m hm.zone hm.found).aligned
        (wf.sound n hn.zone hn.found).aligned
        (wf.apart m n hm.zone hn.zone hm.found hn.found ne).subnets hm.inside,
    hn.inside,
  )
]

-- Where the zones are well formed, `zone_for_ip` returns a zone exactly when that zone has the
-- address in its subnet: the order of the zones does not matter.
pub zone_for_ip_iff :
    (zones : Zones) (addr : ℕ) (n : String)
    → IsWellFormed zones
    → (zone_for_ip zones addr ≡ some n) ↔ Holds zones addr n
zone_for_ip_iff zones addr n wf = (zone_for_ip-Holds zones addr n wf.nodup, backward)
  where
    backward : Holds zones addr n → zone_for_ip zones addr ≡ some n
    backward h = elim (Option-cases (zone_for_ip zones addr)) [
      | inl e ↦ absurd (zone_for_ip-some zones addr n h.zone h.found h.inside e)
      | inr (m, e) ↦
          cc (e, same_zone zones addr m n wf (zone_for_ip-Holds zones addr m wf.nodup e) h)
    ]

-- Where the zones are well formed, a source address passes the anti-spoofing test of an ingress zone
-- exactly when it lies in that zone's subnet and is not that zone's gateway.
pub source_ip_valid_iff :
    (zones : Zones) (src : ℕ) (n : String)
    → IsWellFormed zones
    → (source_ip_valid_for_zone zones src (some n) ≡ true)
      ↔ ((h : Holds zones src n) × (src ≢ h.zone.gateway))
unfolding source_ip_valid_for_zone
source_ip_valid_iff zones src n wf = (forward, backward)
  where
    forward :
        source_ip_valid_for_zone zones src (some n) ≡ true
        → (h : Holds zones src n) × (src ≢ h.zone.gateway)
    forward v =
        let h = (zone_for_ip_iff zones src n wf).0 (ground arith) in (h, ground (arith, h.found))

    backward :
        (h : Holds zones src n) × (src ≢ h.zone.gateway)
        → source_ip_valid_for_zone zones src (some n) ≡ true
    backward (h, ne) = ground (arith, (zone_for_ip_iff zones src n wf).1 h, h.found)

load_zones-keys :
    (zones : Zones) (raw : Dict String RawZone) (loaded : Zones) (n : String)
    → load_zones zones raw ≡ ok loaded
    → has_key n loaded ≡ (has_key n zones || contains (keys raw) n)
unfolding load_zones contains keys
load_zones-keys zones [] loaded n h = ground arith
load_zones-keys zones ((name, r) ∷ raw) loaded n h =
    let (z, e, rest) =
      >>=-eq-ok (load_zone zones name r) (λ z. load_zones (insert name z zones) raw) h in
    ground
      (arith, load_zones-keys (insert name z zones) raw loaded n rest, lookup-insert n name z zones)

-- One rule of the document blocks the pair, for a packet that is ICMP or not.
unfoldable pub rule_denies : String → String → Bool → RawRule → Bool
rule_denies src dst is_icmp r =
    rule_blocks "all" src dst r || (is_icmp && rule_blocks "icmp" src dst r)

any-rule_denies :
    (src dst : String) (is_icmp : Bool) (rules : List RawRule)
    → any (rule_denies src dst is_icmp) rules ≡ (
        any (rule_blocks "all" src dst) rules
        || (is_icmp && any (rule_blocks "icmp" src dst) rules))
unfolding any rule_denies
any-rule_denies src dst is_icmp [] = ground arith
any-rule_denies src dst is_icmp (r ∷ rules) = ground (arith, any-rule_denies src dst is_icmp rules)

known-keys :
    (raw : RawPolicy) (p : Policy) (n : String)
    → load_policy (some raw) ≡ ok p
    → has_key n p.zones ≡ contains (keys raw.zones) n
unfolding load_policy
known-keys raw p n h =
    let (zones, ze, h1) = >>=-eq-ok (load_zones [] raw.zones) _ h in
    let (_, he, h2) = >>=-eq-ok (raise_if (is_empty zones) no_zones) _ h1 in
    let (blocks, be, h3) =
      >>=-eq-ok (load_rules zones 0 raw.rules (record { all = []; icmp = [] })) _ h2 in
    let e : record { zones = zones; block_all_ip = blocks.all; block_icmp = blocks.icmp } ≡ p =
      cc h3 in
    rw (← e) (ground (arith, load_zones-keys [] raw.zones zones n ze, lookup-nil {V = Zone} n))

-- With a loaded policy, traffic between two named zones is allowed exactly when the document
-- defines both zones and none of its rules blocks the pair for that kind of packet.
pub firewall_allowed-document :
    (raw : RawPolicy) (p : Policy) (src dst : String) (is_icmp : Bool)
    → load_policy (some raw) ≡ ok p
    → firewall_allowed p (some src) (some dst) is_icmp ≡ (
        contains (keys raw.zones) src
        && (contains (keys raw.zones) dst && not (any (rule_denies src dst is_icmp) raw.rules)))
unfolding firewall_allowed is_known is_blocked
firewall_allowed-document raw p src dst is_icmp h =
    let blocks = load_policy-blocks raw p src dst h in
    ground (
      arith,
      known-keys raw p src h,
      known-keys raw p dst h,
      any-rule_denies src dst is_icmp raw.rules,
      blocks.0,
      blocks.1,
    )
