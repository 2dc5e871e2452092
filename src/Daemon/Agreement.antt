-- ===== src/Daemon/Agreement.antt =====
-- cpp/firewall_daemon.cpp decides as firewall_rules.py does, when it is compiled with the header that
-- tools/gen_policy_header.py makes of the same policy.
use mininet_zone_segmentatio.Base.{
  ℕ, ◌^◌, ◌<◌, String, ◌≡◌, refl, ◌∙◌, ap, Bool, true, Option, none, some, List, [], ◌∷◌, arith,
  ◌==◌, nat_eq, string_eq, pair_eq, pair-==, contains, length, if◌then◌else◌, Option-cases, inl,
  inr, keys, lookup, has_key, NodupKeys, ok,
}
use mininet_zone_segmentatio.Address.{Subnet, num_addresses, in_subnet}
use mininet_zone_segmentatio.Address.Overlap.{IsAligned}
use mininet_zone_segmentatio.Policy.{
  Zone, Zones, Pairs, Policy, zone_for_ip, firewall_allowed, is_known, is_blocked,
}
use mininet_zone_segmentatio.Policy.Load.{RawPolicy, load_policy}
use mininet_zone_segmentatio.Policy.Validity.{IsSound, IsWellFormed, load_policy-IsValid}
use mininet_zone_segmentatio.Policy.Decisions.{zone_for_ip_iff}
use mininet_zone_segmentatio.Header.{
  SubnetZone, PairTable, Header, declaration, pairs, sort_rows, without_keys, zone_rows, header_of,
  render,
}
use mininet_zone_segmentatio.Header.Rows.{contains-sort_rows}
use mininet_zone_segmentatio.Daemon.{contains_pair, masked, classify_zone, decide, decide_known}

contains_pair-length :
    (table : Pairs) (s d : String) → contains_pair table (length table) s d ≡ contains table (s, d)
unfolding contains_pair contains
contains_pair-length [] s d = refl
contains_pair-length ((x, y) ∷ table) s d =
    ground (arith, contains_pair-length table s d, pair-== s d x y)

contains_pair-declaration :
    (order : List String) (rows : Pairs) (s d : String)
    → contains_pair (declaration order rows).array (declaration order rows).count s d
      ≡ contains rows (s, d)
unfolding declaration contains_pair contains
contains_pair-declaration [] [] s d = refl
contains_pair-declaration (first ∷ order) [] s d = refl
contains_pair-declaration [] (p ∷ rows) s d = contains_pair-length (p ∷ rows) s d
contains_pair-declaration (first ∷ order) (p ∷ rows) s d = contains_pair-length (p ∷ rows) s d

-- A table of the header holds the pairs of the set, and no more.
contains_pair-pairs :
    (order : List String) (table : Pairs) (t : PairTable) (s d : String)
    → pairs order table ≡ some t
    → contains_pair t.array t.count s d ≡ contains table (s, d)
unfolding pairs without_keys contains
contains_pair-pairs order table t s d h = elim (Option-cases (sort_rows order table [])) [
  | inl e ↦ ground arith
  | inr (rows, e) ↦
      let made : declaration order (without_keys rows) ≡ t = ground arith in
      rw (← made) (
        contains_pair-declaration order (without_keys rows) s d
        ∙ contains-sort_rows order table [] rows (s, d) e
        ∙ ground arith)
]

-- For an aligned subnet, the daemon's mask is the test of `ipaddress`.
masked-in_subnet :
    (s : Subnet) (ip : ℕ)
    → IsAligned s
    → s.network_address < 2 ^ 32
    → ip < 2 ^ 32
    → (masked ip s.prefixlen == masked s.network_address s.prefixlen) ≡ in_subnet ip s
unfolding masked in_subnet num_addresses
masked-in_subnet s ip h small lt = ground (arith, h)

classify_zone-zone_for_ip :
    (zones : Zones) (ip : ℕ)
    → NodupKeys zones
    → ((n : String) (z : Zone) → lookup n zones ≡ some z → IsSound z)
    → ip < 2 ^ 32
    → classify_zone (zone_rows zones) ip ≡ zone_for_ip zones ip
unfolding classify_zone zone_rows zone_for_ip lookup
classify_zone-zone_for_ip [] ip u sound lt = refl
classify_zone-zone_for_ip ((n, z) ∷ zones) ip (fresh, u) sound lt =
    let this = sound n z (ground arith) in
    let rest = classify_zone-zone_for_ip zones ip u (λ m w e. sound m w (ground arith)) lt in
    ground (arith, masked-in_subnet z.subnet ip this.aligned this.small lt, rest)

-- What the header has of each part of the policy.
record Parts (zones : Zones) (all icmp : Pairs) (h : Header) : Type 0 where
  rows : h.zones ≡ zone_rows zones
  all_rows : pairs (keys zones) all ≡ some h.block_all_ip
  icmp_rows : pairs (keys zones) icmp ≡ some h.block_icmp

header_of-Parts :
    (zones : Zones) (all icmp : Pairs) (a b : Option PairTable) (h : Header)
    → pairs (keys zones) all ≡ a
    → pairs (keys zones) icmp ≡ b
    → header_of zones a b ≡ some h
    → Parts zones all icmp h
unfolding header_of
header_of-Parts zones all icmp none b h p q e = cc
header_of-Parts zones all icmp (some a) none h p q e = cc
header_of-Parts zones all icmp (some a) (some b) h p q e = record {
  rows = ground arith;
  all_rows = ground arith;
  icmp_rows = ground arith;
}

render-Parts :
    (zones : Zones) (all icmp : Pairs) (h : Header)
    → render zones all icmp ≡ some h
    → Parts zones all icmp h
unfolding render
render-Parts zones all icmp h e = header_of-Parts zones all icmp _ _ h refl refl (ground arith)

decide-verdict :
    (p : Policy) (h : Header) (src dst : Option String) (is_icmp : Bool)
    → Parts p.zones p.block_all_ip p.block_icmp h
    → ((n : String) → src ≡ some n → has_key n p.zones ≡ true)
    → ((n : String) → dst ≡ some n → has_key n p.zones ≡ true)
    → (decide h src dst is_icmp).verdict ≡ (if firewall_allowed p src dst is_icmp then 1 else 0)
unfolding decide decide_known firewall_allowed is_known is_blocked
decide-verdict p h none dst is_icmp parts ks kd = refl
decide-verdict p h (some s) none is_icmp parts ks kd = ground arith
decide-verdict p h (some s) (some d) is_icmp parts ks kd = ground (
  arith,
  ks s refl,
  kd d refl,
  contains_pair-pairs (keys p.zones) p.block_all_ip h.block_all_ip s d parts.all_rows,
  contains_pair-pairs (keys p.zones) p.block_icmp h.block_icmp s d parts.icmp_rows,
)

zone_for_ip-has_key :
    (zones : Zones) (ip : ℕ) (n : String)
    → IsWellFormed zones
    → zone_for_ip zones ip ≡ some n
    → has_key n zones ≡ true
zone_for_ip-has_key zones ip n wf e =
    let h = (zone_for_ip_iff zones ip n wf).0 e in ground (arith, h.found)

-- A daemon that is compiled with the header generated from a loaded policy gives every two
-- addresses of 32 bits the verdict of `firewall_allowed` on the zones that `zone_for_ip` finds for
-- them: 1 where it allows the packet, and 0 where it does not.
pub decide-firewall_allowed :
    (raw : RawPolicy) (p : Policy) (h : Header) (src dst : ℕ) (is_icmp : Bool)
    → load_policy (some raw) ≡ ok p
    → render p.zones p.block_all_ip p.block_icmp ≡ some h
    → src < 2 ^ 32
    → dst < 2 ^ 32
    → (decide h (classify_zone h.zones src) (classify_zone h.zones dst) is_icmp).verdict ≡ (
        if firewall_allowed p (zone_for_ip p.zones src) (zone_for_ip p.zones dst) is_icmp
        then 1
        else 0)
decide-firewall_allowed raw p h src dst is_icmp loaded rendered ls ld =
    let wf = (load_policy-IsValid raw p loaded).well_formed in
    let parts = render-Parts p.zones p.block_all_ip p.block_icmp h rendered in
    let classify = λ (ip : ℕ) (lt : ip < 2 ^ 32).
      ap (λ (rows : List SubnetZone). classify_zone rows ip) parts.rows
      ∙ classify_zone-zone_for_ip p.zones ip wf.nodup wf.sound lt in
    rw (classify src ls, classify dst ld)
      (decide-verdict p h (zone_for_ip p.zones src) (zone_for_ip p.zones dst) is_icmp parts
        (λ n. zone_for_ip-has_key p.zones src n wf) (λ n. zone_for_ip-has_key p.zones dst n wf))
