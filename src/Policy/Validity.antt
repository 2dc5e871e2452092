-- ===== src/Policy/Validity.antt =====
-- What `load_policy` of firewall_rules.py guarantees of a policy that it returns.
use mininet_zone_segmentatio.Base.{
  ◌<◌, ◌^◌, String, ◌≡◌, ◌≢◌, true, false, Option, none, some, [], ◌∷◌, arith, Dict, lookup,
  has_key, insert, NodupKeys, lookup-nil, lookup-insert, insert-NodupKeys, string_eq, ok, >>=-eq-ok,
  sym, ap, ◌∙◌, raise_if, contains, pair_eq,
}
use mininet_zone_segmentatio.Text.{mac_matches}
use mininet_zone_segmentatio.Address.{Subnet, in_subnet, overlaps}
use mininet_zone_segmentatio.Address.Parse.{ip_network, ip_network-lt}
use mininet_zone_segmentatio.Address.Overlap.{IsAligned, ip_network-IsAligned}
use mininet_zone_segmentatio.Policy.{Zone, Zones, Policy}
use mininet_zone_segmentatio.Policy.Blocks.{load_policy-blocks}
use mininet_zone_segmentatio.Policy.Known.{load_rules-known}
use mininet_zone_segmentatio.Policy.Load.{
  RawZone, RawPolicy, parse_key, check_apart, load_zone, load_zones, load_policy, is_empty,
  no_zones, load_rules, Blocks,
}

pub record IsSound (z : Zone) : Type 0 where
  pub aligned : IsAligned z.subnet
  pub small : z.subnet.network_address < 2 ^ 32
  pub gateway_inside : in_subnet z.gateway z.subnet ≡ true
  pub mac_shape : mac_matches z.gateway_mac ≡ true

pub record IsApart (y z : Zone) : Type 0 where
  pub subnets : overlaps y.subnet z.subnet ≡ false
  pub macs : y.gateway_mac ≢ z.gateway_mac

-- Each zone is sound by itself, and no two share an address or a gateway MAC.
pub record IsWellFormed (zones : Zones) : Type 0 where
  pub sound : (n : String) (z : Zone) → lookup n zones ≡ some z → IsSound z
  pub apart :
      (m n : String) (y z : Zone)
      → lookup m zones ≡ some y
      → lookup n zones ≡ some z
      → m ≢ n
      → IsApart y z
  pub nodup : NodupKeys zones

check_apart-IsApart :
    (zones : Zones) (name n : String) (z w : Zone)
    → check_apart zones name z.subnet z.gateway_mac ≡ ok tt
    → lookup n zones ≡ some w
    → IsApart z w
unfolding check_apart lookup
check_apart-IsApart [] name n z w h e = cc
check_apart-IsApart ((other, oz) ∷ zones) name n z w h e =
    ground (arith, check_apart-IsApart zones name n z w)

parse_key-IsAligned :
    (text : Option String) {s : Subnet} → parse_key ip_network text ≡ some s → IsAligned s
unfolding parse_key
parse_key-IsAligned none h = cc
parse_key-IsAligned (some text) h = ip_network-IsAligned text h

parse_key-lt :
    (text : Option String) {s : Subnet}
    → parse_key ip_network text ≡ some s
    → s.network_address < 2 ^ 32
unfolding parse_key
parse_key-lt none h = cc
parse_key-lt (some text) h = ip_network-lt text h

load_zone-IsSound :
    (zones : Zones) (name : String) (r : RawZone) (z : Zone)
    → load_zone zones name r ≡ ok z
    → IsSound z
unfolding load_zone
load_zone-IsSound zones name r z h = record {
  aligned = parse_key-IsAligned r.subnet (ground arith);
  small = parse_key-lt r.subnet {s = z.subnet} (ground arith);
  gateway_inside = ground arith;
  mac_shape = ground arith;
}

load_zone-IsApart :
    (zones : Zones) (name : String) (r : RawZone) (z : Zone)
    → load_zone zones name r ≡ ok z
    → (n : String) (w : Zone) → lookup n zones ≡ some w
    → IsApart z w
unfolding load_zone
load_zone-IsApart zones name r z h n w e = check_apart-IsApart zones name n z w (ground arith) e

overlaps_comm : (s t : Subnet) → overlaps s t ≡ false → overlaps t s ≡ false
unfolding overlaps
overlaps_comm s t h = ground arith

IsApart-sym : {y z : Zone} → IsApart y z → IsApart z y
IsApart-sym {y} {z} a = record {
  subnets = overlaps_comm y.subnet z.subnet a.subnets;
  macs = λ e. a.macs (sym e);
}

insert-IsWellFormed :
    (zones : Zones) (name : String) (z : Zone)
    → IsWellFormed zones
    → IsSound z
    → ((n : String) (w : Zone) → lookup n zones ≡ some w → IsApart z w)
    → IsWellFormed (insert name z zones)
insert-IsWellFormed zones name z wf s a = record {
  sound = λ n w e. ground (arith, lookup-insert n name z zones, wf.sound n w, s);
  apart = λ m n y w p q ne. ground (
    arith,
    lookup-insert m name z zones,
    lookup-insert n name z zones,
    wf.apart m n y w,
    a m y,
    a n w,
    overlaps_comm z.subnet y.subnet,
  );
  nodup = insert-NodupKeys name z zones wf.nodup;
}

load_zones-IsWellFormed :
    (zones : Zones) (raw : Dict String RawZone) (loaded : Zones)
    → IsWellFormed zones
    → load_zones zones raw ≡ ok loaded
    → IsWellFormed loaded
unfolding load_zones
load_zones-IsWellFormed zones [] loaded wf h = let e : zones ≡ loaded = cc in rw (← e) wf
load_zones-IsWellFormed zones ((name, r) ∷ raw) loaded wf h =
    let (z, e, rest) =
      >>=-eq-ok (load_zone zones name r) (λ z. load_zones (insert name z zones) raw) h in
    load_zones-IsWellFormed (insert name z zones) raw loaded
      (insert-IsWellFormed zones name z wf (load_zone-IsSound zones name r z e)
        (load_zone-IsApart zones name r z e))
      rest

not_empty : (zones : Zones) → raise_if (is_empty zones) no_zones ≡ ok tt → zones ≢ []
unfolding is_empty
not_empty [] h = λ _. cc
not_empty (z ∷ zones) h = λ e. cc

IsWellFormed-nil : IsWellFormed []
IsWellFormed-nil = record {
  sound = λ n z e. cc (lookup-nil {V = Zone} n);
  apart = λ m n y z p q ne. cc (lookup-nil {V = Zone} m);
  nodup = tt;
}

-- What holds of every policy that the program runs with.
pub record IsValid (p : Policy) : Type 0 where
  pub well_formed : IsWellFormed p.zones
  pub inhabited : p.zones ≢ []
  pub known_all :
      (s d : String)
      → contains p.block_all_ip (s, d) ≡ true
      → (has_key s p.zones ≡ true) × (has_key d p.zones ≡ true)
  pub known_icmp :
      (s d : String)
      → contains p.block_icmp (s, d) ≡ true
      → (has_key s p.zones ≡ true) × (has_key d p.zones ≡ true)

-- Every policy that `load_policy` returns has at least one zone; its subnets are
-- aligned, of 32 bits and disjoint, each gateway lies in its own subnet, the gateway MACs are well formed and distinct, and
-- its block sets name known zones only.
pub load_policy-IsValid : (raw : RawPolicy) (p : Policy) → load_policy (some raw) ≡ ok p → IsValid p
unfolding load_policy
load_policy-IsValid raw p h =
    let (zones, ze, h1) = >>=-eq-ok (load_zones [] raw.zones) _ h in
    let (_, he, h2) = >>=-eq-ok (raise_if (is_empty zones) no_zones) _ h1 in
    let start : Blocks = record { all = []; icmp = [] } in
    let (blocks, be, h3) = >>=-eq-ok (load_rules zones 0 raw.rules start) _ h2 in
    let e : record { zones = zones; block_all_ip = blocks.all; block_icmp = blocks.icmp } ≡ p =
      cc h3 in
    let added = load_policy-blocks raw p in
    let known = load_rules-known zones 0 raw.rules start blocks be in
    let z : p.zones ≡ zones = ap (λ (q : Policy). q.zones) (sym e) in
    record {
      well_formed = rw z (load_zones-IsWellFormed [] raw.zones zones IsWellFormed-nil ze);
      inhabited = rw z (not_empty zones he);
      known_all = λ s d c. rw z (known "all" s d (sym (added s d h).0 ∙ c));
      known_icmp = λ s d c. rw z (known "icmp" s d (sym (added s d h).1 ∙ c));
    }
