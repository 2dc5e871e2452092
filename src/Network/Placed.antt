-- ===== src/Network/Placed.antt =====
-- network.py: `_load_hosts` puts every host into the zone of its address.
use mininet_zone_segmentatio.Base.{
  ℕ, String, ◌≡◌, true, false, not, ◌&&◌, Option, none, some, List, [], ◌∷◌, ◌++◌, arith, ◌==◌,
  nat_eq, string_eq, pair_eq, contains, Dict, lookup, insert, inl, inr, Option-cases, ok, raise_if,
  >>=-eq-ok,
}
use mathlib.Core.Path.{subst}
use mininet_zone_segmentatio.Policy.{Zone, Zones, zone_for_ip, source_ip_valid_for_zone}
use mininet_zone_segmentatio.Network.{Switch, Host, Network}
use mininet_zone_segmentatio.Network.Load.{
  RawHost, RawNetwork, LoadError, network_error, bad_ip, ip_outside_zones, key_error, ip_reserved,
  ip_used, wrong_switch, or_raise, load_switches, load_uplinks,
}
use mininet_zone_segmentatio.Network.Hosts.{
  parse_ip, differs, attached, is_reserved, load_host, load_hosts, load_network, check_ports_unique,
}
use mininet_zone_segmentatio.Network.Unique.{In}
use mininet_zone_segmentatio.Network.Switches.{In-insert}

-- A host stands in the zone of its address, at a switch of that zone or at the core, and its address
-- is not one that the zone reserves.
pub record IsPlaced (installed zones : Zones) (switches : Dict String Switch) (core : String)
    (h : Host) : Type 0 where
  pub home : Zone
  pub of_ip : zone_for_ip installed h.ip ≡ some h.zone
  pub known : lookup h.zone zones ≡ some home
  pub free : is_reserved h.ip home ≡ false
  pub switch : Switch
  pub plugged : lookup h.switch switches ≡ some switch
  pub same_zone : (h.switch == core) ≡ false → switch.zone ≡ some h.zone

attached-found :
    (switches : Dict String Switch) (name : String) (switch : Option String) {n : String}
    {s : Switch}
    → attached switches name switch ≡ ok (n, s)
    → lookup n switches ≡ some s
unfolding attached or_raise
attached-found switches name none h = cc h
attached-found switches name (some m) {n} {s} h = elim (Option-cases (lookup m switches)) [
  | inl e ↦ absurd (ground arith)
  | inr (t, e) ↦ ground arith
]

differs-same : (zone : Option String) (z : String) → differs zone z ≡ false → zone ≡ some z
unfolding differs
differs-same none z h = cc h
differs-same (some y) z h = ground arith

or_raise-some :
    {A : Type 0} (o : Option A) (e : LoadError) {a : A} → or_raise o e ≡ ok a → o ≡ some a
unfolding or_raise
or_raise-some none e h = cc h
or_raise-some (some b) e h = cc h

load_host-IsPlaced :
    (installed zones : Zones) (switches : Dict String Switch) (core name : String) (r : RawHost)
    (ips : List ℕ) (host : Host)
    → load_host installed zones switches core name r ips ≡ ok host
    → IsPlaced installed zones switches core host
unfolding load_host
load_host-IsPlaced installed zones switches core name r ips host h =
    let (ip, ie, h1) = >>=-eq-ok (or_raise (parse_ip r.ip) (network_error (bad_ip name))) _ h in
    let (zone, ze, h2) =
      >>=-eq-ok (or_raise (zone_for_ip installed ip) (network_error (ip_outside_zones name))) _
        h1 in
    let (z, ke, h3) = >>=-eq-ok (or_raise (lookup zone zones) key_error) _ h2 in
    let (_, re, h4) =
      >>=-eq-ok (raise_if (is_reserved ip z) (network_error (ip_reserved name))) _ h3 in
    let (_, ue, h5) = >>=-eq-ok (raise_if (contains ips ip) (network_error (ip_used name))) _ h4 in
    let ((switch, s), ae, h6) = >>=-eq-ok (attached switches name r.switch) _ h5 in
    let (_, we, h7) =
      >>=-eq-ok
        (raise_if (not (switch == core) && differs s.zone zone) (network_error (wrong_switch name)))
        _ h6 in
    let made : Host = record {
      ip = ip;
      prefix_len = z.subnet.prefixlen;
      zone = zone;
      switch = switch;
      port = r.port;
    } in
    let e : made ≡ host = cc h7 in
    rw (← e) (record {
      home = z;
      of_ip = or_raise-some (zone_for_ip installed ip) (network_error (ip_outside_zones name)) ze;
      known = or_raise-some (lookup zone zones) key_error ke;
      free = ground (arith, re);
      switch = s;
      plugged = attached-found switches name r.switch ae;
      same_zone = λ leaf. differs-same s.zone zone (ground (arith, we, leaf));
    })

load_hosts-IsPlaced :
    (installed zones : Zones) (switches : Dict String Switch) (core : String)
    (raw : Dict String RawHost) (ips : List ℕ) (hosts loaded : Dict String Host)
    → ((n : String) (h : Host) → In (n, h) hosts → IsPlaced installed zones switches core h)
    → load_hosts installed zones switches core raw ips hosts ≡ ok loaded
    → (n : String) (h : Host) → In (n, h) loaded
    → IsPlaced installed zones switches core h
unfolding load_hosts
load_hosts-IsPlaced installed zones switches core [] ips hosts loaded fine h =
    let e : hosts ≡ loaded = cc h in rw (← e) fine
load_hosts-IsPlaced installed zones switches core ((name, r) ∷ raw) ips hosts loaded fine h =
    let (new, ne, rest) =
      >>=-eq-ok (load_host installed zones switches core name r ips)
        (λ l.
          load_hosts installed zones switches core raw (ips ++ (l.ip ∷ [])) (insert name l hosts))
        h in
    load_hosts-IsPlaced installed zones switches core raw (ips ++ (new.ip ∷ []))
      (insert name new hosts) loaded
      (λ n host here. elim (In-insert name n new host hosts here) [
        | inl (_, e) ↦ rw e (load_host-IsPlaced installed zones switches core name r ips new ne)
        | inr old ↦ fine n host old
      ])
      rest

abbrev AllPlaced : Zones → Zones → Network → Type 0
AllPlaced installed zones net =
    (name : String) (h : Host)
    → In (name, h) net.hosts
    → IsPlaced installed zones net.switches net.core h

load_network-AllPlaced :
    (installed zones : Zones) (raw : RawNetwork) (net : Network)
    → load_network installed zones (some raw) ≡ ok net
    → AllPlaced installed zones net
unfolding load_network
load_network-AllPlaced installed zones raw net h =
    let ((core, switches), se, h1) = >>=-eq-ok (load_switches zones raw.switches) _ h in
    let (uplinks, ue, h2) = >>=-eq-ok (load_uplinks raw.uplinks switches core) _ h1 in
    let (hosts, he, h3) =
      >>=-eq-ok (load_hosts installed zones switches core raw.hosts [] []) _ h2 in
    let (_, pe, h4) = >>=-eq-ok (check_ports_unique core uplinks hosts) _ h3 in
    let made : Network = record {
      core = core;
      switches = switches;
      uplinks = uplinks;
      hosts = hosts;
    } in
    let e : made ≡ net = cc h4 in
    let all : AllPlaced installed zones made =
      load_hosts-IsPlaced installed zones switches core raw.hosts [] [] hosts
        (λ n h here. elim here [ ]) he in
    subst (λ n. AllPlaced installed zones n) e all

-- Every host of a layout that `load_network` accepts stands in the zone that `zone_for_ip` finds for its
-- address, on a leaf of that zone or on the core, with an address that is not reserved.
pub load_network-IsPlaced :
    (installed zones : Zones) (raw : RawNetwork) (net : Network) (name : String) (h : Host)
    → load_network installed zones (some raw) ≡ ok net
    → In (name, h) net.hosts
    → IsPlaced installed zones net.switches net.core h
load_network-IsPlaced installed zones raw net name h loaded here =
    load_network-AllPlaced installed zones raw net loaded name h here

-- Every host of a layout that is accepted with the zones of the policy passes the anti-spoofing test
-- of its own zone with its own address.
pub load_network-source_ip_valid :
    (zones : Zones) (raw : RawNetwork) (net : Network) (name : String) (h : Host)
    → load_network zones zones (some raw) ≡ ok net
    → In (name, h) net.hosts
    → source_ip_valid_for_zone zones h.ip (some h.zone) ≡ true
unfolding source_ip_valid_for_zone is_reserved
load_network-source_ip_valid zones raw net name h loaded here =
    let p = load_network-IsPlaced zones zones raw net name h loaded here in
    ground (arith, p.of_ip, p.known, p.free)
