-- ===== src/Network/Complete.antt =====
-- network.py: `port_maps` raises no KeyError on a layout that `load_network` has accepted.
use mininet_zone_segmentatio.Base.{
  ℕ, String, ◌≡◌, refl, Bool, true, false, Option, none, some, List, [], ◌∷◌, ◌++◌, arith, ◌==◌,
  nat_eq, string_eq, pair_eq, contains, Dict, lookup, has_key, insert, lookup-insert, if◌then◌else◌,
  inl, inr, Option-cases, Bool-cases, ok, raise_if, >>=-eq-ok,
}
use mininet_zone_segmentatio.Policy.{Zones}
use mininet_zone_segmentatio.Network.{
  Value, Switch, Uplink, Network, PortMaps, port_number, uplink_zones, uplink_ports, port_maps,
}
use mininet_zone_segmentatio.Network.Load.{
  RawSwitch, RawUplink, RawNetwork, positive, network_error, bad_dpid, or_raise, leaf_zone,
  SwitchLoop, load_switch, switch_loop, one_core, load_switches, add_uplink, uplink_loop,
  any_missing, load_uplinks, leaves_without_uplink,
}
use mininet_zone_segmentatio.Network.Hosts.{load_network, load_hosts, check_ports_unique}

-- Every name is a switch's.
abbrev Named : Dict String Switch → List String → Type 0
Named switches [] = Unit
Named switches (n ∷ names) = (has_key n switches ≡ true) × Named switches names

-- Every uplink is that of a switch.
abbrev Leaves : Dict String Switch → Dict String Uplink → Type 0
Leaves switches [] = Unit
Leaves switches ((n, _) ∷ uplinks) = (has_key n switches ≡ true) × Leaves switches uplinks

Named-insert :
    (k : String) (v : Switch) (switches : Dict String Switch) (names : List String)
    → Named switches names
    → Named (insert k v switches) names
Named-insert k v switches [] h = tt
Named-insert k v switches (n ∷ names) (here, h) =
    (ground (arith, lookup-insert n k v switches), Named-insert k v switches names h)

Named-append :
    (switches : Dict String Switch) (names : List String) (n : String)
    → Named switches names
    → has_key n switches ≡ true
    → Named switches (names ++ (n ∷ []))
Named-append switches [] n h k = (k, tt)
Named-append switches (m ∷ names) n (here, h) k = (here, Named-append switches names n h k)

Named-cores :
    (core : Bool) (name : String) (v : Switch) (switches : Dict String Switch) (cores : List String)
    → Named switches cores
    → Named (insert name v switches) (if core then cores ++ (name ∷ []) else cores)
Named-cores false name v switches cores h = Named-insert name v switches cores h
Named-cores true name v switches cores h =
    Named-append (insert name v switches) cores name (Named-insert name v switches cores h)
      (ground (arith, lookup-insert name name v switches))

load_switch-Named :
    (zones : Zones) (name : String) (s : RawSwitch) (l m : SwitchLoop)
    → Named l.switches l.cores
    → load_switch zones name s l ≡ ok m
    → Named m.switches m.cores
unfolding load_switch
load_switch-Named zones name s l m fine h =
    let (dpid, de, h1) =
      >>=-eq-ok (or_raise (positive s.dpid) (network_error (bad_dpid name))) _ h in
    let (_, fe, h2) =
      >>=-eq-ok (raise_if (contains l.dpids dpid) (network_error (bad_dpid name))) _ h1 in
    let (zone, ze, h3) = >>=-eq-ok (if s.core then ok none else leaf_zone zones name s.zone) _ h2 in
    let v : Switch = record { dpid = dpid; zone = zone } in
    let made : SwitchLoop = record {
      switches = insert name v l.switches;
      cores = if s.core then l.cores ++ (name ∷ []) else l.cores;
      dpids = l.dpids ++ (dpid ∷ []);
    } in
    let e : made ≡ m = cc h3 in rw (← e) (Named-cores s.core name v l.switches l.cores fine)

switch_loop-Named :
    (zones : Zones) (raw : Dict String RawSwitch) (l m : SwitchLoop)
    → Named l.switches l.cores
    → switch_loop zones raw l ≡ ok m
    → Named m.switches m.cores
unfolding switch_loop
switch_loop-Named zones [] l m fine h = let e : l ≡ m = cc h in rw (← e) fine
switch_loop-Named zones ((name, s) ∷ raw) l m fine h =
    let (k, ke, rest) = >>=-eq-ok (load_switch zones name s l) (λ k. switch_loop zones raw k) h in
    switch_loop-Named zones raw k m (load_switch-Named zones name s l k fine ke) rest

one_core-Named :
    (switches : Dict String Switch) (cores : List String) (core : String)
    → Named switches cores
    → one_core cores ≡ ok core
    → has_key core switches ≡ true
unfolding one_core
one_core-Named switches [] core fine h = cc h
one_core-Named switches (c ∷ []) core fine h = let e : c ≡ core = cc h in rw (← e) fine.0
one_core-Named switches (c ∷ d ∷ cores) core fine h = cc h

load_switches-core :
    (zones : Zones) (raw : Dict String RawSwitch) (core : String) (switches : Dict String Switch)
    → load_switches zones raw ≡ ok (core, switches)
    → has_key core switches ≡ true
unfolding load_switches
load_switches-core zones raw core switches h =
    let start : SwitchLoop = record { switches = []; cores = []; dpids = [] } in
    let (l, le, h1) = >>=-eq-ok (switch_loop zones raw start) _ h in
    let (c, ce, h2) = >>=-eq-ok (one_core l.cores) _ h1 in
    let e : l.switches ≡ switches = ground arith in
    let d : c ≡ core = ground arith in
    let known =
      one_core-Named l.switches l.cores c (switch_loop-Named zones raw start l tt le) ce in
    ground (arith, known)

Leaves-insert :
    (switches : Dict String Switch) (k : String) (v : Uplink) (uplinks : Dict String Uplink)
    → has_key k switches ≡ true
    → Leaves switches uplinks
    → Leaves switches (insert k v uplinks)
unfolding insert
Leaves-insert switches k v [] h l = (h, tt)
Leaves-insert switches k v ((n, w) ∷ uplinks) h (here, l) = elim (Bool-cases (k == n)) [
  | inl e ↦ rw e (here, l)
  | inr e ↦ rw e (here, Leaves-insert switches k v uplinks h l)
]

add_uplink-Leaves :
    (switches : Dict String Switch) (core : String) (link : RawUplink) (leaf : Option String)
    (uplinks more : Dict String Uplink)
    → Leaves switches uplinks
    → add_uplink switches core link leaf uplinks ≡ ok more
    → Leaves switches more
unfolding add_uplink
add_uplink-Leaves switches core link none uplinks more l h = cc h
add_uplink-Leaves switches core link (some leaf) uplinks more l h =
    let up : Uplink = record { leaf_port = link.leaf_port; core_port = link.core_port } in
    let e : insert leaf up uplinks ≡ more = ground arith in
    rw (← e) (Leaves-insert switches leaf up uplinks (ground arith) l)

uplink_loop-Leaves :
    (switches : Dict String Switch) (core : String) (raw : List RawUplink)
    (uplinks more : Dict String Uplink)
    → Leaves switches uplinks
    → uplink_loop switches core raw uplinks ≡ ok more
    → Leaves switches more
unfolding uplink_loop
uplink_loop-Leaves switches core [] uplinks more l h = let e : uplinks ≡ more = cc h in rw (← e) l
uplink_loop-Leaves switches core (link ∷ raw) uplinks more l h =
    let (u, ue, rest) =
      >>=-eq-ok (add_uplink switches core link link.leaf uplinks)
        (λ u. uplink_loop switches core raw u) h in
    uplink_loop-Leaves switches core raw u more
      (add_uplink-Leaves switches core link link.leaf uplinks u l ue) rest

uplink_zones-some :
    (switches : Dict String Switch) (uplinks : Dict String Uplink) (ports : Dict ℕ (Option String))
    → Leaves switches uplinks
    → (made : Dict ℕ (Option String)) × (uplink_zones switches uplinks ports ≡ some made)
unfolding uplink_zones
uplink_zones-some switches [] ports l = (ports, refl)
uplink_zones-some switches ((leaf, link) ∷ uplinks) ports (here, l) =
    elim (Option-cases (lookup leaf switches)) [
      | inl e ↦ absurd (ground arith)
      | inr (s, e) ↦
          let (made, rest) =
            uplink_zones-some switches uplinks (insert (port_number link.core_port) s.zone ports)
              l in
          (made, ground arith)
    ]

uplink_ports-some :
    (f : Uplink → Value) (switches : Dict String Switch) (uplinks : Dict String Uplink)
    (ports : Dict ℕ ℕ)
    → Leaves switches uplinks
    → (made : Dict ℕ ℕ) × (uplink_ports f switches uplinks ports ≡ some made)
unfolding uplink_ports
uplink_ports-some f switches [] ports l = (ports, refl)
uplink_ports-some f switches ((leaf, link) ∷ uplinks) ports (here, l) =
    elim (Option-cases (lookup leaf switches)) [
      | inl e ↦ absurd (ground arith)
      | inr (s, e) ↦
          let (made, rest) =
            uplink_ports-some f switches uplinks (insert s.dpid (port_number (f link)) ports) l in
          (made, ground arith)
    ]

load_uplinks-Leaves :
    (raw : List RawUplink) (switches : Dict String Switch) (core : String)
    (uplinks : Dict String Uplink)
    → load_uplinks raw switches core ≡ ok uplinks
    → Leaves switches uplinks
unfolding load_uplinks
load_uplinks-Leaves raw switches core uplinks h =
    let (u, ue, h1) = >>=-eq-ok (uplink_loop switches core raw []) _ h in
    let (_, me, h2) =
      >>=-eq-ok (raise_if (any_missing switches core u) (network_error leaves_without_uplink)) _
        h1 in
    let e : u ≡ uplinks = cc h2 in rw (← e) (uplink_loop-Leaves switches core raw [] u tt ue)

port_maps-some :
    (net : Network)
    → has_key net.core net.switches ≡ true
    → Leaves net.switches net.uplinks
    → (maps : PortMaps) × (port_maps net ≡ some maps)
unfolding port_maps
port_maps-some net core leaves = elim (Option-cases (lookup net.core net.switches)) [
  | inl e ↦ absurd (ground arith)
  | inr (s, e) ↦
      let (zones, ze) = uplink_zones-some net.switches net.uplinks [] leaves in
      let (up, ue) = uplink_ports-some (λ l. l.leaf_port) net.switches net.uplinks [] leaves in
      let (down, de) = uplink_ports-some (λ l. l.core_port) net.switches net.uplinks [] leaves in
      rw (ze, e, ue, de) (_, refl)
]

-- For every layout that `load_network` accepts, `port_maps` returns: no name is looked up that the
-- layout does not define.
pub load_network-port_maps :
    (installed zones : Zones) (raw : RawNetwork) (net : Network)
    → load_network installed zones (some raw) ≡ ok net
    → (maps : PortMaps) × (port_maps net ≡ some maps)
unfolding load_network
load_network-port_maps installed zones raw net h =
    let ((core, switches), se, h1) = >>=-eq-ok (load_switches zones raw.switches) _ h in
    let (uplinks, ue, h2) = >>=-eq-ok (load_uplinks raw.uplinks switches core) _ h1 in
    let (hosts, he, h3) =
      >>=-eq-ok (load_hosts installed zones switches core raw.hosts [] []) _ h2 in
    let (_, pe, h4) = >>=-eq-ok (check_ports_unique core uplinks hosts) _ h3 in
    let made : Network = record {
      core = core;
      switches = switches;
      uplinks = uplinks;
      hosts = hosts;
    } in
    let e : made ≡ net = cc h4 in
    rw (← e) (
      port_maps-some made (load_switches-core zones raw.switches core switches se)
        (load_uplinks-Leaves raw.uplinks switches core uplinks ue))
