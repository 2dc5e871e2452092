-- ===== src/Router/Layout.antt =====
-- controller.py with the port maps of a layout that `load_network` of network.py has accepted.
use mininet_zone_segmentatio.Base.{
  ℕ, String, ◌≡◌, ◌∙◌, ap, sym, Option, none, some, [], ◌++◌, arith, nat_eq, string_eq, pair_eq,
  Dict, lookup, lookup-nil, inl, inr, Option-cases, List, false, ok, raise_if, >>=-eq-ok,
}
use mininet_zone_segmentatio.Policy.{Zones}
use mininet_zone_segmentatio.Network.{
  Switch, Uplink, Network, PortMaps, port_number, uplink_zones, host_zones, switch_zones,
  uplink_ports, port_maps,
}
use mininet_zone_segmentatio.Network.Load.{
  RawUplink, RawNetwork, load_switches, load_uplinks, uplink_loop, any_missing,
  leaves_without_uplink, network_error,
}
use mininet_zone_segmentatio.Network.Hosts.{
  load_network, load_hosts, host_attachments, uplink_attachments, check_ports_unique,
}
use mininet_zone_segmentatio.Network.Unique.{
  Unique, check_ports-Unique, In, Unique-hosts, core_port-free,
}
use mininet_zone_segmentatio.Network.Maps.{
  FromUplink, lookup-uplink_ports, FromSwitch, lookup-switch_zones, lookup-uplink_zones,
  lookup-host_zones,
}
use mininet_zone_segmentatio.Network.Switches.{OwnDpids, In-lookup, load_switches-OwnDpids}
use mininet_zone_segmentatio.Router.Ports.{join}
use mininet_zone_segmentatio.Router.Locations.{LeavesAgree}

-- What the checks of `load_network` leave to be used here.
pub record Checked (net : Network) : Type 0 where
  pub own : OwnDpids net.switches
  pub unique : Unique [] (host_attachments net.hosts ++ uplink_attachments net.core net.uplinks)
  pub uplinked : any_missing net.switches net.core net.uplinks ≡ false

load_uplinks-uplinked :
    (raw : List RawUplink) (switches : Dict String Switch) (core : String)
    (uplinks : Dict String Uplink)
    → load_uplinks raw switches core ≡ ok uplinks
    → any_missing switches core uplinks ≡ false
unfolding load_uplinks
load_uplinks-uplinked raw switches core uplinks h =
    let (u, ue, h1) = >>=-eq-ok (uplink_loop switches core raw []) _ h in
    let (_, me, h2) =
      >>=-eq-ok (raise_if (any_missing switches core u) (network_error leaves_without_uplink)) _
        h1 in
    let e : u ≡ uplinks = cc h2 in rw (← e) (ground arith)

pub load_network-Checked :
    (installed zones : Zones) (raw : RawNetwork) (net : Network)
    → load_network installed zones (some raw) ≡ ok net
    → Checked net
unfolding load_network check_ports_unique
load_network-Checked installed zones raw net h =
    let ((core, switches), se, h1) = >>=-eq-ok (load_switches zones raw.switches) _ h in
    let (uplinks, ue, h2) = >>=-eq-ok (load_uplinks raw.uplinks switches core) _ h1 in
    let (hosts, he, h3) =
      >>=-eq-ok (load_hosts installed zones switches core raw.hosts [] []) _ h2 in
    let (_, pe, h4) = >>=-eq-ok (check_ports_unique core uplinks hosts) _ h3 in
    let made : Network = record {
      core = core;
      switches = switches;
      uplinks = uplinks;
      hosts = hosts;
    } in
    let e : made ≡ net = cc h4 in
    rw (← e) (record {
      own = load_switches-OwnDpids zones raw.switches core switches se;
      unique = check_ports-Unique [] _ pe;
      uplinked = load_uplinks-uplinked raw.uplinks switches core uplinks ue;
    })

-- The parts of the maps.
pub record Made (net : Network) (maps : PortMaps) : Type 0 where
  pub core_switch : Switch
  pub core_found : lookup net.core net.switches ≡ some core_switch
  pub core_dpid : maps.core_dpid ≡ core_switch.dpid
  pub leaf_ports : Dict ℕ (Option String)
  pub zones_made : uplink_zones net.switches net.uplinks [] ≡ some leaf_ports
  pub ports_made :
      uplink_ports (λ l. l.core_port) net.switches net.uplinks [] ≡ some maps.leaf_core_port
  pub up_made :
      uplink_ports (λ l. l.leaf_port) net.switches net.uplinks [] ≡ some maps.leaf_uplink_port
  pub switch_zone : maps.switch_zone ≡ switch_zones net.core net.switches []
  pub core_zones : maps.core_port_zones ≡ host_zones net.core net.hosts leaf_ports

pub port_maps-Made : (net : Network) (maps : PortMaps) → port_maps net ≡ some maps → Made net maps
unfolding port_maps
port_maps-Made net maps h = elim (Option-cases (uplink_zones net.switches net.uplinks [])) [
  | inl e ↦ absurd (ground arith)
  | inr (leaf_ports, ze) ↦ elim (Option-cases (lookup net.core net.switches)) [
    | inl e ↦ absurd (ground arith)
    | inr (core_switch, ce) ↦
        elim (Option-cases (uplink_ports (λ l. l.leaf_port) net.switches net.uplinks [])) [
          | inl e ↦ absurd (ground arith)
          | inr (up, ue) ↦
              elim (Option-cases (uplink_ports (λ l. l.core_port) net.switches net.uplinks [])) [
                | inl e ↦ absurd (ground arith)
                | inr (down, de) ↦ record {
                  core_switch = core_switch;
                  core_found = ce;
                  core_dpid = ground arith;
                  leaf_ports = leaf_ports;
                  zones_made = ze;
                  ports_made = ground arith;
                  up_made = ground arith;
                  switch_zone = ground arith;
                  core_zones = ground arith;
                }
              ]
        ]
  ]
]

core_zone :
    (net : Network) (maps : PortMaps) (leaf : String) (link : Uplink) (s : Switch)
    → Checked net
    → Made net maps
    → In (leaf, link) net.uplinks
    → lookup leaf net.switches ≡ some s
    → lookup (port_number link.core_port) maps.core_port_zones ≡ some s.zone
core_zone net maps leaf link s checked made plugged found =
    let n = port_number link.core_port in
    let (used, unique, clear) =
      Unique-hosts [] net.hosts (uplink_attachments net.core net.uplinks) net.core n
        checked.unique in
    let free = core_port-free used net.core leaf link net.uplinks unique plugged in
    rw made.core_zones (
      lookup-host_zones net.core net.hosts made.leaf_ports n (clear free).0
      ∙ lookup-uplink_zones net.core leaf link s net.switches net.uplinks [] made.leaf_ports used
          made.zones_made unique plugged found)

leaf_zone :
    (net : Network) (maps : PortMaps) (d port : ℕ) (z : String)
    → Checked net
    → Made net maps
    → FromUplink (λ l. l.core_port) net.switches net.uplinks d port
    → FromSwitch net.switches d (some z)
    → join (lookup port maps.core_port_zones) ≡ some z
leaf_zone net maps d port z checked made up down =
    let same : up.switch ≡ down.switch =
      (checked.own.same up.leaf down.name up.switch down.switch
        (In-lookup net.switches up.leaf up.found) down.member
        (up.same_dpid ∙ sym down.same_dpid)).1 in
    let at = core_zone net maps up.leaf up.link up.switch checked made up.plugged up.found in
    let zone : up.switch.zone ≡ some z = ap (λ (s : Switch). s.zone) same ∙ down.same_zone in
    let there : lookup port maps.core_port_zones ≡ some (some z) =
      ap (λ (n : ℕ). lookup n maps.core_port_zones) (sym up.same_port) ∙ at ∙ ap some zone in
    ap join there

join-some : (o : Option (Option String)) (z : String) → join o ≡ some z → o ≡ some (some z)
join-some none z h = cc
join-some (some v) z h = cc h

-- In the port maps of every layout that `load_network` accepts, the core port that faces a leaf is in
-- the leaf's zone.
pub load_network-LeavesAgree :
    (installed zones : Zones) (raw : RawNetwork) (net : Network) (maps : PortMaps)
    → load_network installed zones (some raw) ≡ ok net
    → port_maps net ≡ some maps
    → LeavesAgree maps
load_network-LeavesAgree installed zones raw net maps loaded mapped =
    let checked = load_network-Checked installed zones raw net loaded in
    let made = port_maps-Made net maps mapped in
    record {
      agree = λ d port z other pe ze.
          elim (lookup-uplink_ports (λ l. l.core_port) net.switches net.uplinks []
            maps.leaf_core_port d port made.ports_made pe) [
              | inl e ↦ absurd (ground (arith, lookup-nil {V = ℕ} d))
              | inr up ↦
                  elim (lookup-switch_zones net.core net.switches [] d (some z) (
                    join-some (lookup d (switch_zones net.core net.switches [])) z (
                      ap (λ (zones : Dict ℕ (Option String)). join (lookup d zones))
                        (sym made.switch_zone)
                      ∙ ze))) [
                        | inl e ↦ absurd (ground (arith, lookup-nil {V = Option String} d))
                        | inr down ↦ leaf_zone net maps d port z checked made up down
                      ]
            ];
    }
