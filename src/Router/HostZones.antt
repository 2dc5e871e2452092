-- ===== src/Router/HostZones.antt =====
-- controller.py with the port maps of a layout that `load_network` of network.py has accepted: the zone
-- that the router takes the hosts to be in.
use mininet_zone_segmentatio.Base.{
  String, ◌≡◌, ◌≢◌, ◌∙◌, ap, sym, true, false, some, [], arith, ◌==◌, nat_eq, string_eq, lookup,
  inl, inr, Bool-cases, ok,
}
use mininet_zone_segmentatio.Policy.{Zones, source_ip_valid_for_zone}
use mininet_zone_segmentatio.Network.{Switch, Host, Network, PortMaps, port_number, port_maps}
use mininet_zone_segmentatio.Network.Load.{RawNetwork}
use mininet_zone_segmentatio.Network.Hosts.{load_network, uplink_attachments}
use mininet_zone_segmentatio.Network.Unique.{In}
use mininet_zone_segmentatio.Network.Switches.{In-lookup}
use mininet_zone_segmentatio.Network.HostPorts.{host_zones-host, switch_zones-leaf, Agree-all}
use mininet_zone_segmentatio.Network.Placed.{load_network-IsPlaced, load_network-source_ip_valid}
use mininet_zone_segmentatio.Router.Layout.{Checked, load_network-Checked, Made, port_maps-Made}
use mininet_zone_segmentatio.Router.Ports.{zone_of_port}

-- At the core, by the host's port.
at_core :
    (net : Network) (maps : PortMaps) (name : String) (h : Host) (s : Switch)
    → Checked net
    → Made net maps
    → In (name, h) net.hosts
    → lookup h.switch net.switches ≡ some s
    → h.switch ≡ net.core
    → zone_of_port maps s.dpid (port_number h.port) ≡ some h.zone
unfolding zone_of_port
at_core net maps name h s checked made here plugged core =
    let found : lookup (port_number h.port) maps.core_port_zones ≡ some (some h.zone) =
      rw made.core_zones (
        host_zones-host net.core name h net.hosts made.leaf_ports []
          (uplink_attachments net.core net.uplinks) checked.unique here core) in
    let same : s ≡ made.core_switch = ground (arith, plugged, made.core_found, core) in
    let dpid : s.dpid ≡ maps.core_dpid = ap (λ (t : Switch). t.dpid) same ∙ sym made.core_dpid in
    ground (arith, found, dpid)

-- At a leaf, by the leaf.
at_leaf :
    (net : Network) (maps : PortMaps) (h : Host) (s : Switch)
    → Checked net
    → Made net maps
    → lookup h.switch net.switches ≡ some s
    → s.zone ≡ some h.zone
    → (h.switch == net.core) ≡ false
    → zone_of_port maps s.dpid (port_number h.port) ≡ some h.zone
unfolding zone_of_port
at_leaf net maps h s checked made plugged zone leaf =
    let member = In-lookup net.switches h.switch plugged in
    let found : lookup s.dpid maps.switch_zone ≡ some s.zone = rw made.switch_zone (
      switch_zones-leaf net.core h.switch s net.switches []
        (Agree-all s.dpid s.zone net.core net.switches (λ m t here e.
          let (name, same) = checked.own.same m h.switch t s here member e in
          (ap (λ (u : Switch). u.zone) same, rw name leaf)))
        member) in
    let other : s.dpid ≢ maps.core_dpid = λ e.
      let (name, _) =
        checked.own.same h.switch net.core s made.core_switch member
          (In-lookup net.switches net.core made.core_found) (e ∙ made.core_dpid) in
      ground (arith, name, leaf) in
    ground (arith, found, other, zone)

-- For every layout that `load_network` accepts, the zone that the router takes a packet to be in
-- that comes from a host's own port is the zone that the policy has for the host's address, and the
-- anti-spoofing test of that zone passes the address.
pub load_network-zone_of_port :
    (zones : Zones) (raw : RawNetwork) (net : Network) (maps : PortMaps) (name : String) (h : Host)
    (s : Switch)
    → load_network zones zones (some raw) ≡ ok net
    → port_maps net ≡ some maps
    → In (name, h) net.hosts
    → lookup h.switch net.switches ≡ some s
    → (zone_of_port maps s.dpid (port_number h.port) ≡ some h.zone)
      × (source_ip_valid_for_zone zones h.ip (zone_of_port maps s.dpid (port_number h.port)) ≡ true)
load_network-zone_of_port zones raw net maps name h s loaded mapped here plugged =
    let checked = load_network-Checked zones zones raw net loaded in
    let made = port_maps-Made net maps mapped in
    let placed = load_network-IsPlaced zones zones raw net name h loaded here in
    let same : placed.switch ≡ s = ground (arith, placed.plugged, plugged) in
    let zone : zone_of_port maps s.dpid (port_number h.port) ≡ some h.zone =
      elim (Bool-cases (h.switch == net.core)) [
        | inl core ↦ at_core net maps name h s checked made here plugged (ground arith)
        | inr leaf ↦
            at_leaf net maps h s checked made plugged
              (ap (λ (t : Switch). t.zone) (sym same) ∙ placed.same_zone leaf) leaf
      ] in
    (zone, rw zone (load_network-source_ip_valid zones raw net name h loaded here))
