-- ===== src/Router/Discovery.antt =====
-- controller.py from its documents on: a host that asks for its gateway is answered, and found.
use mininet_zone_segmentatio.Base.{
  ℕ, String, ◌≡◌, refl, ap, sym, true, false, Option, some, List, [], ◌∷◌, ◌++◌, arith, ◌==◌,
  nat_eq, string_eq, option_eq, pair_eq, lookup, lookup-nil, lookup-insert_self, inl, inr,
  Bool-cases, Option-cases, ok,
}
use mininet_zone_segmentatio.Policy.{Zone, Zones, source_ip_valid_for_zone}
use mininet_zone_segmentatio.Policy.Load.{RawPolicy}
use mininet_zone_segmentatio.Network.{Switch, Host, Network, PortMaps, port_number, port_maps}
use mininet_zone_segmentatio.Network.Load.{RawNetwork}
use mininet_zone_segmentatio.Network.Hosts.{load_network, uplink_attachments}
use mininet_zone_segmentatio.Network.Unique.{In, Unique-hosts}
use mininet_zone_segmentatio.Network.Switches.{In-lookup}
use mininet_zone_segmentatio.Network.Maps.{FromUplink, lookup-uplink_ports}
use mininet_zone_segmentatio.Network.HostUplinks.{
  leaf_port-free, NoHost-elsewhere, any_missing-has_key, uplink_ports-has_key,
}
use mininet_zone_segmentatio.Router.{
  EthAddr, request, reply, arp_next, Ethernet, packed, output, packet_out, Effect, send, Router,
  Config, PacketIn, packet_in,
}
use mininet_zone_segmentatio.Router.Ports.{join, zone_of_port, is_leaf_uplink, core_port_for}
use mininet_zone_segmentatio.Router.Output.{learn, learn_mac, send_arp_reply, send_packet, emit}
use mininet_zone_segmentatio.Router.ArpHandler.{is_gateway, answer_arp, accept_arp, handle_arp}
use mininet_zone_segmentatio.Router.Dispatch.{by_type, by_ingress, handle_packet_in, step}
use mininet_zone_segmentatio.Router.Layout.{
  Checked, load_network-Checked, Made, port_maps-Made, load_network-LeavesAgree,
}
use mininet_zone_segmentatio.Router.Locations.{core_port_for-zone}
use mininet_zone_segmentatio.Router.HostZones.{load_network-zone_of_port}
use mininet_zone_segmentatio.Router.Start.{Pox, start, start-Loaded}

-- The port of a host is no uplink.
host-not-uplink :
    (net : Network) (maps : PortMaps) (name : String) (h : Host) (s : Switch)
    → Checked net
    → Made net maps
    → In (name, h) net.hosts
    → lookup h.switch net.switches ≡ some s
    → is_leaf_uplink maps s.dpid (port_number h.port) ≡ false
unfolding is_leaf_uplink
host-not-uplink net maps name h s checked made here plugged =
    elim (Bool-cases (lookup s.dpid maps.leaf_uplink_port == some (port_number h.port))) [
      | inr e ↦ e
      | inl e ↦
          elim (lookup-uplink_ports (λ l. l.leaf_port) net.switches net.uplinks []
            maps.leaf_uplink_port s.dpid (port_number h.port) made.up_made (ground arith)) [
              | inl n ↦ absurd (ground (arith, lookup-nil {V = ℕ} s.dpid))
              | inr up ↦ absurd (clash up)
            ]
    ]
  where
    clash : FromUplink (λ l. l.leaf_port) net.switches net.uplinks s.dpid (port_number h.port) → ⊥
    clash up =
        let n = port_number up.link.leaf_port in
        let (used, unique, clear) =
          Unique-hosts [] net.hosts (uplink_attachments net.core net.uplinks) up.leaf n
            checked.unique in
        let free = leaf_port-free used net.core up.leaf up.link net.uplinks unique up.plugged in
        let elsewhere = NoHost-elsewhere up.leaf name n h net.hosts (clear free).0 here in
        let (same, _) =
          checked.own.same h.switch up.leaf s up.switch (In-lookup net.switches h.switch plugged)
            (In-lookup net.switches up.leaf up.found) (sym up.same_dpid) in
        ground (arith, up.same_port)

-- The core reaches every switch with a host.
core_port-some :
    (net : Network) (maps : PortMaps) (h : Host) (s : Switch)
    → Checked net
    → Made net maps
    → lookup h.switch net.switches ≡ some s
    → (out : ℕ) × (core_port_for maps s.dpid (port_number h.port) ≡ some out)
unfolding core_port_for
core_port-some net maps h s checked made plugged = elim (Bool-cases (s.dpid == maps.core_dpid)) [
  | inl core ↦ (port_number h.port, rw core refl)
  | inr other ↦
      let leaf : (h.switch == net.core) ≡ false =
        ground (arith, plugged, made.core_found, made.core_dpid) in
      let uplinked =
        any_missing-has_key net.switches net.core net.uplinks h.switch s checked.uplinked
          (In-lookup net.switches h.switch plugged) leaf in
      let there =
        uplink_ports-has_key (λ l. l.core_port) net.switches net.uplinks [] maps.leaf_core_port
          h.switch s made.ports_made uplinked plugged in
      elim (Option-cases (lookup s.dpid maps.leaf_core_port)) [
        | inl n ↦ absurd (ground arith)
        | inr (out, found) ↦ (out, rw other found)
      ]
]

is_gateway-zone :
    (zones : Zones) (name : String) (z : Zone)
    → lookup name zones ≡ some z
    → is_gateway zones z.gateway ≡ true
unfolding is_gateway lookup
is_gateway-zone [] name z found = cc
is_gateway-zone ((n, y) ∷ zones) name z found = ground (arith, is_gateway-zone zones name z)

-- The ARP request of a host for the gateway of the zone, at the host's own port.
abbrev pub gateway_request : PacketIn → Host → Switch → Zone → EthAddr → PacketIn
gateway_request e h s z mac = record e {
  dpid = s.dpid;
  port = port_number h.port;
  parsed = true;
  packet = record {
    src = mac;
    dst = e.packet.dst;
    next = arp_next (record {
      opcode = request;
      hwsrc = mac;
      hwdst = e.packet.dst;
      protosrc = h.ip;
      protodst = z.gateway;
    });
  };
}

-- The reply of the gateway.
abbrev pub gateway_reply : Zone → Host → EthAddr → Ethernet
gateway_reply z h mac = record {
  src = z.gateway_mac;
  dst = mac;
  next = arp_next (record {
    opcode = reply;
    hwsrc = z.gateway_mac;
    hwdst = mac;
    protosrc = z.gateway;
    protodst = h.ip;
  });
}

step-gateway_request :
    (c : Config) (h : Host) (s : Switch) (z : Zone) (e : PacketIn) (mac : EthAddr) (r : Router)
    → is_leaf_uplink c.maps s.dpid (port_number h.port) ≡ false
    → zone_of_port c.maps s.dpid (port_number h.port) ≡ some h.zone
    → source_ip_valid_for_zone c.policy.zones h.ip (some h.zone) ≡ true
    → lookup h.zone c.policy.zones ≡ some z
    → step c r (packet_in (gateway_request e h s z mac))
      ≡ send_arp_reply e.connection
          (port_number h.port)
          z.gateway
          z.gateway_mac
          h.ip
          mac
          (learn c s.dpid (port_number h.port) h.ip mac h.zone r)
unfolding step handle_packet_in by_ingress by_type handle_arp accept_arp answer_arp
step-gateway_request c h s z e mac r up zone valid home =
    let gateway = is_gateway-zone c.policy.zones h.zone z home in
    rw (up, zone, handle_arp) (rw (valid, gateway, home, answer_arp) refl)

pub learn-location :
    (c : Config) (dpid port ip out : ℕ) (mac : EthAddr) (zone : String) (r : Router)
    → core_port_for c.maps dpid port ≡ some out
    → lookup ip (learn c dpid port ip mac zone r).ip_to_loc
      ≡ some (record { core_port = out; mac = mac; zone = zone })
unfolding learn
learn-location c dpid port ip out mac zone r found =
    rw (found, learn)
      (lookup-insert_self ip (record { core_port = out; mac = mac; zone = zone }) r.ip_to_loc)

pub learn-sent :
    (c : Config) (dpid port ip : ℕ) (mac : EthAddr) (zone : String) (r : Router)
    → (learn c dpid port ip mac zone r).sent ≡ r.sent
unfolding learn learn_mac
learn-sent c dpid port ip mac zone r = ground arith

-- With the documents that the controller starts with, in every state of the router: a host that asks
-- from its own port, with its own address, for the gateway of its zone is sent the gateway's MAC
-- address out of that port, and nothing else is sent; and the router then holds for its address the MAC
-- address that it gave, its zone, and a port of the core that leads to its zone.
pub start-answers_arp :
    (pox : Pox) (policy : Option RawPolicy) (network : RawNetwork) (c : Config) (net : Network)
    (name : String) (h : Host) (s : Switch) (z : Zone) (e : PacketIn) (mac : EthAddr) (r : Router)
    → start pox policy (some network) ≡ ok c
    → load_network c.policy.zones c.policy.zones (some network) ≡ ok net
    → In (name, h) net.hosts
    → lookup h.switch net.switches ≡ some s
    → lookup h.zone c.policy.zones ≡ some z
    → (let after = step c r (packet_in (gateway_request e h s z mac)) in
        (after.sent
          ≡ r.sent
            ++ (send e.connection
                  (packet_out (packed (gateway_reply z h mac)) (output (port_number h.port) ∷ []))
                ∷ []))
        × (out : ℕ) × (lookup h.ip after.ip_to_loc
            ≡ some (record { core_port = out; mac = mac; zone = h.zone }))
        × (join (lookup out c.maps.core_port_zones) ≡ some h.zone))
unfolding send_arp_reply send_packet emit
start-answers_arp pox policy network c net name h s z e mac r started loaded here plugged home =
    let l = start-Loaded pox policy (some network) c started in
    let maps_of : port_maps net ≡ some c.maps =
      ground (arith, l.given, l.network_loaded, l.mapped) in
    let checked = load_network-Checked c.policy.zones c.policy.zones network net loaded in
    let made = port_maps-Made net c.maps maps_of in
    let agree =
      load_network-LeavesAgree c.policy.zones c.policy.zones network net c.maps loaded maps_of in
    let (zone, valid) =
      load_network-zone_of_port c.policy.zones network net c.maps name h s loaded maps_of here
        plugged in
    let (out, found) = core_port-some net c.maps h s checked made plugged in
    let up = host-not-uplink net c.maps name h s checked made here plugged in
    rw (step-gateway_request c h s z e mac r up zone (rw (← zone) valid) home) (
      ap
          (λ (l : List Effect).
            l
            ++ (send e.connection
                  (packet_out (packed (gateway_reply z h mac)) (output (port_number h.port) ∷ []))
                ∷ []))
          (learn-sent c s.dpid (port_number h.port) h.ip mac h.zone r),
      out,
      learn-location c s.dpid (port_number h.port) h.ip out mac h.zone r found,
      core_port_for-zone c.maps s.dpid (port_number h.port) out h.zone agree zone found,
    )
