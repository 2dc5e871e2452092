-- ===== src/Router/Output.antt =====
-- controller.py: what is sent to switches, and the learning of MAC addresses and locations.
use mininet_zone_segmentatio.Base.{
  ℕ, String, Option, none, some, List, [], ◌∷◌, ◌++◌, ◌==◌, nat_eq, string_eq, Dict, take, lookup,
  insert, if◌then◌else◌,
}
use mininet_zone_segmentatio.Policy.{Zone}
use mininet_zone_segmentatio.Conntrack.{icmp_protocol}
use mininet_zone_segmentatio.Router.{
  EthAddr, ether_broadcast, request, reply, Arp, unreach, icmp, Ipv4, arp_next, ip_next, Ethernet,
  packed, received, output, flood, packet_out, flow_mod, Effect, send, Router, Config, PacketIn,
}
use mininet_zone_segmentatio.Router.Ports.{zone_core_ports, zone_of_port, core_port_for, join}

unfoldable pub emit : Effect → Router → Router
emit e r = record r { sent = r.sent ++ (e ∷ []) }

-- `_packet_out`
unfoldable pub send_packet : ℕ → Ethernet → ℕ → Router → Router
unfolding emit
send_packet connection eth out_port =
    emit (send connection (packet_out (packed eth) (output out_port ∷ [])))

-- `_packet_out_data`
unfoldable pub send_data : ℕ → Ethernet → ℕ → Router → Router
unfolding emit
send_data connection original out_port =
    emit (send connection (packet_out (received original) (output out_port ∷ [])))

-- One packet out of each port in turn.
unfoldable pub each_port : (ℕ → Router → Router) → List ℕ → Router → Router
each_port f [] r = r
each_port f (port ∷ list) r = each_port f list (f port r)

-- `_send_arp_reply`
unfoldable pub send_arp_reply : ℕ → ℕ → ℕ → EthAddr → ℕ → EthAddr → Router → Router
send_arp_reply connection out_port sender_ip sender_mac target_ip target_mac =
    let answer : Arp = record {
      opcode = reply;
      hwsrc = sender_mac;
      hwdst = target_mac;
      protosrc = sender_ip;
      protodst = target_ip;
    } in
    send_packet connection (record { src = sender_mac; dst = target_mac; next = arp_next answer })
      out_port

table_or_empty : Option (Dict EthAddr ℕ) → Dict EthAddr ℕ
table_or_empty none = []
table_or_empty (some t) = t

-- `self.mac_table.get(dpid, {}).get(mac)`
unfoldable pub mac_port : Router → ℕ → EthAddr → Option ℕ
unfolding table_or_empty
mac_port r dpid mac = lookup mac (table_or_empty (lookup dpid r.mac_table))

-- `self.mac_table.setdefault(dpid, {})[mac] = port`
unfoldable pub learn_mac : ℕ → EthAddr → ℕ → Router → Router
unfolding table_or_empty
learn_mac dpid mac port r = record r {
  mac_table = insert dpid (insert mac port (table_or_empty (lookup dpid r.mac_table))) r.mac_table;
}

learn_location : Option ℕ → ℕ → EthAddr → String → Router → Router
learn_location none ip mac zone r = r
learn_location (some core_port) ip mac zone r = record r {
  ip_to_loc = insert ip (record { core_port = core_port; mac = mac; zone = zone }) r.ip_to_loc;
}

module _ (c : Config) where
  -- `_send_arp_probe`, once the core's connection and the zone's gateway are known.
  unfoldable pub probe : ℕ → Zone → ℕ → String → Router → Router
  probe connection gw dst_ip dst_zone =
      let req : Arp = record {
        opcode = request;
        hwsrc = gw.gateway_mac;
        hwdst = ether_broadcast;
        protosrc = gw.gateway;
        protodst = dst_ip;
      } in
      each_port
        (send_packet connection
          (record { src = gw.gateway_mac; dst = ether_broadcast; next = arp_next req }))
        (zone_core_ports c.maps (some dst_zone))

  -- `_send_arp_probe`. The zone of a probe was returned by `zone_for_ip`, so it is in ZONES.
  unfoldable pub send_arp_probe : ℕ → String → Router → Router
  send_arp_probe dst_ip dst_zone r = elim (lookup c.maps.core_dpid r.connections) [
    | none ↦ r
    | some connection ↦ elim (lookup dst_zone c.policy.zones) [
      | none ↦ r
      | some gw ↦ probe connection gw dst_ip dst_zone r
    ]
  ]

  -- `_learn`
  unfoldable pub learn : ℕ → ℕ → ℕ → EthAddr → String → Router → Router
  unfolding learn_mac learn_location
  learn dpid port ip mac zone r =
      learn_location (core_port_for c.maps dpid port) ip mac zone (learn_mac dpid mac port r)

  -- `_flood_in_zone`
  unfoldable pub flood_in_zone : PacketIn → Router → Router
  flood_in_zone e r =
      if e.dpid == c.maps.core_dpid
      then each_port
          (λ port r'. if port == e.port then r' else send_data e.connection e.packet port r')
          (zone_core_ports c.maps (join (lookup e.port c.maps.core_port_zones))) r
      else emit (send e.connection (packet_out (received e.packet) (flood ∷ []))) r

  -- `_l2_forward`
  unfoldable pub l2_forward : PacketIn → EthAddr → Router → Router
  l2_forward e dst_mac r = elim (mac_port r e.dpid dst_mac) [
    | none ↦ flood_in_zone e r
    | some out_port ↦
        emit
          (send e.connection (
            flow_mod (record { in_port = some e.port; headers = e.packet }) 30 60
              (output out_port ∷ []) (some (received e.packet))))
          r
  ]

  icmp_error_packet : Zone → Ethernet → Ipv4 → ℕ → ℕ → Ethernet
  icmp_error_packet gw packet ip_pkt icmp_type icmp_code = record {
    src = gw.gateway_mac;
    dst = packet.src;
    next = ip_next (record {
      srcip = gw.gateway;
      dstip = ip_pkt.srcip;
      protocol = icmp_protocol;
      ttl = c.default_ttl;
      payload = icmp icmp_type icmp_code (unreach (take 28 (c.pack ip_pkt)));
    });
  }

  -- `ZONES[src_zone]`, where the zone may be None.
  unfoldable pub gateway_of : Option String → Option Zone
  gateway_of none = none
  gateway_of (some zone) = lookup zone c.policy.zones

  -- `_send_icmp_error`
  unfoldable pub send_icmp_error : Ethernet → Ipv4 → ℕ → ℕ → ℕ → ℕ → Router → Router
  unfolding icmp_error_packet
  send_icmp_error packet ip_pkt orig_dpid orig_port icmp_type icmp_code r =
      elim (lookup orig_dpid r.connections) [
        | none ↦ r
        | some connection ↦ elim (gateway_of (zone_of_port c.maps orig_dpid orig_port)) [
          | none ↦ r
          | some gw ↦
              send_packet connection (icmp_error_packet gw packet ip_pkt icmp_type icmp_code)
                orig_port r
        ]
      ]
