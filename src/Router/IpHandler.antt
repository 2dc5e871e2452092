-- ===== src/Router/IpHandler.antt =====
-- controller.py: `_handle_ip` and what it calls.
use mininet_zone_segmentatio.Base.{
  ℕ, String, Bool, true, false, not, ◌||◌, Option, none, some, [], ◌∷◌, ltb, ◌==◌, nat_eq,
  string_eq, lookup, if◌then◌else◌,
}
use mininet_zone_segmentatio.Policy.{Zone, zone_for_ip, source_ip_valid_for_zone, firewall_allowed}
use mininet_zone_segmentatio.Conntrack.{
  TrackedPacket, tracked_packet, check, Verdict, icmp_protocol, tcp_protocol, udp_protocol,
}
use mininet_zone_segmentatio.Router.{
  EthAddr, IcmpBody, echo, Payload, ports, icmp, Ipv4, set_src, set_dst, dec_ttl, output, Message,
  flow_mod, send, Location, Router, Config, PacketIn, routed_flow_idle_timeout,
  routed_flow_hard_timeout, drop_flow_idle_timeout, drop_flow_hard_timeout,
}
use mininet_zone_segmentatio.Router.Ports.{zone_of_port, core_port_for}
use mininet_zone_segmentatio.Router.Output.{emit, learn, l2_forward}
use mininet_zone_segmentatio.Router.Pending.{forward_ip, queue_and_resolve}
use mininet_zone_segmentatio.Router.ArpHandler.{is_gateway}

-- `getattr(l4.payload, 'id', 0)`
echo_id : IcmpBody → ℕ
echo_id (echo id) = id
echo_id _ = 0

-- TCP and UDP: `hasattr(l4, 'srcport')`.
unfoldable pub tracked_ports : Ipv4 → Payload → Option TrackedPacket
tracked_ports p (ports srcport dstport) =
    tracked_packet p.srcip p.dstip p.protocol srcport dstport none 0
tracked_ports p _ = none

-- ICMP: `hasattr(l4, 'type')`.
unfoldable pub tracked_icmp : Ipv4 → Payload → Option TrackedPacket
unfolding echo_id
tracked_icmp p (icmp icmp_type code body) =
    tracked_packet p.srcip p.dstip p.protocol 0 0 (some icmp_type) (echo_id body)
tracked_icmp p _ = none

-- `_tracked`
unfoldable pub tracked : Ipv4 → Option TrackedPacket
unfolding tracked_ports tracked_icmp
tracked p =
    if p.protocol == tcp_protocol || p.protocol == udp_protocol
    then tracked_ports p p.payload
    else if p.protocol == icmp_protocol
    then tracked_icmp p p.payload
    else none

module _ (c : Config) where
  -- `_firewall_allowed` asks for protocol 1 or 0. `none` is an `OSError` of the client.
  unfoldable pub ask_firewall : PacketIn → String → String → Bool → Ipv4 → Router → Bool × Router
  ask_firewall e src_zone dst_zone is_icmp p r =
      if c.use_cpp_firewall
      then elim (e.daemon p.srcip p.dstip (if is_icmp then icmp_protocol else 0)) [
        | some allowed ↦ (allowed, r)
        | none ↦ (
          firewall_allowed c.policy (some src_zone) (some dst_zone) is_icmp,
          record r { fw_fallback_warned = true },
        )
      ]
      else (firewall_allowed c.policy (some src_zone) (some dst_zone) is_icmp, r)

  -- `_install_drop_flow`
  unfoldable pub install_drop_flow : PacketIn → Router → Router
  install_drop_flow e = emit (
      send e.connection (
        flow_mod (record { in_port = some e.port; headers = e.packet }) drop_flow_idle_timeout
          drop_flow_hard_timeout [] none))

  -- The rule of the core: rewrite the MACs, decrement the TTL, and send out of the port.
  core_rule : PacketIn → Zone → ℕ → EthAddr → Message
  core_rule e gw out_port dst_mac =
      flow_mod (record { in_port = core_port_for c.maps e.dpid e.port; headers = e.packet })
        routed_flow_idle_timeout routed_flow_hard_timeout
        (set_src gw.gateway_mac ∷ set_dst dst_mac ∷ dec_ttl ∷ output out_port ∷ []) none

  leaf_rule : PacketIn → ℕ → Message
  leaf_rule e uplink =
      flow_mod (record { in_port = some e.port; headers = e.packet }) routed_flow_idle_timeout
        routed_flow_hard_timeout (output uplink ∷ []) none

  -- The rule of the host's leaf. The flag is set where a missing uplink raises a KeyError.
  unfoldable pub install_leaf_rule : PacketIn → Router → Router × Bool
  unfolding leaf_rule
  install_leaf_rule e r =
      if e.dpid == c.maps.core_dpid
      then (r, false)
      else elim (lookup e.dpid c.maps.leaf_uplink_port) [
        | none ↦ (r, true)
        | some uplink ↦ (emit (send e.connection (leaf_rule e uplink)) r, false)
      ]

  -- `_install_route_flows`. The zone was returned by `zone_for_ip`, so it is in ZONES.
  unfoldable pub install_route_flows : PacketIn → String → ℕ → EthAddr → Router → Router × Bool
  unfolding core_rule
  install_route_flows e dst_zone out_port dst_mac r = elim (lookup c.maps.core_dpid r.connections) [
    | none ↦ (r, false)
    | some core_conn ↦ elim (lookup dst_zone c.policy.zones) [
      | none ↦ (r, true)
      | some gw ↦ install_leaf_rule e (emit (send core_conn (core_rule e gw out_port dst_mac)) r)
    ]
  ]

  -- `_forward_ip` after the rules, unless they raised.
  unfoldable pub forward_after : PacketIn → Ipv4 → String → Location → Router × Bool → Router
  forward_after e p dst_zone loc (r, true) = r
  forward_after e p dst_zone loc (r, false) =
      forward_ip c e.dpid e.port dst_zone e.packet p loc.core_port loc.mac r

  -- `_route` for a known location.
  unfoldable pub route_known : PacketIn → Ipv4 → String → Location → Router → Router
  unfolding forward_after
  route_known e p dst_zone loc r =
      forward_after e p dst_zone loc
        (if ltb 1 p.ttl then install_route_flows e dst_zone loc.core_port loc.mac r else (r, false))

  -- `_route`
  unfoldable pub route : PacketIn → Ipv4 → String → Router → Router
  route e p dst_zone r = elim (lookup p.dstip r.ip_to_loc) [
    | none ↦ queue_and_resolve c e.dpid e.port e.packet p dst_zone r
    | some loc ↦ route_known e p dst_zone loc r
  ]

  -- The packet after the firewall: dropped, or routed.
  unfoldable pub finish : PacketIn → Ipv4 → String → Option Verdict → Router → Router
  finish e p dst_zone none r = install_drop_flow e r
  finish e p dst_zone (some _) r = route e p dst_zone r

  -- The firewall's verdict, and the connection table's.
  unfoldable pub filter_ip : PacketIn → Ipv4 → String → String → Router → Router
  filter_ip e p src_zone dst_zone r =
      let (policy_allowed, r₁) =
        ask_firewall e src_zone dst_zone (p.protocol == icmp_protocol) p r in
      let (verdict, conns) = check e.now e.later r₁.conns policy_allowed (tracked p) in
      finish e p dst_zone verdict (record r₁ { conns = conns })

  -- `_handle_ip` from the test of the destination's zone on.
  unfoldable pub dispatch_ip : PacketIn → Ipv4 → String → Router → Router
  dispatch_ip e p src_zone r = elim (zone_for_ip c.policy.zones p.dstip) [
    | none ↦ r
    | some dst_zone ↦
        if dst_zone == src_zone
        then l2_forward c e e.packet.dst r
        else filter_ip e p src_zone dst_zone r
  ]

  unfoldable pub accept_ip : PacketIn → Ipv4 → String → Router → Router
  accept_ip e p src_zone r =
      let learned = learn c e.dpid e.port p.srcip e.packet.src src_zone r in
      if is_gateway c.policy.zones p.dstip then learned else dispatch_ip e p src_zone learned

  unfoldable pub handle_ip : PacketIn → Ipv4 → Router → Router
  handle_ip e p r = elim (zone_of_port c.maps e.dpid e.port) [
    | none ↦ r
    | some src_zone ↦
        if not (source_ip_valid_for_zone c.policy.zones p.srcip (some src_zone))
        then r
        else accept_ip e p src_zone r
  ]
