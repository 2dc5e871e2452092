-- ===== src/Router/Tracking.antt =====
-- controller.py: through every event, the connections that the router tracks are fit to be tracked.
use mininet_zone_segmentatio.Base.{
  String, ◌≡◌, Bool, true, false, not, some, List, [], ◌∷◌, ◌==◌, nat_eq, string_eq, if◌then◌else◌,
  inl, inr, Bool-cases, Option-cases, All,
}
use mininet_zone_segmentatio.Policy.{zone_for_ip, source_ip_valid_for_zone}
use mininet_zone_segmentatio.Conntrack.{Flow, flow_eq, check, icmp_protocol}
use mininet_zone_segmentatio.Conntrack.Origin.{is_tracked}
use mininet_zone_segmentatio.Router.Ports.{zone_of_port, is_leaf_uplink}
use mininet_zone_segmentatio.Router.Output.{learn}
use mininet_zone_segmentatio.Router.ArpHandler.{handle_arp, accept_arp, is_gateway}
use mininet_zone_segmentatio.Router.Dispatch.{by_type, by_ingress, handle_packet_in, step, run}
use mininet_zone_segmentatio.Router.Frame.{Frame-l2_forward, Frame-flood_in_zone}
use mininet_zone_segmentatio.Router.Tables.{
  Same, same, Same-connection_up, Same-retry_arp, Same-learn, Same-finish, Same-ask_firewall,
  Same-answer_arp, Same-handle_transit,
}
use mininet_zone_segmentatio.Router.{
  Arp, Next, lldp, arp_next, ip_next, other_next, Ipv4, Router, new_router, Config, PacketIn, Event,
  connection_up, packet_in, arp_timer, sweep,
}
use mininet_zone_segmentatio.Router.IpHandler.{
  tracked, ask_firewall, filter_ip, dispatch_ip, accept_ip, handle_ip,
}
use mininet_zone_segmentatio.Router.Filter.{Honest, ask_firewall-firewall_allowed}
use mininet_zone_segmentatio.Router.Connections.{
  IsOpened, AllOpened, HonestEvent, new_router-AllOpened, check-AllOpened, expire-AllOpened,
}

module _ (c : Config) where
  either :
      (b : Bool) (s t : Router)
      → AllOpened c s.conns
      → AllOpened c t.conns
      → AllOpened c (if b then s else t).conns
  either true s t x y = x
  either false s t x y = y

  kept : (r s : Router) → Same r s → AllOpened c r.conns → AllOpened c s.conns
  kept r s same h = rw same h

  filter_ip-AllOpened :
      (e : PacketIn) (p : Ipv4) (s d : String) (r : Router)
      → Honest c e
      → source_ip_valid_for_zone c.policy.zones p.srcip (some s) ≡ true
      → zone_for_ip c.policy.zones p.dstip ≡ some d
      → AllOpened c r.conns
      → AllOpened c (filter_ip c e p s d r).conns
  unfolding filter_ip
  filter_ip-AllOpened e p s d r honest valid found h =
      let icmp = p.protocol == icmp_protocol in
      let asked = ask_firewall c e s d icmp p r in
      let checked = check e.now e.later asked.1.conns asked.0 (tracked p) in
      rw (Same-finish c e p d checked.0 (record asked.1 { conns = checked.1 })) (
        check-AllOpened c e p s d asked.0 asked.1.conns valid found
          (ask_firewall-firewall_allowed c e s d icmp p r honest valid found)
          (kept r asked.1 (Same-ask_firewall c e s d icmp p r) h))

  dispatch_ip-AllOpened :
      (e : PacketIn) (p : Ipv4) (s : String) (r : Router)
      → Honest c e
      → source_ip_valid_for_zone c.policy.zones p.srcip (some s) ≡ true
      → AllOpened c r.conns
      → AllOpened c (dispatch_ip c e p s r).conns
  unfolding dispatch_ip
  dispatch_ip-AllOpened e p s r honest valid h =
      elim (Option-cases (zone_for_ip c.policy.zones p.dstip)) [
        | inl n ↦ rw (n, dispatch_ip) h
        | inr (d, n) ↦
            rw (n, dispatch_ip)
              (either (d == s) _ _ (rw (same (Frame-l2_forward c e e.packet.dst r)) h)
                (filter_ip-AllOpened e p s d r honest valid n h))
      ]

  handle_ip-AllOpened :
      (e : PacketIn) (p : Ipv4) (r : Router)
      → Honest c e
      → AllOpened c r.conns
      → AllOpened c (handle_ip c e p r).conns
  unfolding handle_ip accept_ip
  handle_ip-AllOpened e p r honest h = elim (Option-cases (zone_of_port c.maps e.dpid e.port)) [
    | inl n ↦ rw (n, handle_ip) h
    | inr (z, n) ↦
        let learned = learn c e.dpid e.port p.srcip e.packet.src z r in
        let fine = kept r learned (Same-learn c e.dpid e.port p.srcip e.packet.src z r) h in
        rw (n, handle_ip)
          (elim (Bool-cases (source_ip_valid_for_zone c.policy.zones p.srcip (some z))) [
            | inr spoofed ↦ rw spoofed h
            | inl valid ↦ rw valid (
                either (is_gateway c.policy.zones p.dstip) learned _ fine
                  (dispatch_ip-AllOpened e p z learned honest valid fine))
          ])
  ]

  handle_arp-AllOpened :
      (e : PacketIn) (a : Arp) (r : Router)
      → AllOpened c r.conns
      → AllOpened c (handle_arp c e a r).conns
  unfolding handle_arp accept_arp
  handle_arp-AllOpened e a r h = elim (Option-cases (zone_of_port c.maps e.dpid e.port)) [
    | inl n ↦ rw (n, handle_arp) h
    | inr (z, n) ↦
        let learned = learn c e.dpid e.port a.protosrc a.hwsrc z r in
        rw (n, handle_arp)
          (either (not (source_ip_valid_for_zone c.policy.zones a.protosrc (some z))) r _ h (
            rw (Same-answer_arp c a.opcode (is_gateway c.policy.zones a.protodst) e a z learned)
              (kept r learned (Same-learn c e.dpid e.port a.protosrc a.hwsrc z r) h)))
  ]

  by_type-AllOpened :
      (n : Next) (e : PacketIn) (r : Router)
      → Honest c e
      → AllOpened c r.conns
      → AllOpened c (by_type c n e r).conns
  unfolding by_type
  by_type-AllOpened lldp e r honest h = h
  by_type-AllOpened (arp_next a) e r honest h = handle_arp-AllOpened e a r h
  by_type-AllOpened (ip_next p) e r honest h = handle_ip-AllOpened e p r honest h
  by_type-AllOpened other_next e r honest h = rw (same (Frame-flood_in_zone c e r)) h

  by_ingress-AllOpened :
      (n : Next) (e : PacketIn) (r : Router)
      → Honest c e
      → AllOpened c r.conns
      → AllOpened c (by_ingress c n e r).conns
  unfolding by_ingress
  by_ingress-AllOpened lldp e r honest h = h
  by_ingress-AllOpened next e r honest h =
      either (is_leaf_uplink c.maps e.dpid e.port) _ _ (rw (Same-handle_transit c e r) h)
        (by_type-AllOpened next e r honest h)

  step-AllOpened :
      (r : Router) (e : Event)
      → HonestEvent c e
      → AllOpened c r.conns
      → AllOpened c (step c r e).conns
  unfolding step handle_packet_in
  step-AllOpened r (connection_up dpid connection) honest h =
      rw (Same-connection_up dpid connection r) h
  step-AllOpened r (packet_in e) honest h =
      either (not e.parsed) r _ h (by_ingress-AllOpened e.packet.next e r honest h)
  step-AllOpened r (arp_timer ip) honest h = rw (Same-retry_arp c ip r) h
  step-AllOpened r (sweep at) honest h = expire-AllOpened c at r.conns h

  run-AllOpened :
      (r : Router) (events : List Event)
      → All (HonestEvent c) events
      → AllOpened c r.conns
      → AllOpened c (run c r events).conns
  unfolding run
  run-AllOpened r [] honest h = h
  run-AllOpened r (e ∷ events) (first, rest) h =
      run-AllOpened (step c r e) events rest (step-AllOpened r e first h)

-- After any events, with a daemon whose answers are right for the zones of the addresses it is asked
-- for, whatever the router tracks as a connection was open to its source: the source is an address of
-- a zone and not a gateway, the destination is an address of a zone, and the policy allows the first
-- zone to reach the second with the protocol of the connection.
pub run-IsOpened :
    (c : Config) (events : List Event) (f : Flow)
    → All (HonestEvent c) events
    → is_tracked f (run c new_router events).conns ≡ true
    → IsOpened c f
run-IsOpened c events f honest inside =
    (run-AllOpened c new_router events honest (new_router-AllOpened c)).at f inside
