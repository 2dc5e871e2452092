-- ===== src/Router/Queues.antt =====
-- controller.py: through every event, what waits for an ARP reply is fit to be sent or rejected.
use mininet_zone_segmentatio.Base.{
  ℕ, String, ◌≡◌, refl, Bool, true, false, not, Option, none, some, List, [], ◌∷◌, arith, ◌==◌,
  nat_eq, string_eq, lookup, lookup-nil, if◌then◌else◌, inl, inr, Option-cases,
}
use mininet_zone_segmentatio.Policy.{zone_for_ip, source_ip_valid_for_zone}
use mininet_zone_segmentatio.Conntrack.{Verdict, icmp_protocol}
use mininet_zone_segmentatio.Router.{
  EthAddr, Ipv4, Arp, Opcode, request, reply, other_opcode, Next, lldp, arp_next, ip_next,
  other_next, Entry, Router, new_router, Config, PacketIn, Event, connection_up, packet_in,
  arp_timer, sweep,
}
use mininet_zone_segmentatio.Router.Ports.{zone_of_port, core_port_for, is_leaf_uplink}
use mininet_zone_segmentatio.Router.Output.{learn, learn_mac}
use mininet_zone_segmentatio.Router.ArpHandler.{answer_arp, accept_arp, handle_arp, is_gateway}
use mininet_zone_segmentatio.Router.IpHandler.{
  ask_firewall, finish, filter_ip, route, dispatch_ip, accept_ip, handle_ip,
}
use mininet_zone_segmentatio.Router.Dispatch.{
  handle_connection_up, handle_transit, by_type, by_ingress, handle_packet_in, step, run,
}
use mininet_zone_segmentatio.Router.Frame.{
  Frame-send_arp_reply, Frame-flood_in_zone, Frame-l2_forward, Frame-install_drop_flow,
  Frame-route_known,
}
use mininet_zone_segmentatio.Router.Waiting.{IsWaiting, AllWaiting, Kept, Kept-sent, carry, by_kept}
use mininet_zone_segmentatio.Router.Resolving.{
  resolve_pending-AllWaiting, retry_arp-AllWaiting, queue_and_resolve-AllWaiting,
}

Kept-if : (b : Bool) (r s t : Router) → Kept r s → Kept r t → Kept r (if b then s else t)
Kept-if true r s t x y = x
Kept-if false r s t x y = y

module _ (c : Config) where
  either :
      (b : Bool) (s t : Router)
      → AllWaiting c s
      → AllWaiting c t
      → AllWaiting c (if b then s else t)
  either true s t x y = x
  either false s t x y = y

  route-AllWaiting :
      (e : PacketIn) (p : Ipv4) (z : String) (r : Router)
      → zone_for_ip c.policy.zones p.dstip ≡ some z
      → AllWaiting c r
      → AllWaiting c (route c e p z r)
  unfolding route
  route-AllWaiting e p z r found h = elim (Option-cases (lookup p.dstip r.ip_to_loc)) [
    | inl n ↦ rw (n, route) (queue_and_resolve-AllWaiting c e.dpid e.port e.packet p z r found h)
    | inr (loc, n) ↦ rw (n, route) (by_kept c r _ (Frame-route_known c e p z loc r) h)
  ]

  finish-AllWaiting :
      (e : PacketIn) (p : Ipv4) (z : String) (v : Option Verdict) (r : Router)
      → zone_for_ip c.policy.zones p.dstip ≡ some z
      → AllWaiting c r
      → AllWaiting c (finish c e p z v r)
  unfolding finish
  finish-AllWaiting e p z none r found h = by_kept c r _ (Frame-install_drop_flow c e r) h
  finish-AllWaiting e p z (some v) r found h = route-AllWaiting e p z r found h

  Kept-ask_firewall :
      (e : PacketIn) (s d : String) (i : Bool) (p : Ipv4) (r : Router)
      → Kept r (ask_firewall c e s d i p r).1
  unfolding ask_firewall
  Kept-ask_firewall e s d i p r = Kept-sent r _ (ground arith) (ground arith) (ground arith)

  filter_ip-AllWaiting :
      (e : PacketIn) (p : Ipv4) (s d : String) (r : Router)
      → zone_for_ip c.policy.zones p.dstip ≡ some d
      → AllWaiting c r
      → AllWaiting c (filter_ip c e p s d r)
  unfolding filter_ip
  filter_ip-AllWaiting e p s d r found h =
      let asked = (ask_firewall c e s d (p.protocol == icmp_protocol) p r).1 in
      let fine = carry c r asked (Kept-ask_firewall e s d (p.protocol == icmp_protocol) p r) h in
      finish-AllWaiting e p d _ _ found (carry c asked _ (Kept-sent asked _ refl refl refl) fine)

  dispatch_ip-AllWaiting :
      (e : PacketIn) (p : Ipv4) (s : String) (r : Router)
      → AllWaiting c r
      → AllWaiting c (dispatch_ip c e p s r)
  unfolding dispatch_ip
  dispatch_ip-AllWaiting e p s r h = elim (Option-cases (zone_for_ip c.policy.zones p.dstip)) [
    | inl n ↦ rw (n, dispatch_ip) h
    | inr (d, n) ↦
        rw (n, dispatch_ip)
          (either (d == s) _ _ (by_kept c r _ (Frame-l2_forward c e e.packet.dst r) h)
            (filter_ip-AllWaiting e p s d r n h))
  ]

  learn-Kept :
      (dpid port ip : ℕ) (mac : EthAddr) (z : String) (r : Router)
      → Kept r (learn c dpid port ip mac z r)
  unfolding learn learn_mac
  learn-Kept dpid port ip mac z r = elim (Option-cases (core_port_for c.maps dpid port)) [
    | inl e ↦ rw (e, learn) (Kept-sent r _ refl refl refl)
    | inr (out, e) ↦ rw (e, learn) (Kept-sent r _ refl refl refl)
  ]

  handle_ip-AllWaiting :
      (e : PacketIn) (p : Ipv4) (r : Router) → AllWaiting c r → AllWaiting c (handle_ip c e p r)
  unfolding handle_ip accept_ip
  handle_ip-AllWaiting e p r h = elim (Option-cases (zone_of_port c.maps e.dpid e.port)) [
    | inl n ↦ rw (n, handle_ip) h
    | inr (z, n) ↦
        let learned = learn c e.dpid e.port p.srcip e.packet.src z r in
        let fine : AllWaiting c learned =
          carry c r learned (learn-Kept e.dpid e.port p.srcip e.packet.src z r) h in
        rw (n, handle_ip)
          (either (not (source_ip_valid_for_zone c.policy.zones p.srcip (some z))) r _ h (
            either (is_gateway c.policy.zones p.dstip) learned _ fine
              (dispatch_ip-AllWaiting e p z learned fine)))
  ]

  answer_arp-AllWaiting :
      (o : Opcode) (g : Bool) (e : PacketIn) (a : Arp) (s : String) (r : Router)
      → AllWaiting c r
      → AllWaiting c (answer_arp c o g e a s r)
  unfolding answer_arp
  answer_arp-AllWaiting request true e a s r h =
      by_kept c r _ (Frame-send_arp_reply _ _ _ _ _ _ r) h
  answer_arp-AllWaiting request false e a s r h = by_kept c r _ (Frame-flood_in_zone c e r) h
  answer_arp-AllWaiting reply true e a s r h = resolve_pending-AllWaiting c a.protosrc a.hwsrc r h
  answer_arp-AllWaiting reply false e a s r h = by_kept c r _ (Frame-flood_in_zone c e r) h
  answer_arp-AllWaiting other_opcode true e a s r h = by_kept c r _ (Frame-flood_in_zone c e r) h
  answer_arp-AllWaiting other_opcode false e a s r h = by_kept c r _ (Frame-flood_in_zone c e r) h

  handle_arp-AllWaiting :
      (e : PacketIn) (a : Arp) (r : Router) → AllWaiting c r → AllWaiting c (handle_arp c e a r)
  unfolding handle_arp accept_arp
  handle_arp-AllWaiting e a r h = elim (Option-cases (zone_of_port c.maps e.dpid e.port)) [
    | inl n ↦ rw (n, handle_arp) h
    | inr (z, n) ↦
        rw (n, handle_arp)
          (either (not (source_ip_valid_for_zone c.policy.zones a.protosrc (some z))) r _ h (
            answer_arp-AllWaiting a.opcode (is_gateway c.policy.zones a.protodst) e a z _
              (carry c r _ (learn-Kept e.dpid e.port a.protosrc a.hwsrc z r) h)))
  ]

  handle_transit-AllWaiting :
      (e : PacketIn) (r : Router) → AllWaiting c r → AllWaiting c (handle_transit c e r)
  unfolding handle_transit learn_mac
  handle_transit-AllWaiting e r h =
      let learned : AllWaiting c (learn_mac e.dpid e.packet.src e.port r) =
        carry c r _ (Kept-sent r _ refl refl refl) h in
      either (c.is_multicast e.packet.dst) _ _
        (by_kept c (learn_mac e.dpid e.packet.src e.port r) _ (Frame-flood_in_zone c e _) learned)
        (by_kept c (learn_mac e.dpid e.packet.src e.port r) _ (Frame-l2_forward c e e.packet.dst _)
          learned)

  by_type-AllWaiting :
      (n : Next) (e : PacketIn) (r : Router) → AllWaiting c r → AllWaiting c (by_type c n e r)
  unfolding by_type
  by_type-AllWaiting lldp e r h = h
  by_type-AllWaiting (arp_next a) e r h = handle_arp-AllWaiting e a r h
  by_type-AllWaiting (ip_next p) e r h = handle_ip-AllWaiting e p r h
  by_type-AllWaiting other_next e r h = by_kept c r _ (Frame-flood_in_zone c e r) h

  by_ingress-AllWaiting :
      (n : Next) (e : PacketIn) (r : Router) → AllWaiting c r → AllWaiting c (by_ingress c n e r)
  unfolding by_ingress
  by_ingress-AllWaiting lldp e r h = h
  by_ingress-AllWaiting next e r h =
      either (is_leaf_uplink c.maps e.dpid e.port) _ _ (handle_transit-AllWaiting e r h)
        (by_type-AllWaiting next e r h)

  connection_up-Kept :
      (dpid connection : ℕ) (r : Router) → Kept r (handle_connection_up dpid connection r)
  unfolding handle_connection_up
  connection_up-Kept dpid connection r = Kept-sent r _ (ground arith) (ground arith) (ground arith)

  step-AllWaiting : (r : Router) (e : Event) → AllWaiting c r → AllWaiting c (step c r e)
  unfolding step handle_packet_in
  step-AllWaiting r (connection_up dpid connection) h =
      carry c r _ (connection_up-Kept dpid connection r) h
  step-AllWaiting r (packet_in e) h =
      either (not e.parsed) r _ h (by_ingress-AllWaiting e.packet.next e r h)
  step-AllWaiting r (arp_timer ip) h = retry_arp-AllWaiting c ip r h
  step-AllWaiting r (sweep at) h = carry c r _ (Kept-sent r _ refl refl refl) h

  run-AllWaiting :
      (r : Router) (events : List Event) → AllWaiting c r → AllWaiting c (run c r events)
  unfolding run
  run-AllWaiting r [] h = h
  run-AllWaiting r (e ∷ events) h = run-AllWaiting (step c r e) events (step-AllWaiting r e h)

-- After any events, every entry that waits for an ARP reply holds a timer that runs: of all that the
-- controller did with this timer, the last is that it was started, with the interval of the probes and
-- for this address. The retries of the entry count from one to three, its zone is the zone of the
-- address, and every packet in its queue is for that address.
pub run-IsWaiting :
    (c : Config) (events : List Event) (ip : ℕ) (entry : Entry)
    → lookup ip (run c new_router events).pending ≡ some entry
    → IsWaiting c (run c new_router events) ip entry
run-IsWaiting c events ip entry found =
    (run-AllWaiting c new_router events
        (unfold new_router in record { at = λ j e n. cc (lookup-nil {V = Entry} j) })).at
      ip entry found
