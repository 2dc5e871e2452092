-- ===== src/Router/Passing.antt =====
-- controller.py: a packet that the policy allows reaches `_route`.
use mininet_zone_segmentatio.Base.{
  ℕ, String, ◌≡◌, ◌≢◌, refl, ◌∙◌, Bool, true, false, not, Option, none, some, arith, ◌==◌, nat_eq,
  string_eq, lookup, lookup-insert_ne, if◌then◌else◌, inl, inr, Option-cases,
}
use mininet_zone_segmentatio.Policy.{zone_for_ip, source_ip_valid_for_zone, firewall_allowed}
use mininet_zone_segmentatio.Conntrack.{ConnectionTable, TrackedPacket, check, new, icmp_protocol}
use mininet_zone_segmentatio.Router.{
  EthAddr, Arp, Ipv4, Next, arp_next, ip_next, Router, Config, PacketIn, packet_in,
}
use mininet_zone_segmentatio.Router.Ports.{zone_of_port, is_leaf_uplink, core_port_for}
use mininet_zone_segmentatio.Router.Output.{learn, learn_mac}
use mininet_zone_segmentatio.Router.ArpHandler.{is_gateway, handle_arp}
use mininet_zone_segmentatio.Router.IpHandler.{
  ask_firewall, tracked, route, finish, filter_ip, handle_ip,
}
use mininet_zone_segmentatio.Router.Dispatch.{by_type, by_ingress, handle_packet_in, step}
use mininet_zone_segmentatio.Router.Filter.{
  Honest, ask_firewall-firewall_allowed, source_ip_valid-zone_for_ip,
}
use mininet_zone_segmentatio.Router.Blocked.{handle_ip-dispatches, dispatch_ip-filters}

-- An IP packet from a host's port of another zone than `d`, with a source that passes the
-- anti-spoofing test, to a host of `d`, which the policy allows.
pub record Passes (c : Config) (d : String) (e : PacketIn) (p : Ipv4) : Type 0 where
  pub zone : String
  pub parsed : e.parsed ≡ true
  pub is_ip : e.packet.next ≡ ip_next p
  pub host_port : is_leaf_uplink c.maps e.dpid e.port ≡ false
  pub port : zone_of_port c.maps e.dpid e.port ≡ some zone
  pub valid : source_ip_valid_for_zone c.policy.zones p.srcip (some zone) ≡ true
  pub host : is_gateway c.policy.zones p.dstip ≡ false
  pub found : zone_for_ip c.policy.zones p.dstip ≡ some d
  pub other : d ≢ zone
  pub honest : Honest c e
  pub allowed : firewall_allowed c.policy (some zone) (some d) (p.protocol == icmp_protocol) ≡ true

-- Nothing was sent, and what the router knows and has queued of the address is the same.
pub record Carried (ip : ℕ) (r s : Router) : Type 0 where
  pub sent : s.sent ≡ r.sent
  pub pending : s.pending ≡ r.pending
  pub connections : s.connections ≡ r.connections
  pub timers : s.timers ≡ r.timers
  pub location : lookup ip s.ip_to_loc ≡ lookup ip r.ip_to_loc

Carried-trans : (ip : ℕ) (r s t : Router) → Carried ip r s → Carried ip s t → Carried ip r t
Carried-trans ip r s t a b = record {
  sent = b.sent ∙ a.sent;
  pending = b.pending ∙ a.pending;
  connections = b.connections ∙ a.connections;
  timers = b.timers ∙ a.timers;
  location = b.location ∙ a.location;
}

learn-Carried :
    (c : Config) (dpid port ip learned : ℕ) (mac : EthAddr) (z : String) (r : Router)
    → ip ≢ learned
    → Carried ip r (learn c dpid port learned mac z r)
unfolding learn learn_mac
learn-Carried c dpid port ip learned mac z r differ =
    elim (Option-cases (core_port_for c.maps dpid port)) [
      | inl e ↦
          rw (e, learn)
            (record {
              sent = refl;
              pending = refl;
              connections = refl;
              timers = refl;
              location = refl;
            })
      | inr (out, e) ↦
          rw (e, learn)
            (record {
              sent = refl;
              pending = refl;
              connections = refl;
              timers = refl;
              location = lookup-insert_ne ip learned _ r.ip_to_loc differ;
            })
    ]

ask_firewall-Carried :
    (c : Config) (e : PacketIn) (s d : String) (is_icmp : Bool) (p : Ipv4) (ip : ℕ) (r : Router)
    → Carried ip r (ask_firewall c e s d is_icmp p r).1
unfolding ask_firewall
ask_firewall-Carried c e s d is_icmp p ip r = record {
  sent = ground arith;
  pending = ground arith;
  connections = ground arith;
  timers = ground arith;
  location = ground arith;
}

check-allowed :
    (now later : ℕ) (t : ConnectionTable) (q : Option TrackedPacket)
    → (check now later t true q).0 ≡ some new
unfolding check
check-allowed now later t none = refl
check-allowed now later t (some q) = refl

filter_ip-routes :
    (c : Config) (e : PacketIn) (p : Ipv4) (s d : String) (r : Router)
    → (ask_firewall c e s d (p.protocol == icmp_protocol) p r).0 ≡ true
    → (q : Router) × (filter_ip c e p s d r ≡ route c e p d q) × Carried p.dstip r q
unfolding filter_ip finish
filter_ip-routes c e p s d r passed =
    let asked = (ask_firewall c e s d (p.protocol == icmp_protocol) p r).1 in
    let kept = ask_firewall-Carried c e s d (p.protocol == icmp_protocol) p p.dstip r in
    (
      record asked { conns = (check e.now e.later asked.conns true (tracked p)).1 },
      rw (passed, check-allowed e.now e.later asked.conns (tracked p)) refl,
      record {
        sent = kept.sent;
        pending = kept.pending;
        connections = kept.connections;
        timers = kept.timers;
        location = kept.location;
      },
    )

by_ingress-ip :
    (c : Config) (e : PacketIn) (p : Ipv4) (r : Router) (b : Bool) (n : Next)
    → b ≡ true
    → n ≡ ip_next p
    → is_leaf_uplink c.maps e.dpid e.port ≡ false
    → (if not b then r else by_ingress c n e r) ≡ handle_ip c e p r
unfolding by_ingress by_type
by_ingress-ip c e p r b n parsed is_ip host_port = rw (parsed, is_ip, host_port) refl

by_ingress-arp :
    (c : Config) (e : PacketIn) (a : Arp) (r : Router) (b : Bool) (n : Next)
    → b ≡ true
    → n ≡ arp_next a
    → is_leaf_uplink c.maps e.dpid e.port ≡ false
    → (if not b then r else by_ingress c n e r) ≡ handle_arp c e a r
unfolding by_ingress by_type
by_ingress-arp c e a r b n parsed is_arp host_port = rw (parsed, is_arp, host_port) refl

-- A parsed ARP packet that comes from a host's port.
pub step-handle_arp :
    (c : Config) (e : PacketIn) (a : Arp) (r : Router)
    → e.parsed ≡ true
    → e.packet.next ≡ arp_next a
    → is_leaf_uplink c.maps e.dpid e.port ≡ false
    → step c r (packet_in e) ≡ handle_arp c e a r
unfolding step handle_packet_in
step-handle_arp c e a r = by_ingress-arp c e a r e.parsed e.packet.next

step-handle_ip :
    (c : Config) (e : PacketIn) (p : Ipv4) (r : Router)
    → e.parsed ≡ true
    → e.packet.next ≡ ip_next p
    → is_leaf_uplink c.maps e.dpid e.port ≡ false
    → step c r (packet_in e) ≡ handle_ip c e p r
unfolding step handle_packet_in
step-handle_ip c e p r = by_ingress-ip c e p r e.parsed e.packet.next

-- The sender is learned, the firewall asked, and the packet routed.
pub step-Passes :
    (c : Config) (d : String) (e : PacketIn) (p : Ipv4) (r : Router)
    → Passes c d e p
    → (q : Router) × (step c r (packet_in e) ≡ route c e p d q) × Carried p.dstip r q
step-Passes c d e p r h =
    let learned = learn c e.dpid e.port p.srcip e.packet.src h.zone r in
    let differ : p.dstip ≢ p.srcip = λ same. h.other (
      ground (arith, h.found, source_ip_valid-zone_for_ip c.policy.zones p.srcip h.zone h.valid)) in
    let passed =
      ask_firewall-firewall_allowed c e h.zone d (p.protocol == icmp_protocol) p learned h.honest
        h.valid h.found
      ∙ h.allowed in
    let (q, routed, kept) = filter_ip-routes c e p h.zone d learned passed in
    (
      q,
      step-handle_ip c e p r h.parsed h.is_ip h.host_port
          ∙ handle_ip-dispatches c e p h.zone r h.port h.valid h.host
          ∙ dispatch_ip-filters c e p h.zone d learned h.found h.other
          ∙ routed,
      Carried-trans p.dstip r learned q
          (learn-Carried c e.dpid e.port p.dstip p.srcip e.packet.src h.zone r differ) kept,
    )
