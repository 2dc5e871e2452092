-- ===== src/Router/Connections.antt =====
-- controller.py and conntrack.py: which connections the router's calls of the connection table open.
use mathlib.Core.Path.{subst}
use mininet_zone_segmentatio.Base.{
  ℕ, String, ◌≡◌, ◌≢◌, refl, ◌∙◌, sym, Bool, true, false, ◌||◌, Option, none, some, arith, ◌==◌,
  nat_eq, string_eq, inl, inr, Bool-cases, Option-cases,
}
use mininet_zone_segmentatio.Policy.{zone_for_ip, source_ip_valid_for_zone, firewall_allowed}
use mininet_zone_segmentatio.Conntrack.{
  Flow, flow_eq, TrackedPacket, tracked_packet, ConnectionTable, check, expire, icmp_protocol,
  tcp_protocol, udp_protocol, default_idle_timeout,
}
use mininet_zone_segmentatio.Conntrack.History
use mininet_zone_segmentatio.Conntrack.History.{checked, swept}
use mininet_zone_segmentatio.Conntrack.Origin.{is_tracked, opens, step-tracked, new_table-untracked}
use mininet_zone_segmentatio.Router.{
  Payload, ports, icmp, raw, Ipv4, new_router, Config, PacketIn, Event, packet_in,
}
use mininet_zone_segmentatio.Router.IpHandler.{tracked, tracked_ports, tracked_icmp}
use mininet_zone_segmentatio.Router.Filter.{Honest}

-- A connection that may be opened: its source is an address of the zone `zone`, and not a gateway, and
-- the policy allows that zone to reach the zone of its destination with this protocol.
pub record IsOpened (c : Config) (f : Flow) : Type 0 where
  pub zone : String
  pub target : String
  pub honest : source_ip_valid_for_zone c.policy.zones f.src (some zone) ≡ true
  pub there : zone_for_ip c.policy.zones f.dst ≡ some target
  pub allowed :
      firewall_allowed c.policy (some zone) (some target) (f.proto == icmp_protocol) ≡ true

pub record AllOpened (c : Config) (t : ConnectionTable) : Type 0 where
  pub at : (f : Flow) → is_tracked f t ≡ true → IsOpened c f

-- The daemon's answers to the questions of the event are right.
abbrev pub HonestEvent : Config → Event → Type 0
HonestEvent c (packet_in e) = Honest c e
HonestEvent c _ = Unit

pub new_router-AllOpened : (c : Config) → AllOpened c new_router.conns
unfolding new_router
new_router-AllOpened c = record {
  at = λ f inside. absurd (
      let no = new_table-untracked default_idle_timeout f in
      let bad : false ≡ true = sym no ∙ inside in cc bad);
}

-- The flow of a packet has its addresses and its protocol.
record Describes (p : Ipv4) (f : Flow) : Type 0 where
  src : f.src ≡ p.srcip
  dst : f.dst ≡ p.dstip
  proto : f.proto ≡ p.protocol

tracked_packet-Describes :
    (p : Ipv4) (sport dport : ℕ) (icmp_type : Option ℕ) (id : ℕ) (q : TrackedPacket)
    → tracked_packet p.srcip p.dstip p.protocol sport dport icmp_type id ≡ some q
    → Describes p q.flow
unfolding tracked_packet
tracked_packet-Describes p sport dport icmp_type id q h = record {
  src = ground arith;
  dst = ground arith;
  proto = ground arith;
}

tracked_ports-Describes :
    (p : Ipv4) (l : Payload) (q : TrackedPacket) → tracked_ports p l ≡ some q → Describes p q.flow
unfolding tracked_ports
tracked_ports-Describes p (ports s d) q h = tracked_packet-Describes p s d none 0 q h
tracked_ports-Describes p (icmp t k b) q h = cc h
tracked_ports-Describes p raw q h = cc h

tracked_icmp-Describes :
    (p : Ipv4) (l : Payload) (q : TrackedPacket) → tracked_icmp p l ≡ some q → Describes p q.flow
unfolding tracked_icmp
tracked_icmp-Describes p (ports s d) q h = cc h
tracked_icmp-Describes p (icmp t k b) q h = tracked_packet-Describes p 0 0 (some t) _ q h
tracked_icmp-Describes p raw q h = cc h

tracked-Describes : (p : Ipv4) (q : TrackedPacket) → tracked p ≡ some q → Describes p q.flow
unfolding tracked
tracked-Describes p q h =
    elim (Bool-cases (p.protocol == tcp_protocol || p.protocol == udp_protocol)) [
      | inl e ↦ tracked_ports-Describes p p.payload q (ground arith)
      | inr e ↦ tracked_icmp-Describes p p.payload q (ground arith)
    ]

none-opens : (now later : ℕ) (b : Bool) (f : Flow) → opens f (checked now later b none) ≢ true
unfolding opens
none-opens now later true f x = cc x
none-opens now later false f x = cc x

some-opens :
    (now later : ℕ) (b : Bool) (q : TrackedPacket) (f : Flow)
    → opens f (checked now later b (some q)) ≡ true
    → (b ≡ true) × (q.flow ≡ f)
unfolding opens
some-opens now later true q f x = (refl, ground arith)
some-opens now later false q f x = absurd (cc x)

-- The packet of an event that opens a connection was allowed, and has the flow of the connection.
opens-Describes :
    (now later : ℕ) (allowed : Bool) (p : Ipv4) (f : Flow)
    → opens f (checked now later allowed (tracked p)) ≡ true
    → (allowed ≡ true) × Describes p f
opens-Describes now later allowed p f h = elim (Option-cases (tracked p)) [
  | inl n ↦ absurd (none-opens now later allowed f (rw (← n) h))
  | inr (q, n) ↦
      let (granted, flow) = some-opens now later allowed q f (rw (← n) h) in
      (granted, subst (Describes p) flow (tracked-Describes p q n))
]

module _ (c : Config) where
  packet-IsOpened :
      (p : Ipv4) (s d : String) (f : Flow)
      → Describes p f
      → source_ip_valid_for_zone c.policy.zones p.srcip (some s) ≡ true
      → zone_for_ip c.policy.zones p.dstip ≡ some d
      → firewall_allowed c.policy (some s) (some d) (p.protocol == icmp_protocol) ≡ true
      → IsOpened c f
  packet-IsOpened p s d f has valid found allowed = record {
    zone = s;
    target = d;
    honest = rw has.src valid;
    there = rw has.dst found;
    allowed = rw has.proto allowed;
  }

  pub check-AllOpened :
      (e : PacketIn) (p : Ipv4) (s d : String) (b : Bool) (t : ConnectionTable)
      → source_ip_valid_for_zone c.policy.zones p.srcip (some s) ≡ true
      → zone_for_ip c.policy.zones p.dstip ≡ some d
      → b ≡ firewall_allowed c.policy (some s) (some d) (p.protocol == icmp_protocol)
      → AllOpened c t
      → AllOpened c (check e.now e.later t b (tracked p)).1
  unfolding History.step
  check-AllOpened e p s d b t valid found told h = record {
    at = λ f inside. elim (Bool-cases (is_tracked f t)) [
      | inl before ↦ h.at f before
      | inr fresh ↦
          let (granted, has) = opens-Describes e.now e.later b p f (
            ground (arith, step-tracked t (checked e.now e.later b (tracked p)) f inside, fresh)) in
          packet-IsOpened p s d f has valid found (sym told ∙ granted)
    ];
  }

  -- A sweep opens nothing.
  pub expire-AllOpened :
      (at : Flow → ℕ) (t : ConnectionTable) → AllOpened c t → AllOpened c (expire at t).1
  unfolding History.step opens
  expire-AllOpened at t h = record {
    at = λ f inside. h.at f (ground (arith, step-tracked t (swept at 0) f inside));
  }
