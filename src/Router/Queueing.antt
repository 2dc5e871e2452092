-- ===== src/Router/Queueing.antt =====
-- controller.py: packets to a host of which the router does not know the location wait in their order.
use mininet_zone_segmentatio.Base.{
  ℕ, ◌-◌, ◌<◌, String, ◌≡◌, refl, ◌∙◌, ap, sym, none, some, List, [], ◌∷◌, ◌++◌, map, nat_eq,
  string_eq, lookup, lookup-insert_self, insert,
}
use mathlib.Core.Path.{ap₂}
use mathlib.Core.List.{append-nil, append_assoc}
use mininet_zone_segmentatio.Policy.{Zone}
use mininet_zone_segmentatio.Router.{
  EthAddr, ether_broadcast, request, Ipv4, arp_next, ip_next, Ethernet, packed, output, packet_out,
  Effect, send, start_timer, Queued, Entry, Router, Config, PacketIn, packet_in, arp_retry_interval,
}
use mininet_zone_segmentatio.Router.Ports.{zone_core_ports}
use mininet_zone_segmentatio.Router.Output.{emit, send_packet, each_port, probe, send_arp_probe}
use mininet_zone_segmentatio.Router.Pending.{open_entry, entry_for, queue_and_resolve}
use mininet_zone_segmentatio.Router.IpHandler.{route}
use mininet_zone_segmentatio.Router.Dispatch.{step}
use mininet_zone_segmentatio.Router.Frame.{Frame-send_arp_probe}
use mininet_zone_segmentatio.Router.Passing.{Passes, step-Passes}

-- The message that carries a packet out of a port.
abbrev pub sends : ℕ → Ethernet → ℕ → Effect
sends connection eth port = send connection (packet_out (packed eth) (output port ∷ []))

each_port-sends :
    (connection : ℕ) (eth : Ethernet) (list : List ℕ) (r : Router)
    → (each_port (send_packet connection eth) list r).sent
      ≡ r.sent ++ map (sends connection eth) list
unfolding each_port send_packet emit
each_port-sends connection eth [] r = sym (append-nil r.sent)
each_port-sends connection eth (port ∷ list) r =
    each_port-sends connection eth list (send_packet connection eth port r)
    ∙ append_assoc r.sent (sends connection eth port ∷ []) (map (sends connection eth) list)

-- The question of a gateway for an address.
abbrev pub who_has : Zone → ℕ → Ethernet
who_has gw ip = record {
  src = gw.gateway_mac;
  dst = ether_broadcast;
  next = arp_next (record {
    opcode = request;
    hwsrc = gw.gateway_mac;
    hwdst = ether_broadcast;
    protosrc = gw.gateway;
    protodst = ip;
  });
}

send_arp_probe-sends :
    (c : Config) (d : String) (ip core : ℕ) (gw : Zone) (r : Router)
    → lookup c.maps.core_dpid r.connections ≡ some core
    → lookup d c.policy.zones ≡ some gw
    → (send_arp_probe c ip d r).sent
      ≡ r.sent ++ map (sends core (who_has gw ip)) (zone_core_ports c.maps (some d))
unfolding send_arp_probe probe
send_arp_probe-sends c d ip core gw r connected home =
    rw (connected, send_arp_probe)
      (rw (home, send_arp_probe)
        (each_port-sends core (who_has gw ip) (zone_core_ports c.maps (some d)) r))

-- A packet, and the event that brings it.
pub record Arriving : Type 0 where
  pub event : PacketIn
  pub packet : Ipv4

abbrev pub queued : Arriving → Queued
queued x = record {
  orig_dpid = x.event.dpid;
  orig_port = x.event.port;
  packet = x.event.packet;
  ip_pkt = x.packet;
}

-- The packet as a router sends it on: from the gateway to the host, with one hop less to live.
abbrev pub hop : Zone → EthAddr → Ipv4 → Ethernet
hop gw mac p = record {
  src = gw.gateway_mac;
  dst = mac;
  next = ip_next (record p { ttl = p.ttl - 1 });
}

-- The core is connected, and the router neither knows where the address is nor waits for it.
pub record Unknown (c : Config) (ip core : ℕ) (r : Router) : Type 0 where
  pub connected : lookup c.maps.core_dpid r.connections ≡ some core
  pub unknown : lookup ip r.ip_to_loc ≡ none
  pub nothing : lookup ip r.pending ≡ none

-- The router waits for the address, with a queue of packets.
pub record Holds (c : Config) (d : String) (ip core t : ℕ) (queue : List Queued) (r : Router)
    : Type 0 where
  pub connected : lookup c.maps.core_dpid r.connections ≡ some core
  pub unknown : lookup ip r.ip_to_loc ≡ none
  pub waiting :
      lookup ip r.pending ≡ some (record { zone = d; queue = queue; retries = 1; timer = some t })

queue_and_resolve-opens :
    (c : Config) (d : String) (core t : ℕ) (gw : Zone) (before : List Effect) (e : PacketIn)
    (p : Ipv4) (r : Router)
    → lookup d c.policy.zones ≡ some gw
    → Unknown c p.dstip core r
    → r.timers ≡ t
    → r.sent ≡ before
    → (let after = queue_and_resolve c e.dpid e.port e.packet p d r in
        Holds c d p.dstip core t (queued (record { event = e; packet = p }) ∷ []) after
        × (after.sent
            ≡ (before ++ map (sends core (who_has gw p.dstip)) (zone_core_ports c.maps (some d)))
              ++ (start_timer t arp_retry_interval p.dstip ∷ [])))
unfolding queue_and_resolve entry_for open_entry emit
queue_and_resolve-opens c d core t gw before e p r home u is_timer is_sent =
    let entry : Entry = record { zone = d; queue = []; retries = 1; timer = none } in
    let stored = record r { pending = insert p.dstip entry r.pending } in
    let probed = send_arp_probe c p.dstip d stored in
    let probes = map (sends core (who_has gw p.dstip)) (zone_core_ports c.maps (some d)) in
    let same = (Frame-send_arp_probe c p.dstip d stored).same in
    let timers : probed.timers ≡ t = ap (λ (s : Router). s.timers) same ∙ is_timer in
    (
      rw (u.nothing, entry_for)
          (record {
            connected =
                ap (λ (s : Router). lookup c.maps.core_dpid s.connections) same ∙ u.connected;
            unknown = ap (λ (s : Router). lookup p.dstip s.ip_to_loc) same ∙ u.unknown;
            waiting =
                lookup-insert_self p.dstip _ probed.pending
                ∙ ap
                    (λ (n : ℕ). some (record {
                      zone = d;
                      queue = queued (record { event = e; packet = p }) ∷ [];
                      retries = 1;
                      timer = some n;
                    }))
                    timers;
          }),
      rw (u.nothing, queue_and_resolve, entry_for)
          (ap₂ (λ (l : List Effect) (n : ℕ). l ++ (start_timer n arp_retry_interval p.dstip ∷ []))
            (send_arp_probe-sends c d p.dstip core gw stored u.connected home
              ∙ ap (λ (l : List Effect). l ++ probes) is_sent)
            timers),
    )

queue_and_resolve-Holds :
    (c : Config) (d : String) (core t : ℕ) (queue : List Queued) (e : PacketIn) (p : Ipv4)
    (r : Router)
    → Holds c d p.dstip core t queue r
    → (let after = queue_and_resolve c e.dpid e.port e.packet p d r in
        Holds c d p.dstip core t (queue ++ (queued (record { event = e; packet = p }) ∷ [])) after
        × (after.sent ≡ r.sent))
unfolding queue_and_resolve entry_for
queue_and_resolve-Holds c d core t queue e p r h = (
  rw (h.waiting, entry_for)
      (record {
        connected = h.connected;
        unknown = h.unknown;
        waiting = lookup-insert_self p.dstip _ r.pending;
      }),
  rw (h.waiting, queue_and_resolve, entry_for) refl,
)

-- A packet that the router can send on to the address.
abbrev pub Deliverable : Config → String → ℕ → Arriving → Type 0
Deliverable c d ip x = Passes c d x.event x.packet × (x.packet.dstip ≡ ip) × (1 < x.packet.ttl)

route-unknown :
    (c : Config) (d : String) (e : PacketIn) (p : Ipv4) (r : Router)
    → lookup p.dstip r.ip_to_loc ≡ none
    → route c e p d r ≡ queue_and_resolve c e.dpid e.port e.packet p d r
unfolding route
route-unknown c d e p r unknown = rw (unknown, route) refl

module _ (c : Config) (d : String) (core : ℕ) where
  pub step-opens :
      (ip : ℕ) (gw : Zone) (x : Arriving) (r : Router)
      → lookup d c.policy.zones ≡ some gw
      → Deliverable c d ip x
      → Unknown c ip core r
      → (let after = step c r (packet_in x.event) in
          Holds c d ip core r.timers (queued x ∷ []) after
          × (after.sent
              ≡ (r.sent ++ map (sends core (who_has gw ip)) (zone_core_ports c.maps (some d)))
                ++ (start_timer r.timers arp_retry_interval ip ∷ [])))
  step-opens ip gw x r home (passes, same, ttl) = rw (← same) (λ u.
      let (q, routed, kept) = step-Passes c d x.event x.packet r passes in
      let unknown = kept.location ∙ u.unknown in
      rw (routed ∙ route-unknown c d x.event x.packet q unknown) (
        queue_and_resolve-opens c d core r.timers gw r.sent x.event x.packet q home
          (record {
            connected = ap (lookup c.maps.core_dpid) kept.connections ∙ u.connected;
            unknown = unknown;
            nothing = ap (lookup x.packet.dstip) kept.pending ∙ u.nothing;
          })
          kept.timers kept.sent))

  pub step-Holds :
      (ip t : ℕ) (queue : List Queued) (x : Arriving) (r : Router)
      → Deliverable c d ip x
      → Holds c d ip core t queue r
      → (let after = step c r (packet_in x.event) in
          Holds c d ip core t (queue ++ (queued x ∷ [])) after × (after.sent ≡ r.sent))
  step-Holds ip t queue x r (passes, same, ttl) = rw (← same) (λ h.
      let (q, routed, kept) = step-Passes c d x.event x.packet r passes in
      let unknown = kept.location ∙ h.unknown in
      let (holds, sent) = queue_and_resolve-Holds c d core t queue x.event x.packet q (record {
        connected = ap (lookup c.maps.core_dpid) kept.connections ∙ h.connected;
        unknown = unknown;
        waiting = ap (lookup x.packet.dstip) kept.pending ∙ h.waiting;
      }) in
      let there = routed ∙ route-unknown c d x.event x.packet q unknown in
      (rw there holds, ap (λ (s : Router). s.sent) there ∙ sent ∙ kept.sent))
