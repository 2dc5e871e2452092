-- ===== src/Router/Deliveries.antt =====
-- controller.py: what waits for an ARP reply is delivered in its order.
use mininet_zone_segmentatio.Base.{
  ℕ, ◌<◌, String, ◌≡◌, refl, ◌∙◌, ap, sym, Bool, true, false, none, some, List, [], ◌∷◌, ◌++◌, map,
  All, arith, leb, nat_eq, string_eq, lookup, lookup-erase_self, erase,
}
use mathlib.Core.Path.{ap₂}
use mathlib.Core.List.{append-nil, append_assoc, map-append}
use mininet_zone_segmentatio.Policy.{Zone, source_ip_valid_for_zone}
use mininet_zone_segmentatio.Router.{
  Location, EthAddr, Opcode, reply, Arp, arp_next, Effect, start_timer, cancel_timer, Router,
  Config, PacketIn, Event, packet_in, arp_retry_interval,
}
use mininet_zone_segmentatio.Router.Ports.{
  zone_core_ports, zone_of_port, is_leaf_uplink, core_port_for,
}
use mininet_zone_segmentatio.Router.Output.{emit, send_packet, learn}
use mininet_zone_segmentatio.Router.Pending.{
  routed_packet, forward_ip, cancel, forward_all, resolve_pending,
}
use mininet_zone_segmentatio.Router.ArpHandler.{is_gateway, answer_arp, accept_arp, handle_arp}
use mininet_zone_segmentatio.Router.Dispatch.{step, run}
use mininet_zone_segmentatio.Router.Frame.{Frame-forward_all}
use mininet_zone_segmentatio.Router.Discovery.{learn-location}
use mininet_zone_segmentatio.Router.Blocked.{learn-Quiet}
use mininet_zone_segmentatio.Router.Passing.{step-handle_arp}
use mininet_zone_segmentatio.Router.Queueing.{
  sends, who_has, Arriving, queued, hop, Unknown, Holds, Deliverable, step-opens, step-Holds,
}

forward_ip-hop :
    (c : Config) (d : String) (core : ℕ) (gw : Zone) (out : ℕ) (mac : EthAddr) (x : Arriving)
    (r : Router)
    → lookup c.maps.core_dpid r.connections ≡ some core
    → lookup d c.policy.zones ≡ some gw
    → 1 < x.packet.ttl
    → forward_ip c x.event.dpid x.event.port d x.event.packet x.packet out mac r
      ≡ record r { sent = r.sent ++ (sends core (hop gw mac x.packet) out ∷ []) }
unfolding forward_ip routed_packet send_packet emit
forward_ip-hop c d core gw out mac x r connected home ttl =
    let alive : leb x.packet.ttl 1 ≡ false = ground arith in
    rw (alive, forward_ip) (rw (connected, forward_ip) (rw (home, forward_ip) refl))

-- The hops of the packets, in their order.
abbrev pub hops : ℕ → Zone → ℕ → EthAddr → List Arriving → List Effect
hops core gw out mac = map (λ x. sends core (hop gw mac x.packet) out)

forward_all-hops :
    (c : Config) (d : String) (ip core : ℕ) (gw : Zone) (out : ℕ) (mac : EthAddr)
    (list : List Arriving) (r : Router)
    → lookup c.maps.core_dpid r.connections ≡ some core
    → lookup d c.policy.zones ≡ some gw
    → All (Deliverable c d ip) list
    → (forward_all c d out mac (map queued list) r).sent ≡ r.sent ++ hops core gw out mac list
unfolding forward_all
forward_all-hops c d ip core gw out mac [] r connected home fine = sym (append-nil r.sent)
forward_all-hops c d ip core gw out mac (x ∷ list) r connected home (fine, rest) =
    let first = sends core (hop gw mac x.packet) out ∷ [] in
    ap (λ (s : Router). (forward_all c d out mac (map queued list) s).sent)
      (forward_ip-hop c d core gw out mac x r connected home fine.2)
    ∙ forward_all-hops c d ip core gw out mac list (record r { sent = r.sent ++ first }) connected
        home rest
    ∙ append_assoc r.sent first (hops core gw out mac list)

-- An ARP reply for the address, to the gateway, from a host's port of its zone that the core reaches
-- through its port `out`.
pub record Answers (c : Config) (d : String) (ip out : ℕ) (mac : EthAddr) (e : PacketIn) (a : Arp)
    : Type 0 where
  pub parsed : e.parsed ≡ true
  pub is_arp : e.packet.next ≡ arp_next a
  pub host_port : is_leaf_uplink c.maps e.dpid e.port ≡ false
  pub port : zone_of_port c.maps e.dpid e.port ≡ some d
  pub valid : source_ip_valid_for_zone c.policy.zones a.protosrc (some d) ≡ true
  pub replies : a.opcode ≡ reply
  pub gateway : is_gateway c.policy.zones a.protodst ≡ true
  pub sender : a.protosrc ≡ ip
  pub sender_mac : a.hwsrc ≡ mac
  pub reached : core_port_for c.maps e.dpid e.port ≡ some out

answer_arp-reply :
    (c : Config) (o : Opcode) (b : Bool) (e : PacketIn) (a : Arp) (z : String) (r : Router)
    → o ≡ reply
    → b ≡ true
    → answer_arp c o b e a z r ≡ resolve_pending c a.protosrc a.hwsrc r
unfolding answer_arp
answer_arp-reply c o b e a z r is_reply gateway = rw (is_reply, gateway) refl

handle_arp-accepts :
    (c : Config) (d : String) (e : PacketIn) (a : Arp) (r : Router)
    → zone_of_port c.maps e.dpid e.port ≡ some d
    → source_ip_valid_for_zone c.policy.zones a.protosrc (some d) ≡ true
    → handle_arp c e a r ≡ accept_arp c e a d r
unfolding handle_arp
handle_arp-accepts c d e a r port valid = rw (port, handle_arp) (rw valid refl)

step-Answers :
    (c : Config) (d : String) (ip out : ℕ) (mac : EthAddr) (e : PacketIn) (a : Arp) (r : Router)
    → Answers c d ip out mac e a
    → step c r (packet_in e) ≡ resolve_pending c ip mac (learn c e.dpid e.port ip mac d r)
unfolding accept_arp
step-Answers c d ip out mac e a r h =
    step-handle_arp c e a r h.parsed h.is_arp h.host_port
    ∙ handle_arp-accepts c d e a r h.port h.valid
    ∙ answer_arp-reply c a.opcode _ e a d _ h.replies h.gateway
    ∙ ap₂ (λ (i : ℕ) (m : EthAddr). resolve_pending c i m (learn c e.dpid e.port i m d r)) h.sender
        h.sender_mac

resolve_pending-hops :
    (c : Config) (d : String) (ip core t : ℕ) (gw : Zone) (loc : Location) (mac : EthAddr)
    (list : List Arriving) (r : Router)
    → lookup c.maps.core_dpid r.connections ≡ some core
    → lookup d c.policy.zones ≡ some gw
    → lookup ip r.pending
      ≡ some (record { zone = d; queue = map queued list; retries = 1; timer = some t })
    → lookup ip r.ip_to_loc ≡ some loc
    → All (Deliverable c d ip) list
    → (let after = resolve_pending c ip mac r in
        (after.sent ≡ (r.sent ++ (cancel_timer t ∷ [])) ++ hops core gw loc.core_port mac list)
        × (lookup ip after.pending ≡ none))
unfolding resolve_pending cancel emit
resolve_pending-hops c d ip core t gw loc mac list r connected home waiting known fine =
    let stopped = record r {
      pending = erase ip r.pending;
      sent = r.sent ++ (cancel_timer t ∷ []);
    } in
    let forwarded = Frame-forward_all c d loc.core_port mac (map queued list) stopped in
    (
      rw (waiting, resolve_pending)
          (rw (known, resolve_pending)
            (forward_all-hops c d ip core gw loc.core_port mac list stopped connected home fine)),
      rw (waiting, resolve_pending)
          (rw (known, resolve_pending)
            (ap (λ (s : Router). lookup ip s.pending) forwarded.same
              ∙ lookup-erase_self ip r.pending)),
    )

-- The events that the packets come with.
abbrev pub arrivals : List Arriving → List Event
arrivals = map (λ x. packet_in x.event)

run-append :
    (c : Config) (r : Router) (events : List Event) (last : Event)
    → run c r (events ++ (last ∷ [])) ≡ step c (run c r events) last
unfolding run
run-append c r [] last = refl
run-append c r (e ∷ events) last = run-append c (step c r e) events last

run-Holds :
    (c : Config) (d : String) (core ip t : ℕ) (before list : List Arriving) (r : Router)
    → All (Deliverable c d ip) list
    → Holds c d ip core t (map queued before) r
    → (let after = run c r (arrivals list) in
        Holds c d ip core t (map queued (before ++ list)) after × (after.sent ≡ r.sent))
unfolding run
run-Holds c d core ip t before [] r fine h = rw (append-nil before) (h, refl)
run-Holds c d core ip t before (x ∷ list) r (fine, rest) h =
    let (holds, sent) = step-Holds c d core ip t (map queued before) x r fine h in
    let (last, sent') =
      run-Holds c d core ip t (before ++ (x ∷ [])) list (step c r (packet_in x.event)) rest
        (rw (map-append queued before (x ∷ [])) holds) in
    (rw (← append_assoc before (x ∷ []) list) last, sent' ∙ sent)

gather :
    (a b l : List Effect) (x y : Effect)
    → (((a ++ b) ++ (x ∷ [])) ++ (y ∷ [])) ++ l ≡ a ++ (b ++ (x ∷ y ∷ l))
gather [] [] l x y = refl
gather [] (z ∷ b) l x y = ap (λ (m : List Effect). z ∷ m) (gather [] b l x y)
gather (z ∷ a) b l x y = ap (λ (m : List Effect). z ∷ m) (gather a b l x y)

-- From a state in which the core is connected and nothing is known of an address or waits for it: any
-- number of packets for the address, one at least, that the policy allows and whose TTL is more than
-- one come in, and then the address answers the gateway with an ARP reply from a port of its zone. What
-- the router sends for all of that: the gateway's question out of each core port of the zone, once;
-- the start of one timer, and its end; and each of the packets, in the order in which they came, out
-- of the core port that leads to the host, from the gateway's MAC address to that of the reply, with a
-- TTL less by one. Nothing waits for the address any more.
pub run-delivers :
    (c : Config) (d : String) (ip core out : ℕ) (gw : Zone) (mac : EthAddr) (first : Arriving)
    (more : List Arriving) (e : PacketIn) (a : Arp) (r : Router)
    → lookup d c.policy.zones ≡ some gw
    → Unknown c ip core r
    → All (Deliverable c d ip) (first ∷ more)
    → Answers c d ip out mac e a
    → (let after = run c r (arrivals (first ∷ more) ++ (packet_in e ∷ [])) in
        (after.sent
          ≡ r.sent
            ++ (map (sends core (who_has gw ip)) (zone_core_ports c.maps (some d))
                ++ (start_timer r.timers arp_retry_interval ip
                    ∷ cancel_timer r.timers
                    ∷ hops core gw out mac (first ∷ more))))
        × (lookup ip after.pending ≡ none))
unfolding run
run-delivers c d ip core out gw mac first more e a r home u fine answers =
    let t = r.timers in
    let opened = step c r (packet_in first.event) in
    let (holds, sent) = step-opens c d core ip gw first r home fine.0 u in
    let (all, sent') = run-Holds c d core ip t (first ∷ []) more opened fine.1 holds in
    let held = run c opened (arrivals more) in
    let learned = learn c e.dpid e.port ip mac d held in
    let kept = learn-Quiet c e.dpid e.port ip mac d held in
    let (delivered, gone) =
      resolve_pending-hops c d ip core t gw (record { core_port = out; mac = mac; zone = d }) mac
        (first ∷ more) learned (ap (lookup c.maps.core_dpid) kept.connections ∙ all.connected) home
        (ap (lookup ip) kept.pending ∙ all.waiting)
        (learn-location c e.dpid e.port ip out mac d held answers.reached) fine in
    let end =
      run-append c opened (arrivals more) (packet_in e)
      ∙ step-Answers c d ip out mac e a held answers in
    let before = kept.sent ∙ sent' ∙ sent in
    (
      ap (λ (s : Router). s.sent) end
          ∙ delivered
          ∙ ap
              (λ (l : List Effect).
                (l ++ (cancel_timer t ∷ [])) ++ hops core gw out mac (first ∷ more))
              before
          ∙ gather r.sent _ _ _ _,
      ap (λ (s : Router). lookup ip s.pending) end ∙ gone,
    )
