-- ===== src/Router/Blocked.antt =====
-- controller.py: all that a packet causes which the policy blocks and which answers no connection.
use mininet_zone_segmentatio.Base.{
  ℕ, String, ◌≡◌, ◌≢◌, refl, ◌∙◌, ap, Bool, true, false, Option, none, some, List, [], ◌∷◌, ◌++◌,
  arith, ◌==◌, nat_eq, string_eq, if◌then◌else◌, inl, inr, Bool-cases, Option-cases,
}
use mininet_zone_segmentatio.Policy.{zone_for_ip, source_ip_valid_for_zone, firewall_allowed}
use mininet_zone_segmentatio.Conntrack.{
  ConnectionTable, TrackedPacket, check, is_reply, icmp_protocol,
}
use mininet_zone_segmentatio.Router.{
  EthAddr, Ipv4, flow_mod, Effect, send, Router, Config, PacketIn, drop_flow_idle_timeout,
  drop_flow_hard_timeout,
}
use mininet_zone_segmentatio.Router.Ports.{zone_of_port, core_port_for}
use mininet_zone_segmentatio.Router.Output.{emit, learn, learn_mac}
use mininet_zone_segmentatio.Router.ArpHandler.{is_gateway}
use mininet_zone_segmentatio.Router.IpHandler.{
  ask_firewall, tracked, install_drop_flow, finish, filter_ip, dispatch_ip, accept_ip, handle_ip,
}
use mininet_zone_segmentatio.Router.Filter.{Honest, ask_firewall-firewall_allowed}

-- Nothing was sent, queued, connected or tracked.
pub record Quiet (r s : Router) : Type 0 where
  pub sent : s.sent ≡ r.sent
  pub pending : s.pending ≡ r.pending
  pub connections : s.connections ≡ r.connections
  pub conns : s.conns ≡ r.conns
  pub timers : s.timers ≡ r.timers

pub learn-Quiet :
    (c : Config) (dpid port ip : ℕ) (mac : EthAddr) (z : String) (r : Router)
    → Quiet r (learn c dpid port ip mac z r)
unfolding learn learn_mac
learn-Quiet c dpid port ip mac z r = elim (Option-cases (core_port_for c.maps dpid port)) [
  | inl e ↦
      rw (e, learn)
        (record { sent = refl; pending = refl; connections = refl; conns = refl; timers = refl })
  | inr (out, e) ↦
      rw (e, learn)
        (record { sent = refl; pending = refl; connections = refl; conns = refl; timers = refl })
]

-- Asking the firewall changes the flag of its warning at most.
ask_firewall-same :
    (c : Config) (e : PacketIn) (s d : String) (is_icmp : Bool) (p : Ipv4) (r : Router)
    → (let after = (ask_firewall c e s d is_icmp p r).1 in
        after ≡ record r { fw_fallback_warned = after.fw_fallback_warned })
unfolding ask_firewall
ask_firewall-same c e s d is_icmp p r = elim (Bool-cases c.use_cpp_firewall) [
  | inr python ↦ rw python refl
  | inl daemon ↦
      elim (Option-cases (e.daemon p.srcip p.dstip (if is_icmp then icmp_protocol else 0))) [
        | inl failed ↦ rw (daemon, failed) refl
        | inr (allowed, told) ↦ rw (daemon, told) refl
      ]
]

-- A check that passes nothing leaves the table as it is.
check-none :
    (now later : ℕ) (t : ConnectionTable) (q : Option TrackedPacket)
    → (check now later t false q).0 ≡ none
    → (check now later t false q).1 ≡ t
unfolding check is_reply
check-none now later t none h = refl
check-none now later t (some q) h = ground arith

-- The rule that drops the packets with these headers that come from the same port.
abbrev pub drop_rule : PacketIn → Effect
drop_rule e = send e.connection (
    flow_mod (record { in_port = some e.port; headers = e.packet }) drop_flow_idle_timeout
      drop_flow_hard_timeout [] none)

-- The rule is all that was sent; nothing is queued, connected or tracked, and no timer is made; the
-- hosts and locations that are known are those of `learned`.
pub record Dropped (e : PacketIn) (r learned s : Router) : Type 0 where
  pub sent : s.sent ≡ r.sent ++ (drop_rule e ∷ [])
  pub pending : s.pending ≡ r.pending
  pub connections : s.connections ≡ r.connections
  pub conns : s.conns ≡ r.conns
  pub timers : s.timers ≡ r.timers
  pub mac_table : s.mac_table ≡ learned.mac_table
  pub ip_to_loc : s.ip_to_loc ≡ learned.ip_to_loc

filter_ip-drops :
    (c : Config) (e : PacketIn) (p : Ipv4) (s d : String) (r : Router)
    → (ask_firewall c e s d (p.protocol == icmp_protocol) p r).0 ≡ false
    → (check e.now e.later r.conns false (tracked p)).0 ≡ none
    → Dropped e r r (filter_ip c e p s d r)
unfolding filter_ip finish install_drop_flow emit
filter_ip-drops c e p s d r blocked unknown =
    let same = ask_firewall-same c e s d (p.protocol == icmp_protocol) p r in
    let conns = ap (λ (q : Router). q.conns) same in
    rw (blocked, conns, unknown)
      (record {
        sent = ap (λ (q : Router). q.sent ++ (drop_rule e ∷ [])) same;
        pending = ap (λ (q : Router). q.pending) same;
        connections = ap (λ (q : Router). q.connections) same;
        conns = check-none e.now e.later r.conns (tracked p) unknown;
        timers = ap (λ (q : Router). q.timers) same;
        mac_table = ap (λ (q : Router). q.mac_table) same;
        ip_to_loc = ap (λ (q : Router). q.ip_to_loc) same;
      })

Dropped-Quiet : {e : PacketIn} {q r s : Router} → Quiet q r → Dropped e r r s → Dropped e q r s
Dropped-Quiet {e} quiet d = record {
  sent = d.sent ∙ ap (λ (l : List Effect). l ++ (drop_rule e ∷ [])) quiet.sent;
  pending = d.pending ∙ quiet.pending;
  connections = d.connections ∙ quiet.connections;
  conns = d.conns ∙ quiet.conns;
  timers = d.timers ∙ quiet.timers;
  mac_table = d.mac_table;
  ip_to_loc = d.ip_to_loc;
}

pub dispatch_ip-filters :
    (c : Config) (e : PacketIn) (p : Ipv4) (s d : String) (r : Router)
    → zone_for_ip c.policy.zones p.dstip ≡ some d
    → d ≢ s
    → dispatch_ip c e p s r ≡ filter_ip c e p s d r
unfolding dispatch_ip
dispatch_ip-filters c e p s d r found other =
    let differ : (d == s) ≡ false = ground arith in rw (found, dispatch_ip) (rw differ refl)

pub handle_ip-dispatches :
    (c : Config) (e : PacketIn) (p : Ipv4) (s : String) (r : Router)
    → zone_of_port c.maps e.dpid e.port ≡ some s
    → source_ip_valid_for_zone c.policy.zones p.srcip (some s) ≡ true
    → is_gateway c.policy.zones p.dstip ≡ false
    → handle_ip c e p r ≡ dispatch_ip c e p s (learn c e.dpid e.port p.srcip e.packet.src s r)
unfolding handle_ip accept_ip
handle_ip-dispatches c e p s r port valid host = rw (port, handle_ip) (rw (valid, host) refl)

-- An IP packet from zone `s`, with a source that passes the anti-spoofing test, to a host of another
-- zone `d`, which the policy blocks, and which the connection table does not pass as a reply: all
-- that is sent is one rule, at the switch that it came in on, that drops the packets like it. It is
-- not forwarded or queued, no connection is tracked, and of the router's state nothing changes but
-- the location and port learned of its sender, and the flag that a failure of the daemon was
-- logged; the daemon, if it is asked and answers, is taken to answer what the policy decides.
pub handle_ip-Dropped :
    (c : Config) (e : PacketIn) (p : Ipv4) (s d : String) (r : Router)
    → Honest c e
    → zone_of_port c.maps e.dpid e.port ≡ some s
    → source_ip_valid_for_zone c.policy.zones p.srcip (some s) ≡ true
    → is_gateway c.policy.zones p.dstip ≡ false
    → zone_for_ip c.policy.zones p.dstip ≡ some d
    → d ≢ s
    → firewall_allowed c.policy (some s) (some d) (p.protocol == icmp_protocol) ≡ false
    → (check e.now e.later r.conns false (tracked p)).0 ≡ none
    → Dropped e r (learn c e.dpid e.port p.srcip e.packet.src s r) (handle_ip c e p r)
handle_ip-Dropped c e p s d r honest port valid host found other blocked unknown =
    let quiet = learn-Quiet c e.dpid e.port p.srcip e.packet.src s r in
    let learned = learn c e.dpid e.port p.srcip e.packet.src s r in
    let denied =
      ask_firewall-firewall_allowed c e s d (p.protocol == icmp_protocol) p learned honest valid
        found
      ∙ blocked in
    rw
      (
        handle_ip-dispatches c e p s r port valid host,
        dispatch_ip-filters c e p s d learned found other,
      )
      (Dropped-Quiet quiet (filter_ip-drops c e p s d learned denied (rw quiet.conns unknown)))
