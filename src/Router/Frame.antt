-- ===== src/Router/Frame.antt =====
-- controller.py: the functions that only send messages leave the rest of `ZoneRouter` as it is.
use mininet_zone_segmentatio.Base.{
  ℕ, String, ◌≡◌, refl, ◌∙◌, Bool, true, false, Option, none, some, inl, inr, ap, Option-cases,
  Bool-cases, List, [], ◌∷◌, leb, ltb, ◌==◌, nat_eq, string_eq, lookup, if◌then◌else◌,
}
use mininet_zone_segmentatio.Policy.{Zone}
use mininet_zone_segmentatio.Router.{
  EthAddr, Ethernet, Ipv4, Message, send, Location, Queued, Router, Config, PacketIn,
}
use mininet_zone_segmentatio.Router.Timers.{running, running-send}
use mininet_zone_segmentatio.Router.Ports.{zone_core_ports, zone_of_port, join}
use mininet_zone_segmentatio.Router.Output.{
  emit, send_packet, send_data, each_port, send_arp_reply, probe, send_arp_probe, flood_in_zone,
  l2_forward, send_icmp_error, mac_port, gateway_of,
}
use mininet_zone_segmentatio.Router.Pending.{forward_ip, reject_all, forward_all, cancel}
use mininet_zone_segmentatio.Router.IpHandler.{
  install_drop_flow, install_leaf_rule, install_route_flows, forward_after, route_known,
}

-- Two routers that differ in what they have sent at most, and in which the same timers run.
pub record Frame (r s : Router) : Type 0 where
  pub same : s ≡ record r { sent = s.sent }
  pub quiet : (timer : ℕ) → running s timer ≡ running r timer

pub Frame-refl : (r : Router) → Frame r r
Frame-refl r = record { same = refl; quiet = λ timer. refl }

pub Frame-trans : (r s t : Router) → Frame r s → Frame s t → Frame r t
Frame-trans r s t a b = record {
  same = b.same ∙ ap (λ (u : Router). record u { sent = t.sent }) a.same;
  quiet = λ timer. b.quiet timer ∙ a.quiet timer;
}

pub Frame-send :
    (connection : ℕ) (message : Message) (r : Router) → Frame r (emit (send connection message) r)
unfolding emit
Frame-send connection message r = record { same = refl; quiet = running-send connection message r }

pub Frame-send_packet :
    (connection : ℕ) (eth : Ethernet) (port : ℕ) (r : Router)
    → Frame r (send_packet connection eth port r)
unfolding send_packet
Frame-send_packet connection eth port r = Frame-send connection _ r

pub Frame-send_data :
    (connection : ℕ) (eth : Ethernet) (port : ℕ) (r : Router)
    → Frame r (send_data connection eth port r)
unfolding send_data
Frame-send_data connection eth port r = Frame-send connection _ r

pub Frame-each_port :
    (f : ℕ → Router → Router) (list : List ℕ) (r : Router)
    → ((port : ℕ) (s : Router) → Frame s (f port s))
    → Frame r (each_port f list r)
unfolding each_port
Frame-each_port f [] r h = Frame-refl r
Frame-each_port f (port ∷ list) r h =
    Frame-trans r (f port r) (each_port f list (f port r)) (h port r)
      (Frame-each_port f list (f port r) h)

Frame-if : (b : Bool) (r s t : Router) → Frame r s → Frame r t → Frame r (if b then s else t)
Frame-if true r s t x y = x
Frame-if false r s t x y = y

pub Frame-send_arp_reply :
    (connection port ip : ℕ) (mac : EthAddr) (ip' : ℕ) (mac' : EthAddr) (r : Router)
    → Frame r (send_arp_reply connection port ip mac ip' mac' r)
unfolding send_arp_reply
Frame-send_arp_reply connection port ip mac ip' mac' r = Frame-send_packet connection _ port r

module _ (c : Config) where
  Frame-probe :
      (connection : ℕ) (gw : Zone) (ip : ℕ) (z : String) (r : Router)
      → Frame r (probe c connection gw ip z r)
  unfolding probe
  Frame-probe connection gw ip z r =
      Frame-each_port _ (zone_core_ports c.maps (some z)) r
        (λ port s. Frame-send_packet connection _ port s)

  pub Frame-send_arp_probe : (ip : ℕ) (z : String) (r : Router) → Frame r (send_arp_probe c ip z r)
  unfolding send_arp_probe
  Frame-send_arp_probe ip z r = elim (Option-cases (lookup c.maps.core_dpid r.connections)) [
    | inl e ↦ rw (e, send_arp_probe) (Frame-refl r)
    | inr (connection, e) ↦
        rw (e, send_arp_probe)
          (elim (Option-cases (lookup z c.policy.zones)) [
            | inl e' ↦ rw e' (Frame-refl r)
            | inr (gw, e') ↦ rw e' (Frame-probe connection gw ip z r)
          ])
  ]

  pub Frame-flood_in_zone : (e : PacketIn) (r : Router) → Frame r (flood_in_zone c e r)
  unfolding flood_in_zone
  Frame-flood_in_zone e r =
      Frame-if (e.dpid == c.maps.core_dpid) r _ _
        (Frame-each_port _ (zone_core_ports c.maps (join (lookup e.port c.maps.core_port_zones))) r
          (λ port s.
            Frame-if (port == e.port) s s _ (Frame-refl s)
              (Frame-send_data e.connection e.packet port s)))
        (Frame-send _ _ r)

  pub Frame-l2_forward :
      (e : PacketIn) (mac : EthAddr) (r : Router) → Frame r (l2_forward c e mac r)
  unfolding l2_forward
  Frame-l2_forward e mac r = elim (Option-cases (mac_port r e.dpid mac)) [
    | inl h ↦ rw (h, l2_forward) (Frame-flood_in_zone e r)
    | inr (port, h) ↦ rw (h, l2_forward) (Frame-send _ _ r)
  ]

  pub Frame-send_icmp_error :
      (packet : Ethernet) (p : Ipv4) (dpid port t code : ℕ) (r : Router)
      → Frame r (send_icmp_error c packet p dpid port t code r)
  unfolding send_icmp_error
  Frame-send_icmp_error packet p dpid port t code r =
      elim (Option-cases (lookup dpid r.connections)) [
        | inl e ↦ rw (e, send_icmp_error) (Frame-refl r)
        | inr (connection, e) ↦
            rw (e, send_icmp_error)
              (elim (Option-cases (gateway_of c (zone_of_port c.maps dpid port))) [
                | inl e' ↦ rw e' (Frame-refl r)
                | inr (gw, e') ↦ rw e' (Frame-send_packet connection _ port r)
              ])
      ]

  pub Frame-forward_ip :
      (dpid port : ℕ) (z : String) (packet : Ethernet) (p : Ipv4) (out : ℕ) (mac : EthAddr)
      (r : Router)
      → Frame r (forward_ip c dpid port z packet p out mac r)
  unfolding forward_ip
  Frame-forward_ip dpid port z packet p out mac r =
      Frame-if (leb p.ttl 1) r _ _ (Frame-send_icmp_error packet p dpid port _ _ r)
        (elim (Option-cases (lookup c.maps.core_dpid r.connections)) [
          | inl e ↦ rw e (Frame-refl r)
          | inr (connection, e) ↦ rw e (elim (Option-cases (lookup z c.policy.zones)) [
            | inl e' ↦ rw e' (Frame-refl r)
            | inr (gw, e') ↦ rw e' (Frame-send_packet connection _ out r)
          ])
        ])

  pub Frame-reject_all : (queue : List Queued) (r : Router) → Frame r (reject_all c queue r)
  unfolding reject_all
  Frame-reject_all [] r = Frame-refl r
  Frame-reject_all (q ∷ queue) r =
      Frame-trans r _ _ (Frame-send_icmp_error q.packet q.ip_pkt q.orig_dpid q.orig_port _ _ r)
        (Frame-reject_all queue _)

  pub Frame-forward_all :
      (z : String) (out : ℕ) (mac : EthAddr) (queue : List Queued) (r : Router)
      → Frame r (forward_all c z out mac queue r)
  unfolding forward_all
  Frame-forward_all z out mac [] r = Frame-refl r
  Frame-forward_all z out mac (q ∷ queue) r =
      Frame-trans r _ _ (Frame-forward_ip q.orig_dpid q.orig_port z q.packet q.ip_pkt out mac r)
        (Frame-forward_all z out mac queue _)

  pub cancel-same :
      (timer : Option ℕ) (r : Router)
      → cancel c timer r ≡ record r { sent = (cancel c timer r).sent }
  unfolding cancel emit
  cancel-same none r = refl
  cancel-same (some t) r = refl

  pub Frame-install_drop_flow : (e : PacketIn) (r : Router) → Frame r (install_drop_flow c e r)
  unfolding install_drop_flow
  Frame-install_drop_flow e r = Frame-send _ _ r

  Frame-install_leaf_rule : (e : PacketIn) (r : Router) → Frame r (install_leaf_rule c e r).0
  unfolding install_leaf_rule
  Frame-install_leaf_rule e r = elim (Bool-cases (e.dpid == c.maps.core_dpid)) [
    | inl core ↦ rw core (Frame-refl r)
    | inr leaf ↦ elim (Option-cases (lookup e.dpid c.maps.leaf_uplink_port)) [
      | inl h ↦ rw (leaf, h) (Frame-refl r)
      | inr (uplink, h) ↦ rw (leaf, h) (Frame-send _ _ r)
    ]
  ]

  pub Frame-install_route_flows :
      (e : PacketIn) (z : String) (out : ℕ) (mac : EthAddr) (r : Router)
      → Frame r (install_route_flows c e z out mac r).0
  unfolding install_route_flows
  Frame-install_route_flows e z out mac r =
      elim (Option-cases (lookup c.maps.core_dpid r.connections)) [
        | inl h ↦ rw (h, install_route_flows) (Frame-refl r)
        | inr (conn, h) ↦
            rw (h, install_route_flows)
              (elim (Option-cases (lookup z c.policy.zones)) [
                | inl h' ↦ rw h' (Frame-refl r)
                | inr (gw, h') ↦
                    rw h' (Frame-trans r _ _ (Frame-send _ _ r) (Frame-install_leaf_rule e _))
              ])
      ]

  Frame-forward_after :
      (e : PacketIn) (p : Ipv4) (z : String) (loc : Location) (r : Router) (ruled : Router × Bool)
      → Frame r ruled.0
      → Frame r (forward_after c e p z loc ruled)
  unfolding forward_after
  Frame-forward_after e p z loc r (s, true) h = h
  Frame-forward_after e p z loc r (s, false) h =
      Frame-trans r s _ h (Frame-forward_ip e.dpid e.port z e.packet p loc.core_port loc.mac s)

  pub Frame-route_known :
      (e : PacketIn) (p : Ipv4) (z : String) (loc : Location) (r : Router)
      → Frame r (route_known c e p z loc r)
  unfolding route_known
  Frame-route_known e p z loc r = Frame-forward_after e p z loc r _ (ruled (ltb 1 p.ttl))
    where
      ruled :
          (b : Bool)
          → Frame r (if b then install_route_flows c e z loc.core_port loc.mac r else (r, false)).0
      ruled true = Frame-install_route_flows e z loc.core_port loc.mac r
      ruled false = Frame-refl r
