-- ===== src/Router/Unlearned.antt =====
-- controller.py: what is not `_learn` leaves `ip_to_loc` as it is.
use mininet_zone_segmentatio.Base.{
  ℕ, String, ◌≡◌, refl, ◌∙◌, ap, Bool, true, false, Option, none, some, inl, inr, Option-cases,
  Bool-cases, leb, ◌==◌, nat_eq, string_eq, lookup, erase, arith, if◌then◌else◌,
}
use mininet_zone_segmentatio.Policy.{zone_for_ip}
use mininet_zone_segmentatio.Conntrack.{Verdict, icmp_protocol}
use mininet_zone_segmentatio.Router.{
  EthAddr, Ethernet, Ipv4, Arp, Opcode, request, reply, other_opcode, Router, Config, PacketIn,
}
use mininet_zone_segmentatio.Router.Output.{emit, learn_mac}
use mininet_zone_segmentatio.Router.Pending.{
  cancel, resolve_pending, retry_arp, queue_and_resolve, entry_for, open_entry,
}
use mininet_zone_segmentatio.Router.ArpHandler.{answer_arp}
use mininet_zone_segmentatio.Router.IpHandler.{ask_firewall, finish, filter_ip, route, dispatch_ip}
use mininet_zone_segmentatio.Router.Dispatch.{handle_connection_up, handle_transit}
use mininet_zone_segmentatio.Router.Frame.{
  Frame, Frame-send_arp_probe, Frame-send_arp_reply, Frame-flood_in_zone, Frame-l2_forward,
  Frame-reject_all, Frame-forward_all, cancel-same, Frame-install_drop_flow, Frame-route_known,
}

-- The handlers that learn nothing.
abbrev pub Same : Router → Router → Type 0
Same r s = s.ip_to_loc ≡ r.ip_to_loc

pub of_Frame : {r s : Router} → Frame r s → Same r s
of_Frame f = ap (λ (u : Router). u.ip_to_loc) f.same

module _ (c : Config) where
  Same-resolve_pending : (ip : ℕ) (mac : EthAddr) (r : Router) → Same r (resolve_pending c ip mac r)
  unfolding resolve_pending
  Same-resolve_pending ip mac r = elim (Option-cases (lookup ip r.pending)) [
    | inl e ↦ rw (e, resolve_pending) refl
    | inr (entry, e) ↦
        let popped = record r { pending = erase ip r.pending } in
        let stopped = cancel c entry.timer popped in
        let same : Same r stopped =
          ap (λ (u : Router). u.ip_to_loc) (cancel-same c entry.timer popped) in
        rw (e, resolve_pending)
          (elim (Option-cases (lookup ip stopped.ip_to_loc)) [
            | inl e' ↦ rw e' same
            | inr (loc, e') ↦ rw e' (
                of_Frame (Frame-forward_all c entry.zone loc.core_port mac entry.queue stopped)
                ∙ same)
          ])
  ]

  pub Same-retry_arp : (ip : ℕ) (r : Router) → Same r (retry_arp c ip r)
  unfolding retry_arp
  Same-retry_arp ip r = elim (Option-cases (lookup ip r.pending)) [
    | inl e ↦ rw (e, retry_arp) refl
    | inr (entry, e) ↦
        rw (e, retry_arp)
          (elim (Bool-cases (leb 3 entry.retries)) [
            | inl l ↦ rw l (
                of_Frame (Frame-reject_all c entry.queue _)
                ∙ ap (λ (u : Router). u.ip_to_loc) (cancel-same c entry.timer r))
            | inr l ↦ rw l (of_Frame (Frame-send_arp_probe c ip entry.zone r))
          ])
  ]

  Same-entry_for : (ip : ℕ) (z : String) (r : Router) → Same r (entry_for c ip z r).1
  unfolding entry_for open_entry emit
  Same-entry_for ip z r = elim (Option-cases (lookup ip r.pending)) [
    | inl e ↦ rw (e, entry_for) (of_Frame (Frame-send_arp_probe c ip z _))
    | inr (entry, e) ↦ rw (e, entry_for) refl
  ]

  Same-queue_and_resolve :
      (dpid port : ℕ) (packet : Ethernet) (p : Ipv4) (z : String) (r : Router)
      → Same r (queue_and_resolve c dpid port packet p z r)
  unfolding queue_and_resolve
  Same-queue_and_resolve dpid port packet p z r = Same-entry_for p.dstip z r

  Same-if : (b : Bool) (r s t : Router) → Same r s → Same r t → Same r (if b then s else t)
  Same-if true r s t x y = x
  Same-if false r s t x y = y

  Same-route : (e : PacketIn) (p : Ipv4) (z : String) (r : Router) → Same r (route c e p z r)
  unfolding route
  Same-route e p z r = elim (Option-cases (lookup p.dstip r.ip_to_loc)) [
    | inl h ↦ rw (h, route) (Same-queue_and_resolve e.dpid e.port e.packet p z r)
    | inr (loc, h) ↦ rw (h, route) (of_Frame (Frame-route_known c e p z loc r))
  ]

  Same-ask_firewall :
      (e : PacketIn) (s d : String) (i : Bool) (p : Ipv4) (r : Router)
      → Same r (ask_firewall c e s d i p r).1
  unfolding ask_firewall
  Same-ask_firewall e s d i p r = ground arith

  Same-finish :
      (e : PacketIn) (p : Ipv4) (d : String) (v : Option Verdict) (r : Router)
      → Same r (finish c e p d v r)
  unfolding finish
  Same-finish e p d none r = of_Frame (Frame-install_drop_flow c e r)
  Same-finish e p d (some v) r = Same-route e p d r

  Same-filter_ip :
      (e : PacketIn) (p : Ipv4) (s d : String) (r : Router) → Same r (filter_ip c e p s d r)
  unfolding filter_ip
  Same-filter_ip e p s d r =
      Same-finish e p d _ _ ∙ Same-ask_firewall e s d (p.protocol == icmp_protocol) p r

  pub Same-dispatch_ip :
      (e : PacketIn) (p : Ipv4) (s : String) (r : Router) → Same r (dispatch_ip c e p s r)
  unfolding dispatch_ip
  Same-dispatch_ip e p s r = elim (Option-cases (zone_for_ip c.policy.zones p.dstip)) [
    | inl h ↦ rw (h, dispatch_ip) refl
    | inr (d, h) ↦
        rw (h, dispatch_ip)
          (Same-if (d == s) r _ _ (of_Frame (Frame-l2_forward c e e.packet.dst r))
            (Same-filter_ip e p s d r))
  ]

  pub Same-answer_arp :
      (o : Opcode) (g : Bool) (e : PacketIn) (a : Arp) (s : String) (r : Router)
      → Same r (answer_arp c o g e a s r)
  unfolding answer_arp
  Same-answer_arp request true e a s r = of_Frame (Frame-send_arp_reply _ _ _ _ _ _ r)
  Same-answer_arp request false e a s r = of_Frame (Frame-flood_in_zone c e r)
  Same-answer_arp reply true e a s r = Same-resolve_pending a.protosrc a.hwsrc r
  Same-answer_arp reply false e a s r = of_Frame (Frame-flood_in_zone c e r)
  Same-answer_arp other_opcode true e a s r = of_Frame (Frame-flood_in_zone c e r)
  Same-answer_arp other_opcode false e a s r = of_Frame (Frame-flood_in_zone c e r)

  pub Same-handle_transit : (e : PacketIn) (r : Router) → Same r (handle_transit c e r)
  unfolding handle_transit learn_mac
  Same-handle_transit e r =
      Same-if (c.is_multicast e.packet.dst) r _ _ (of_Frame (Frame-flood_in_zone c e _))
        (of_Frame (Frame-l2_forward c e e.packet.dst _))

pub Same-handle_connection_up :
    (dpid connection : ℕ) (r : Router) → Same r (handle_connection_up dpid connection r)
unfolding handle_connection_up
Same-handle_connection_up dpid connection r = ground arith
