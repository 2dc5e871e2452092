-- ===== src/Router/Tables.antt =====
-- controller.py: the functions that neither ask the firewall nor sweep leave `self.conns` as it is.
use mininet_zone_segmentatio.Base.{
  ℕ, String, ◌≡◌, refl, ◌∙◌, ap, arith, Bool, true, false, Option, none, some, leb, nat_eq,
  string_eq, lookup, erase, if◌then◌else◌, inl, inr, Option-cases,
}
use mininet_zone_segmentatio.Conntrack.{Verdict}
use mininet_zone_segmentatio.Router.{
  EthAddr, Ethernet, Ipv4, Arp, Opcode, request, reply, other_opcode, Router, Config, PacketIn,
  arp_max_retries,
}
use mininet_zone_segmentatio.Router.Output.{learn, learn_mac, emit}
use mininet_zone_segmentatio.Router.Pending.{
  open_entry, entry_for, queue_and_resolve, retry_arp, resolve_pending, cancel,
}
use mininet_zone_segmentatio.Router.ArpHandler.{answer_arp}
use mininet_zone_segmentatio.Router.IpHandler.{route, finish, ask_firewall}
use mininet_zone_segmentatio.Router.Dispatch.{handle_connection_up, handle_transit}
use mininet_zone_segmentatio.Router.Frame.{
  Frame, Frame-send_arp_probe, cancel-same, Frame-reject_all, Frame-forward_all,
  Frame-send_arp_reply, Frame-flood_in_zone, Frame-l2_forward, Frame-install_drop_flow,
  Frame-route_known,
}

abbrev pub Same : Router → Router → Type 0
Same r s = s.conns ≡ r.conns

pub same : {r s : Router} → Frame r s → Same r s
same f = ap (λ (u : Router). u.conns) f.same

Same-if : (b : Bool) (r s t : Router) → Same r s → Same r t → Same r (if b then s else t)
Same-if true r s t x y = x
Same-if false r s t x y = y

pub Same-connection_up :
    (dpid connection : ℕ) (r : Router) → Same r (handle_connection_up dpid connection r)
unfolding handle_connection_up
Same-connection_up dpid connection r = ground arith

module _ (c : Config) where
  Same-open_entry : (ip : ℕ) (z : String) (r : Router) → Same r (open_entry c ip z r).1
  unfolding open_entry emit
  Same-open_entry ip z r = same (Frame-send_arp_probe c ip z _)

  Same-entry_for : (ip : ℕ) (z : String) (r : Router) → Same r (entry_for c ip z r).1
  unfolding entry_for
  Same-entry_for ip z r = elim (Option-cases (lookup ip r.pending)) [
    | inl n ↦ rw (n, entry_for) (Same-open_entry ip z r)
    | inr (entry, n) ↦ rw (n, entry_for) refl
  ]

  Same-queue_and_resolve :
      (dpid port : ℕ) (packet : Ethernet) (p : Ipv4) (z : String) (r : Router)
      → Same r (queue_and_resolve c dpid port packet p z r)
  unfolding queue_and_resolve
  Same-queue_and_resolve dpid port packet p z r = Same-entry_for p.dstip z r

  pub Same-retry_arp : (ip : ℕ) (r : Router) → Same r (retry_arp c ip r)
  unfolding retry_arp
  Same-retry_arp ip r = elim (Option-cases (lookup ip r.pending)) [
    | inl n ↦ rw (n, retry_arp) refl
    | inr (entry, n) ↦
        rw (n, retry_arp)
          (Same-if (leb arp_max_retries entry.retries) r _ _
            (same (Frame-reject_all c entry.queue _)
              ∙ ap (λ (u : Router). u.conns) (cancel-same c entry.timer r))
            (same (Frame-send_arp_probe c ip entry.zone r)))
  ]

  Same-resolve_pending : (ip : ℕ) (mac : EthAddr) (r : Router) → Same r (resolve_pending c ip mac r)
  unfolding resolve_pending
  Same-resolve_pending ip mac r = elim (Option-cases (lookup ip r.pending)) [
    | inl n ↦ rw (n, resolve_pending) refl
    | inr (entry, n) ↦
        let stopped = cancel c entry.timer (record r { pending = erase ip r.pending }) in
        let kept : Same r stopped =
          ap (λ (u : Router). u.conns)
            (cancel-same c entry.timer (record r { pending = erase ip r.pending })) in
        rw (n, resolve_pending)
          (elim (Option-cases (lookup ip stopped.ip_to_loc)) [
            | inl m ↦ rw m kept
            | inr (loc, m) ↦
                rw m (
                  same (Frame-forward_all c entry.zone loc.core_port mac entry.queue stopped)
                  ∙ kept)
          ])
  ]

  pub Same-learn :
      (dpid port ip : ℕ) (mac : EthAddr) (z : String) (r : Router)
      → Same r (learn c dpid port ip mac z r)
  unfolding learn learn_mac
  Same-learn dpid port ip mac z r = ground arith

  Same-route : (e : PacketIn) (p : Ipv4) (z : String) (r : Router) → Same r (route c e p z r)
  unfolding route
  Same-route e p z r = elim (Option-cases (lookup p.dstip r.ip_to_loc)) [
    | inl n ↦ rw (n, route) (Same-queue_and_resolve e.dpid e.port e.packet p z r)
    | inr (loc, n) ↦ rw (n, route) (same (Frame-route_known c e p z loc r))
  ]

  pub Same-finish :
      (e : PacketIn) (p : Ipv4) (z : String) (v : Option Verdict) (r : Router)
      → Same r (finish c e p z v r)
  unfolding finish
  Same-finish e p z none r = same (Frame-install_drop_flow c e r)
  Same-finish e p z (some v) r = Same-route e p z r

  pub Same-ask_firewall :
      (e : PacketIn) (s d : String) (i : Bool) (p : Ipv4) (r : Router)
      → Same r (ask_firewall c e s d i p r).1
  unfolding ask_firewall
  Same-ask_firewall e s d i p r = ground arith

  pub Same-answer_arp :
      (o : Opcode) (g : Bool) (e : PacketIn) (a : Arp) (s : String) (r : Router)
      → Same r (answer_arp c o g e a s r)
  unfolding answer_arp
  Same-answer_arp request true e a s r = same (Frame-send_arp_reply _ _ _ _ _ _ r)
  Same-answer_arp request false e a s r = same (Frame-flood_in_zone c e r)
  Same-answer_arp reply true e a s r = Same-resolve_pending a.protosrc a.hwsrc r
  Same-answer_arp reply false e a s r = same (Frame-flood_in_zone c e r)
  Same-answer_arp other_opcode true e a s r = same (Frame-flood_in_zone c e r)
  Same-answer_arp other_opcode false e a s r = same (Frame-flood_in_zone c e r)

  pub Same-handle_transit : (e : PacketIn) (r : Router) → Same r (handle_transit c e r)
  unfolding handle_transit learn_mac
  Same-handle_transit e r =
      Same-if (c.is_multicast e.packet.dst) r _ _ (same (Frame-flood_in_zone c e _))
        (same (Frame-l2_forward c e e.packet.dst _))
