-- ===== src/Router/Resolving.antt =====
-- controller.py: `_queue_and_resolve`, `_retry_arp` and `_resolve_pending` leave what waits fit.
use mininet_zone_segmentatio.Base.{
  ℕ, ◌+◌, String, ◌≡◌, refl, ap, none, some, [], ◌∷◌, ◌++◌, arith, leb, nat_eq, string_eq, lookup,
  insert, erase, inl, inr, Bool-cases, Option-cases, All-append,
}
use mininet_zone_segmentatio.Policy.{zone_for_ip}
use mininet_zone_segmentatio.Router.{EthAddr, Ethernet, Ipv4, Queued, Entry, Router, Config}
use mininet_zone_segmentatio.Router.Output.{emit, send_arp_probe}
use mininet_zone_segmentatio.Router.Pending.{
  cancel, resolve_pending, retry_arp, queue_and_resolve, entry_for, open_entry,
}
use mininet_zone_segmentatio.Router.Timers.{running}
use mininet_zone_segmentatio.Router.Frame.{
  Frame-send_arp_probe, Frame-reject_all, Frame-forward_all,
}
use mininet_zone_segmentatio.Router.Waiting.{
  IsWaiting, AllWaiting, Ticks-Frame, Ticks-IsWaiting, kept, by_kept, insert-AllWaiting,
  erase-AllWaiting, start-AllWaiting,
}

module _ (c : Config) where
  removed-AllWaiting :
      (ip : ℕ) (entry : Entry) (r : Router)
      → lookup ip r.pending ≡ some entry
      → AllWaiting c r
      → (let stopped = cancel c entry.timer r in
          AllWaiting c (record stopped { pending = erase ip stopped.pending }))
  unfolding cancel emit
  removed-AllWaiting ip entry r e h =
      let w = h.at ip entry e in rw w.timed (erase-AllWaiting c ip w.number r w.runs h)

  popped-AllWaiting :
      (ip : ℕ) (entry : Entry) (r : Router)
      → lookup ip r.pending ≡ some entry
      → AllWaiting c r
      → AllWaiting c (cancel c entry.timer (record r { pending = erase ip r.pending }))
  unfolding cancel emit
  popped-AllWaiting ip entry r e h =
      let w = h.at ip entry e in rw w.timed (erase-AllWaiting c ip w.number r w.runs h)

  pub resolve_pending-AllWaiting :
      (ip : ℕ) (mac : EthAddr) (r : Router)
      → AllWaiting c r
      → AllWaiting c (resolve_pending c ip mac r)
  unfolding resolve_pending
  resolve_pending-AllWaiting ip mac r h = elim (Option-cases (lookup ip r.pending)) [
    | inl e ↦ rw (e, resolve_pending) h
    | inr (entry, e) ↦
        let stopped = cancel c entry.timer (record r { pending = erase ip r.pending }) in
        let fine = popped-AllWaiting ip entry r e h in
        rw (e, resolve_pending)
          (elim (Option-cases (lookup ip stopped.ip_to_loc)) [
            | inl e' ↦ rw e' fine
            | inr (loc, e') ↦ rw e' (
                by_kept c stopped _
                  (Frame-forward_all c entry.zone loc.core_port mac entry.queue stopped) fine)
          ])
  ]

  pub retry_arp-AllWaiting :
      (ip : ℕ) (r : Router) → AllWaiting c r → AllWaiting c (retry_arp c ip r)
  unfolding retry_arp
  retry_arp-AllWaiting ip r h = elim (Option-cases (lookup ip r.pending)) [
    | inl e ↦ rw (e, retry_arp) h
    | inr (entry, e) ↦
        let w = h.at ip entry e in
        rw (e, retry_arp)
          (elim (Bool-cases (leb 3 entry.retries)) [
            | inl l ↦
                let stopped = cancel c entry.timer r in
                let removed = record stopped { pending = erase ip stopped.pending } in
                rw l (
                  by_kept c removed _ (Frame-reject_all c entry.queue removed)
                    (removed-AllWaiting ip entry r e h))
            | inr l ↦
                let probed = send_arp_probe c ip entry.zone r in
                let frame = Frame-send_arp_probe c ip entry.zone r in
                let v = Ticks-IsWaiting c r probed ip entry (Ticks-Frame frame) w in
                rw l (
                  insert-AllWaiting c ip (record entry { retries = entry.retries + 1 }) probed
                    (record {
                      counted = (omega (arith, w.counted), ground (arith, l, w.counted));
                      number = v.number;
                      timed = v.timed;
                      made = v.made;
                      runs = v.runs;
                      in_zone = v.in_zone;
                      addressed = v.addressed;
                    })
                    (by_kept c r probed frame h))
          ])
  ]

  more :
      (r : Router) (ip : ℕ) (entry : Entry) (q : Queued)
      → q.ip_pkt.dstip ≡ ip
      → IsWaiting c r ip entry
      → IsWaiting c r ip (record entry { queue = entry.queue ++ (q ∷ []) })
  more r ip entry q same w = record {
    counted = w.counted;
    number = w.number;
    timed = w.timed;
    made = w.made;
    runs = w.runs;
    in_zone = w.in_zone;
    addressed = All-append (λ q. q.ip_pkt.dstip ≡ ip) entry.queue (q ∷ []) w.addressed (same, tt);
  }

  pub queue_and_resolve-AllWaiting :
      (dpid port : ℕ) (packet : Ethernet) (p : Ipv4) (z : String) (r : Router)
      → zone_for_ip c.policy.zones p.dstip ≡ some z
      → AllWaiting c r
      → AllWaiting c (queue_and_resolve c dpid port packet p z r)
  unfolding queue_and_resolve entry_for open_entry emit running
  queue_and_resolve-AllWaiting dpid port packet p z r found h =
      let q : Queued = record { orig_dpid = dpid; orig_port = port; packet = packet; ip_pkt = p } in
      elim (Option-cases (lookup p.dstip r.pending)) [
        | inr (entry, e) ↦
            rw (e, entry_for)
              (insert-AllWaiting c p.dstip (record entry { queue = entry.queue ++ (q ∷ []) }) r
                (more r p.dstip entry q refl (h.at p.dstip entry e)) h)
        | inl e ↦
            let old : Entry = record { zone = z; queue = []; retries = 1; timer = none } in
            let stored = record r { pending = insert p.dstip old r.pending } in
            let probed = send_arp_probe c p.dstip z stored in
            let frame = Frame-send_arp_probe c p.dstip z stored in
            let new : Entry = record {
              zone = z;
              queue = q ∷ [];
              retries = 1;
              timer = some probed.timers;
            } in
            rw (e, entry_for)
              (start-AllWaiting c p.dstip old new r probed (kept frame)
                (record { timers = ap (λ (u : Router). u.timers) frame.same; quiet = frame.quiet })
                refl (omega arith, omega arith) found (refl, tt) h)
      ]
