-- ===== src/Router/Retries.antt =====
-- controller.py: `_retry_arp` gives up on an address that does not answer.
use mininet_zone_segmentatio.Base.{
  ℕ, suc, ◌+◌, ◌≤◌, ◌≡◌, refl, ◌∙◌, ap, true, false, none, some, List, [], ◌∷◌, arith, leb, nat_eq,
  Dict, lookup, lookup-insert, lookup-erase, erase, inl, inr, Bool-cases, Option-cases,
}
use mininet_zone_segmentatio.Router.{
  Entry, Router, new_router, Config, Event, arp_timer, arp_max_retries,
}
use mininet_zone_segmentatio.Router.Output.{send_arp_probe}
use mininet_zone_segmentatio.Router.Pending.{cancel, retry_arp}
use mininet_zone_segmentatio.Router.Dispatch.{step, run}
use mininet_zone_segmentatio.Router.Frame.{Frame-reject_all}
use mininet_zone_segmentatio.Router.Waiting.{kept}
use mininet_zone_segmentatio.Router.Queues.{run-IsWaiting}

-- Nothing waits for the address, or it was probed for `k` times at least.
data Tried (ip k : ℕ) (pending : Dict ℕ Entry) : Type 0 where
  gone : lookup ip pending ≡ none → Tried ip k pending
  waits : (entry : Entry) → lookup ip pending ≡ some entry → k ≤ entry.retries → Tried ip k pending

module _ (c : Config) (ip : ℕ) where
  retry_arp-gone : (r : Router) → lookup ip r.pending ≡ none → retry_arp c ip r ≡ r
  unfolding retry_arp
  retry_arp-gone r e = rw (e, retry_arp) refl

  retry_arp-ends :
      (r : Router) (entry : Entry)
      → lookup ip r.pending ≡ some entry
      → leb arp_max_retries entry.retries ≡ true
      → lookup ip (retry_arp c ip r).pending ≡ none
  unfolding retry_arp
  retry_arp-ends r entry e l =
      let stopped = cancel c entry.timer r in
      let removed = record stopped { pending = erase ip stopped.pending } in
      rw (e, retry_arp)
        (rw l (
          ap (λ (d : Dict ℕ Entry). lookup ip d) (kept (Frame-reject_all c entry.queue removed))
          ∙ ground (arith, lookup-erase ip ip stopped.pending)))

  retry_arp-probes :
      (r : Router) (entry : Entry)
      → lookup ip r.pending ≡ some entry
      → leb arp_max_retries entry.retries ≡ false
      → lookup ip (retry_arp c ip r).pending ≡ some (record entry { retries = entry.retries + 1 })
  unfolding retry_arp
  retry_arp-probes r entry e l =
      let next = record entry { retries = entry.retries + 1 } in
      rw (e, retry_arp)
        (rw l (ground (arith, lookup-insert ip ip next (send_arp_probe c ip entry.zone r).pending)))

  retry_arp-Tried :
      (k : ℕ) (r : Router) → Tried ip k r.pending → Tried ip (suc k) (retry_arp c ip r).pending
  retry_arp-Tried k r (gone e) = gone (rw (retry_arp-gone r e) e)
  retry_arp-Tried k r (waits entry e le) = elim (Bool-cases (leb arp_max_retries entry.retries)) [
    | inl l ↦ gone (retry_arp-ends r entry e l)
    | inr l ↦ waits _ (retry_arp-probes r entry e l) (omega arith)
  ]

  retry_arp-last : (r : Router) → Tried ip 3 r.pending → lookup ip (retry_arp c ip r).pending ≡ none
  retry_arp-last r (gone e) = rw (retry_arp-gone r e) e
  retry_arp-last r (waits entry e le) = retry_arp-ends r entry e (ground arith)

  tried : (events : List Event) → Tried ip 1 (run c new_router events).pending
  tried events = elim (Option-cases (lookup ip (run c new_router events).pending)) [
    | inl e ↦ gone e
    | inr (entry, e) ↦ waits entry e (run-IsWaiting c events ip entry e).counted.0
  ]

-- After any events, if the timer of an address then runs three times and nothing else happens, nothing
-- waits for the address any more.
pub run-gives_up :
    (c : Config) (events : List Event) (ip : ℕ)
    → lookup ip
        (run c (run c new_router events) (arp_timer ip ∷ arp_timer ip ∷ arp_timer ip ∷ [])).pending
      ≡ none
run-gives_up c events ip =
    let r = run c new_router events in
    unfold run step in
    retry_arp-last c ip (retry_arp c ip (retry_arp c ip r))
      (retry_arp-Tried c ip 2 (retry_arp c ip r) (retry_arp-Tried c ip 1 r (tried c ip events)))
