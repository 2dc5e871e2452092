-- ===== src/Router/Waiting.antt =====
-- controller.py: what waits for an ARP reply, and the timers that run for it.
use mininet_zone_segmentatio.Base.{
  ℕ, suc, ◌≤◌, ◌<◌, ◌≡◌, ◌≢◌, refl, ◌∙◌, ap, none, some, List, arith, nat_eq, string_eq, Dict,
  lookup, lookup-insert, lookup-erase, lookup-erase_self, insert, erase, All, ◌==◌, if◌then◌else◌,
  false,
}
use mininet_zone_segmentatio.Policy.{zone_for_ip}
use mininet_zone_segmentatio.Router.{
  start_timer, cancel_timer, Effect, Entry, Router, Config, arp_max_retries, arp_retry_interval,
}
use mininet_zone_segmentatio.Router.Output.{emit}
use mininet_zone_segmentatio.Router.Timers.{runs_after, running, running-start, running-cancel}
use mininet_zone_segmentatio.Router.Frame.{Frame}

-- What an entry of `pending` is at any time between events: its retries count from one to three, the
-- timer that it holds was started for its address and not cancelled since, its zone is that of the
-- address, and each packet in it is for that address.
pub record IsWaiting (c : Config) (r : Router) (ip : ℕ) (entry : Entry) : Type 0 where
  pub counted : (1 ≤ entry.retries) × (entry.retries ≤ arp_max_retries)
  pub number : ℕ
  pub timed : entry.timer ≡ some number
  pub made : number < r.timers
  pub runs : running r number ≡ some (arp_retry_interval, ip)
  pub in_zone : zone_for_ip c.policy.zones ip ≡ some entry.zone
  pub addressed : All (λ q. q.ip_pkt.dstip ≡ ip) entry.queue

pub record AllWaiting (c : Config) (r : Router) : Type 0 where
  pub at : (ip : ℕ) (entry : Entry) → lookup ip r.pending ≡ some entry → IsWaiting c r ip entry

-- The same timers run.
pub record Ticks (r s : Router) : Type 0 where
  pub timers : s.timers ≡ r.timers
  pub quiet : (timer : ℕ) → running s timer ≡ running r timer

-- The handlers that leave `pending` and the timers as they are.
pub record Kept (r s : Router) : Type 0 where
  pub pending : s.pending ≡ r.pending
  pub ticks : Ticks r s

pub kept : {r s : Router} → Frame r s → s.pending ≡ r.pending
kept f = ap (λ (u : Router). u.pending) f.same

pub Ticks-Frame : {r s : Router} → Frame r s → Ticks r s
Ticks-Frame f = record { timers = ap (λ (u : Router). u.timers) f.same; quiet = f.quiet }

pub Kept-Frame : {r s : Router} → Frame r s → Kept r s
Kept-Frame f = record { pending = kept f; ticks = Ticks-Frame f }

pub Kept-sent :
    (r s : Router) → s.pending ≡ r.pending → s.timers ≡ r.timers → s.sent ≡ r.sent → Kept r s
unfolding running
Kept-sent r s p t e = record {
  pending = p;
  ticks = record {
    timers = t;
    quiet = λ timer. ap (λ (l : List Effect). runs_after l timer none) e;
  };
}

Ticks-pending : (r : Router) (d : Dict ℕ Entry) → Ticks r (record r { pending = d })
unfolding running
Ticks-pending r d = record { timers = refl; quiet = λ timer. refl }

module _ (c : Config) where
  pub Ticks-IsWaiting :
      (r s : Router) (ip : ℕ) (entry : Entry)
      → Ticks r s
      → IsWaiting c r ip entry
      → IsWaiting c s ip entry
  Ticks-IsWaiting r s ip entry k w = record {
    counted = w.counted;
    number = w.number;
    timed = w.timed;
    made = rw k.timers w.made;
    runs = k.quiet w.number ∙ w.runs;
    in_zone = w.in_zone;
    addressed = w.addressed;
  }

  pub carry : (r s : Router) → Kept r s → AllWaiting c r → AllWaiting c s
  carry r s k h = record {
    at = λ ip entry found.
        Ticks-IsWaiting r s ip entry k.ticks (h.at ip entry (rw (← k.pending) found));
  }

  pub by_kept : (r s : Router) → Frame r s → AllWaiting c r → AllWaiting c s
  by_kept r s f h = carry r s (Kept-Frame f) h

  pub insert-AllWaiting :
      (ip : ℕ) (entry : Entry) (r : Router)
      → IsWaiting c r ip entry
      → AllWaiting c r
      → AllWaiting c (record r { pending = insert ip entry r.pending })
  insert-AllWaiting ip entry r w h = record {
    at = λ j e found.
        Ticks-IsWaiting r _ j e (Ticks-pending r (insert ip entry r.pending))
          (elim (nat_eq.dec j ip) [
            | yes same ↦
                let new : entry ≡ e = ground (arith, found, lookup-insert j ip entry r.pending) in
                rw (← new, same) w
            | no other ↦ h.at j e (ground (arith, found, lookup-insert j ip entry r.pending))
          ]);
  }

  -- The entry is taken out, and its timer cancelled; no other entry has that timer.
  pub erase-AllWaiting :
      (ip t : ℕ) (r : Router)
      → running r t ≡ some (arp_retry_interval, ip)
      → AllWaiting c r
      → AllWaiting c (emit (cancel_timer t) (record r { pending = erase ip r.pending }))
  unfolding emit running
  erase-AllWaiting ip t r runs h = record {
    at = λ j e found.
        let there : lookup j r.pending ≡ some e =
          ground (arith, found, lookup-erase j ip r.pending) in
        let w = h.at j e there in
        let elsewhere : j ≢ ip = λ same. cc (lookup-erase_self ip r.pending, found, same) in
        let other : (w.number == t) ≡ false = apart j w.number elsewhere w.runs in
        record {
          counted = w.counted;
          number = w.number;
          timed = w.timed;
          made = w.made;
          runs =
              running-cancel t (record r { pending = erase ip r.pending }) w.number
              ∙ rw other w.runs;
          in_zone = w.in_zone;
          addressed = w.addressed;
        };
  }
    where
      apart : (j u : ℕ) → j ≢ ip → running r u ≡ some (arp_retry_interval, j) → (u == t) ≡ false
      apart j u elsewhere other = elim (nat_eq.dec u t) [
        | yes same ↦ absurd (elsewhere (cc (runs, other, same)))
        | no ne ↦ ground arith
      ]

  -- A new entry, whose timer is the next one.
  pub start-AllWaiting :
      (ip : ℕ) (old new : Entry) (r probed : Router)
      → probed.pending ≡ insert ip old r.pending
      → Ticks r probed
      → new.timer ≡ some probed.timers
      → (1 ≤ new.retries) × (new.retries ≤ arp_max_retries)
      → zone_for_ip c.policy.zones ip ≡ some new.zone
      → All (λ q. q.ip_pkt.dstip ≡ ip) new.queue
      → AllWaiting c r
      → AllWaiting c
          (record (emit
            (start_timer probed.timers arp_retry_interval ip)
            (record probed { timers = suc probed.timers })) {
              pending = insert ip new probed.pending;
            })
  unfolding emit running
  start-AllWaiting ip old new r probed stored k timed counted found addressed h = record {
    at = λ j e there. elim (nat_eq.dec j ip) [
      | yes same ↦
          let mine : new ≡ e = ground (arith, there, lookup-insert j ip new probed.pending) in
          rw (← mine, same)
            (record {
              counted = counted;
              number = probed.timers;
              timed = timed;
              made = omega arith;
              runs = started probed.timers ∙ ground arith;
              in_zone = found;
              addressed = addressed;
            })
      | no other ↦
          let w = h.at j e (earlier j e other there) in
          let fresh : (w.number == probed.timers) ≡ false = ground (arith, w.made, k.timers) in
          record {
            counted = w.counted;
            number = w.number;
            timed = w.timed;
            made = omega (arith, w.made, k.timers);
            runs = started w.number ∙ rw fresh (k.quiet w.number ∙ w.runs);
            in_zone = w.in_zone;
            addressed = w.addressed;
          }
    ];
  }
    where
      started :
          (u : ℕ)
          → running
              (emit
                (start_timer probed.timers arp_retry_interval ip)
                (record probed { timers = suc probed.timers }))
              u
            ≡ (if u == probed.timers
                then some (arp_retry_interval, ip)
                else running (record probed { timers = suc probed.timers }) u)
      started =
          running-start probed.timers arp_retry_interval ip
            (record probed { timers = suc probed.timers })

      earlier :
          (j : ℕ) (e : Entry)
          → j ≢ ip
          → lookup j (insert ip new probed.pending) ≡ some e
          → lookup j r.pending ≡ some e
      earlier j e other there = ground (
        arith,
        there,
        stored,
        lookup-insert j ip new probed.pending,
        lookup-insert j ip old r.pending,
      )
