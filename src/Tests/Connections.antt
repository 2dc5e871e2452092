-- ===== src/Tests/Connections.antt =====
-- The theorems on conntrack.py, at a connection from 10.1.1.101 to 10.1.3.178 and its replies.
use mininet_zone_segmentatio.Base.{
  ℕ, ◌*◌, ◌^◌, ◌≡◌, refl, true, false, none, some, List, [], ◌∷◌, any, arith, insert, lookup, erase,
}
use mininet_zone_segmentatio.Conntrack.{
  Flow, flow_eq, reversed, TrackedPacket, ConnectionTable, new_table, track, alive, is_fresh,
  is_reply, expire, stale_flows, erase_all, new, reply, check, default_idle_timeout,
}
use mininet_zone_segmentatio.Conntrack.History.{
  Event, checked, swept, step, run, verdicts, spec_verdicts, verdicts-eq-spec_verdicts,
}
use mininet_zone_segmentatio.Conntrack.Origin.{opens, reply-was-opened}
use mininet_zone_segmentatio.Conntrack.Replies.{check-reply}

abbrev forward : Flow
forward = record { src = 167838053; dst = 167838642; proto = 6; sport = 40000; dport = 80 }

abbrev backward : Flow
backward = record { src = 167838642; dst = 167838053; proto = 6; sport = 80; dport = 40000 }

abbrev opener : TrackedPacket
opener = record { flow = forward; may_open = true; may_reply = true }

abbrev answer : TrackedPacket
answer = record { flow = backward; may_open = true; may_reply = true }

abbrev second : ℕ
second = 10 ^ 9

-- A packet that opens the connection, a reply to it, a sweep, and a reply that comes too late.
abbrev events : List Event
events =
    checked (1 * second) (1 * second) true (some opener)
    ∷ checked (100 * second) (100 * second) false (some answer)
    ∷ swept (λ f. 230 * second) (230 * second)
    ∷ checked (231 * second) (231 * second) false (some answer)
    ∷ []

verdicts_test :
    verdicts (new_table default_idle_timeout) events ≡ some new ∷ some reply ∷ none ∷ none ∷ []
unfolding verdicts step check new_table track is_reply alive is_fresh expire stale_flows erase_all
    reversed insert lookup erase flow_eq
verdicts_test = refl

verdicts-eq-spec_verdicts_example :
    verdicts (new_table default_idle_timeout) events
    ≡ spec_verdicts default_idle_timeout (λ f. none) events
verdicts-eq-spec_verdicts_example = verdicts-eq-spec_verdicts default_idle_timeout events (
  omega arith,
  omega arith,
  (omega arith, omega arith, (omega arith, (λ f. omega arith), (omega arith, omega arith, tt))),
)

is_reply_now :
    (check
      (2 * second)
      (2 * second)
      (run
        (new_table default_idle_timeout)
        (checked (1 * second) (1 * second) true (some opener) ∷ []))
      false
      (some answer)).0
    ≡ some reply
unfolding run step check new_table track is_reply alive is_fresh reversed insert lookup flow_eq
is_reply_now = refl

reply-was-opened_example :
    any (opens (reversed answer.flow)) (checked (1 * second) (1 * second) true (some opener) ∷ [])
    ≡ true
reply-was-opened_example =
    reply-was-opened default_idle_timeout
      (checked (1 * second) (1 * second) true (some opener) ∷ []) (2 * second) (2 * second) answer
      is_reply_now

abbrev one_entry : ConnectionTable
one_entry = record { idle_timeout = default_idle_timeout; last_seen = (forward, 1 * second) ∷ [] }

check-reply_example :
    let t : ConnectionTable = new_table default_idle_timeout in
    let t₁ = (check second second t true (some opener)).1 in
    let t₂ = (check (2 * second) (2 * second) t₁ false (some answer)).1 in
    ((check (2 * second) (2 * second) t₁ false (some answer)).0 ≡ some reply)
    × ((check (121 * second) (121 * second) t₂ false (some answer)).0 ≡ some reply)
unfolding new_table reversed
check-reply_example =
    check-reply (new_table default_idle_timeout) opener answer second (2 * second) (2 * second)
      (121 * second) (121 * second) refl refl refl (omega arith) (omega arith)
