-- ===== src/Conntrack/Origin.antt =====
-- conntrack.py: entries cannot be planted. Whatever is tracked was opened by a packet that the
-- policy allowed.
use mininet_zone_segmentatio.Base.{
  ℕ, ◌≡◌, refl, Bool, true, false, ◌&&◌, ◌||◌, none, some, List, [], ◌∷◌, arith, lookup, has_key,
  lookup-insert, ◌==◌, any,
}
use mininet_zone_segmentatio.Conntrack.{
  Flow, flow_eq, reversed, TrackedPacket, ConnectionTable, new_table, alive, track, is_reply, reply,
  check,
}
use mininet_zone_segmentatio.Conntrack.Expiry.{lookup-expire}
use mininet_zone_segmentatio.Conntrack.History.{Event, checked, swept, step, run}

-- The event is a packet that the policy allows, that may open a connection, and whose flow is `f`.
unfoldable pub opens : Flow → Event → Bool
opens f (checked now later true (some packet)) = packet.may_open && packet.flow == f
opens f _ = false

-- The table has an entry for the flow.
unfoldable pub is_tracked : Flow → ConnectionTable → Bool
is_tracked f t = has_key f t.last_seen

pub step-tracked :
    (t : ConnectionTable) (e : Event) (f : Flow)
    → is_tracked f (step t e).1 ≡ true
    → (is_tracked f t || opens f e) ≡ true
unfolding step check opens is_tracked track is_reply alive
step-tracked t (checked now later true none) f h = ground arith
step-tracked t (checked now later true (some p)) f h =
    ground (arith, lookup-insert f p.flow now t.last_seen)
step-tracked t (checked now later false none) f h = ground arith
step-tracked t (checked now later false (some p)) f h =
    ground (arith, lookup-insert f (reversed p.flow) later t.last_seen)
step-tracked t (swept at done) f h = ground (arith, lookup-expire at t f)

run-tracked :
    (t : ConnectionTable) (events : List Event) (f : Flow)
    → is_tracked f (run t events) ≡ true
    → (is_tracked f t || any (opens f) events) ≡ true
unfolding run any
run-tracked t [] f h = ground arith
run-tracked t (e ∷ events) f h =
    ground (arith, run-tracked (step t e).1 events f h, step-tracked t e f)

reply-tracked :
    (t : ConnectionTable) (now later : ℕ) (packet : TrackedPacket)
    → (check now later t false (some packet)).0 ≡ some reply
    → is_tracked (reversed packet.flow) t ≡ true
unfolding check is_reply alive is_tracked
reply-tracked t now later packet h = ground arith

pub new_table-untracked : (idle : ℕ) (f : Flow) → is_tracked f (new_table idle) ≡ false
unfolding is_tracked new_table lookup
new_table-untracked idle f = refl

-- After any events on a new table, a packet that the policy blocks gets the verdict 'reply' only if
-- some earlier packet, which the policy allowed and which could open a connection, had exactly its
-- flow with source and destination exchanged.
pub reply-was-opened :
    (idle : ℕ) (events : List Event) (now later : ℕ) (packet : TrackedPacket)
    → (check now later (run (new_table idle) events) false (some packet)).0 ≡ some reply
    → any (opens (reversed packet.flow)) events ≡ true
reply-was-opened idle events now later packet h = ground (
  arith,
  run-tracked (new_table idle) events (reversed packet.flow),
  new_table-untracked idle (reversed packet.flow),
  reply-tracked (run (new_table idle) events) now later packet h,
)
