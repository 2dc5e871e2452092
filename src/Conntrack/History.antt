-- ===== src/Conntrack/History.antt =====
-- conntrack.py against an abstract account of it, which keeps for each connection the time of its
-- last activity and never forgets one: a table that is swept gives the same verdicts.
use mininet_zone_segmentatio.Base.{
  ℕ, ◌≤◌, ◌≡◌, refl, Bool, true, false, Option, none, some, List, [], ◌∷◌, arith, inl, inr,
  Bool-cases, insert, lookup-nil, lookup-insert, ◌==◌, if◌then◌else◌,
}
use mathlib.Core.Path.{ap₂}
use mininet_zone_segmentatio.Conntrack.{
  Flow, flow_eq, reversed, TrackedPacket, ConnectionTable, new_table, alive, is_fresh, track,
  is_reply, expire, Verdict, new, reply, check,
}
use mininet_zone_segmentatio.Conntrack.Expiry.{alive-expire}

-- What happens to a table: a packet is checked, or the timer sweeps. `done` is a reading that no
-- reading of the sweep passes.
pub data Event : Type 0 where
  checked : (now later : ℕ) → Bool → Option TrackedPacket → Event
  swept : (at : Flow → ℕ) (done : ℕ) → Event

-- The table after an event, and the verdict of a check.
unfoldable pub step : ConnectionTable → Event → Option Verdict × ConnectionTable
step t (checked now later allowed packet) = check now later t allowed packet
step t (swept at done) = (none, (expire at t).1)

unfoldable pub run : ConnectionTable → List Event → ConnectionTable
run t [] = t
run t (e ∷ events) = run (step t e).1 events

unfoldable pub verdicts : ConnectionTable → List Event → List (Option Verdict)
verdicts t [] = []
verdicts t (e ∷ events) = (step t e).0 ∷ verdicts (step t e).1 events

-- The clock never runs backwards.
abbrev pub Ordered : ℕ → List Event → Type 0
Ordered n [] = Unit
Ordered n (checked now later allowed packet ∷ events) =
    (n ≤ now) × (now ≤ later) × Ordered later events
Ordered n (swept at done ∷ events) = (n ≤ done) × ((f : Flow) → at f ≤ done) × Ordered done events

-- The abstract state: when each connection was last active.
abbrev pub Activity : Type 0
Activity = Flow → Option ℕ

abbrev at_flow : Flow → ℕ → Activity → Activity
at_flow f now act g = if g == f then some now else act g

spec_blocked : ℕ → ℕ → ℕ → Activity → TrackedPacket → Option Verdict × Activity
spec_blocked idle now later act packet =
    if packet.may_reply
    then (if is_fresh idle now (act (reversed packet.flow))
        then (some reply, at_flow (reversed packet.flow) later act)
        else (none, act))
    else (none, act)

-- What allows a packet: the policy, or a live connection in the other direction. A sweep does nothing.
pub spec_step : ℕ → Activity → Event → Option Verdict × Activity
unfolding spec_blocked
spec_step idle act (checked now later true none) = (some new, act)
spec_step idle act (checked now later true (some packet)) =
    (some new, if packet.may_open then at_flow packet.flow now act else act)
spec_step idle act (checked now later false none) = (none, act)
spec_step idle act (checked now later false (some packet)) = spec_blocked idle now later act packet
spec_step idle act (swept at done) = (none, act)

pub spec_verdicts : ℕ → Activity → List Event → List (Option Verdict)
spec_verdicts idle act [] = []
spec_verdicts idle act (e ∷ events) =
    (spec_step idle act e).0 ∷ spec_verdicts idle (spec_step idle act e).1 events

-- From time `n` on, the table and the account agree on which connections are alive.
record Agrees (idle n : ℕ) (t : ConnectionTable) (act : Activity) : Type 0 where
  same_idle : t.idle_timeout ≡ idle
  same : (f : Flow) (u : ℕ) → n ≤ u → alive u t f ≡ is_fresh idle u (act f)

alive-insert :
    (t : ConnectionTable) (g f : Flow) (seen u : ℕ)
    → alive u (record t { last_seen = insert g seen t.last_seen }) f
      ≡ (if f == g then is_fresh t.idle_timeout u (some seen) else alive u t f)
unfolding alive
alive-insert t g f seen u = ground (arith, lookup-insert f g seen t.last_seen)

module _ (idle : ℕ) where
  Agrees-later :
      {n m : ℕ} {t : ConnectionTable} {act : Activity}
      → n ≤ m
      → Agrees idle n t act
      → Agrees idle m t act
  Agrees-later {n} {m} le a = record {
    same_idle = a.same_idle;
    same = λ f u h. a.same f u (omega arith);
  }

  Agrees-insert :
      {n : ℕ} (m now : ℕ) (g : Flow) (t : ConnectionTable) (act : Activity)
      → n ≤ m
      → Agrees idle n t act
      → Agrees idle m (record t { last_seen = insert g now t.last_seen }) (at_flow g now act)
  Agrees-insert m now g t act le a = record {
    same_idle = a.same_idle;
    same = λ f u h. ground (arith, alive-insert t g f now u, a.same f u, a.same_idle);
  }

  checked-Agrees :
      (n now later : ℕ) (allowed : Bool) (packet : Option TrackedPacket) (t : ConnectionTable)
      (act : Activity)
      → n ≤ now
      → now ≤ later
      → Agrees idle n t act
      → ((step t (checked now later allowed packet)).0
          ≡ (spec_step idle act (checked now later allowed packet)).0)
        × Agrees idle later
            (step t (checked now later allowed packet)).1
            (spec_step idle act (checked now later allowed packet)).1
  unfolding step check spec_step track is_reply
  checked-Agrees n now later true none t act le le' a = (refl, Agrees-later (omega arith) a)
  checked-Agrees n now later true (some p) t act le le' a = elim (Bool-cases p.may_open) [
    | inl o ↦ (refl, rw o (Agrees-insert later now p.flow t act (omega arith) a))
    | inr c ↦ (refl, rw c (Agrees-later (omega arith) a))
  ]
  checked-Agrees n now later false none t act le le' a = (refl, Agrees-later (omega arith) a)
  checked-Agrees n now later false (some p) t act le le' a = elim (Bool-cases p.may_reply) [
    | inr c ↦ rw c (refl, Agrees-later (omega arith) a)
    | inl r ↦ elim (Bool-cases (alive now t (reversed p.flow))) [
      | inl live ↦
          let same : is_fresh idle now (act (reversed p.flow)) ≡ true =
            cc (a.same (reversed p.flow) now le) in
          rw (r, live, same)
            (refl, Agrees-insert later later (reversed p.flow) t act (omega arith) a)
      | inr dead ↦
          let same : is_fresh idle now (act (reversed p.flow)) ≡ false =
            cc (a.same (reversed p.flow) now le) in
          rw (r, dead, same) (refl, Agrees-later (omega arith) a)
    ]
  ]

  swept-Agrees :
      (n done : ℕ) (at : Flow → ℕ) (t : ConnectionTable) (act : Activity)
      → n ≤ done
      → ((f : Flow) → at f ≤ done)
      → Agrees idle n t act
      → Agrees idle done (expire at t).1 act
  swept-Agrees n done at t act le bound a = record {
    same_idle = unfold expire in a.same_idle;
    same = λ f u h. ground (arith, alive-expire at t f u, bound f, a.same f u);
  }

  verdicts-Agrees :
      (n : ℕ) (t : ConnectionTable) (act : Activity) (events : List Event)
      → Ordered n events
      → Agrees idle n t act
      → verdicts t events ≡ spec_verdicts idle act events
  unfolding verdicts spec_verdicts step spec_step
  verdicts-Agrees n t act [] o a = refl
  verdicts-Agrees n t act (checked now later allowed packet ∷ events) (le, le', o) a =
      let (v, a') = checked-Agrees n now later allowed packet t act le le' a in
      ap₂ ◌∷◌ v (verdicts-Agrees later _ _ events o a')
  verdicts-Agrees n t act (swept at done ∷ events) (le, bound, o) a =
      ap₂ ◌∷◌ refl (verdicts-Agrees done _ _ events o (swept-Agrees n done at t act le bound a))

-- Under a clock that never runs backwards, a new table gives, over any sequence of checks and
-- sweeps, the verdicts of the account that remembers the last activity of every connection and
-- never sweeps.
pub verdicts-eq-spec_verdicts :
    (idle : ℕ) (events : List Event)
    → Ordered 0 events
    → verdicts (new_table idle) events ≡ spec_verdicts idle (λ f. none) events
verdicts-eq-spec_verdicts idle events o = verdicts-Agrees idle 0 _ _ events o (record {
  same_idle = unfold new_table in refl;
  same = λ f u h. unfold new_table alive is_fresh in rw lookup-nil refl;
})
