-- ===== src/Conntrack/Replies.antt =====
-- conntrack.py: which packets pass as replies.
use mininet_zone_segmentatio.Base.{
  ℕ, ◌+◌, ◌<◌, ◌≡◌, refl, true, false, some, arith, insert, lookup-insert_self, nat_eq,
}
use mininet_zone_segmentatio.Conntrack.{
  Flow, flow_eq, reversed, TrackedPacket, ConnectionTable, alive, track, is_reply, new, reply,
  check,
}

reversed-reversed : (f : Flow) → reversed (reversed f) ≡ f
unfolding reversed
reversed-reversed f = refl

check-opens :
    (t : ConnectionTable) (p : TrackedPacket) (now later : ℕ)
    → p.may_open ≡ true
    → check now later t true (some p)
      ≡ (some new, record t { last_seen = insert p.flow now t.last_seen })
unfolding check track
check-opens t p now later o = rw o refl

check-answers :
    (t : ConnectionTable) (p : TrackedPacket) (now later : ℕ)
    → p.may_reply ≡ true
    → alive now t (reversed p.flow) ≡ true
    → check now later t false (some p)
      ≡ (some reply, record t { last_seen = insert (reversed p.flow) later t.last_seen })
unfolding check is_reply
check-answers t p now later r live = rw (r, live) refl

alive-insert_self :
    (t : ConnectionTable) (f : Flow) (seen now : ℕ)
    → now < seen + t.idle_timeout
    → alive now (record t { last_seen = insert f seen t.last_seen }) f ≡ true
unfolding alive
alive-insert_self t f seen now h = rw lookup-insert_self (ground arith)

-- A packet in the other direction of one that opened a connection passes as a reply, although the
-- policy blocks it, for as long as the connection has been idle for less than the timeout; and the
-- reply starts the idle time anew.
pub check-reply :
    (t : ConnectionTable) (opener answer : TrackedPacket) (opened now later again after : ℕ)
    → opener.may_open ≡ true
    → answer.may_reply ≡ true
    → answer.flow ≡ reversed opener.flow
    → now < opened + t.idle_timeout
    → again < later + t.idle_timeout
    → let t₁ = (check opened opened t true (some opener)).1 in
      let t₂ = (check now later t₁ false (some answer)).1 in
      ((check now later t₁ false (some answer)).0 ≡ some reply)
      × ((check again after t₂ false (some answer)).0 ≡ some reply)
check-reply t opener answer opened now later again after o r e fresh fresh' =
    let back : reversed answer.flow ≡ opener.flow = rw e (reversed-reversed opener.flow) in
    let t₁ : ConnectionTable = record t { last_seen = insert opener.flow opened t.last_seen } in
    let t₂ : ConnectionTable = record t₁ {
      last_seen = insert (reversed answer.flow) later t₁.last_seen;
    } in
    rw
      (
        check-opens t opener opened opened o,
        check-answers t₁ answer now later r
            (rw back (alive-insert_self t opener.flow opened now fresh)),
        check-answers t₂ answer again after r
            (alive-insert_self t₁ (reversed answer.flow) later again fresh'),
      )
      (refl, refl)
