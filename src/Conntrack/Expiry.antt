-- ===== src/Conntrack/Expiry.antt =====
-- `expire` of conntrack.py: what is left in the table, and what a lookup can tell of it.
use mininet_zone_segmentatio.Base.{
  ℕ, ◌≤◌, ◌≡◌, refl, true, not, ◌&&◌, Option, none, some, List, [], ◌∷◌, arith, Dict, lookup,
  has_key, erase, lookup-erase, contains, if◌then◌else◌,
}
use mininet_zone_segmentatio.Conntrack.{
  Flow, flow_eq, ConnectionTable, alive, is_fresh, stale_flows, erase_all, expire,
}

lookup-erase_all :
    (f : Flow) (flows : List Flow) (d : Dict Flow ℕ)
    → lookup f (erase_all flows d) ≡ (if contains flows f then none else lookup f d)
unfolding erase_all contains
lookup-erase_all f [] d = refl
lookup-erase_all f (g ∷ flows) d =
    ground (arith, lookup-erase_all f flows (erase g d), lookup-erase f g d)

contains-stale_flows :
    (at : Flow → ℕ) (t : ConnectionTable) (f : Flow) (entries : Dict Flow ℕ)
    → contains (stale_flows at t entries) f ≡ (has_key f entries && not (alive (at f) t f))
unfolding stale_flows contains lookup
contains-stale_flows at t f [] = refl
contains-stale_flows at t f ((g, seen) ∷ entries) =
    ground (arith, contains-stale_flows at t f entries)

-- Each connection is kept or dropped by the reading that was made for it.
pub lookup-expire :
    (at : Flow → ℕ) (t : ConnectionTable) (f : Flow)
    → lookup f (expire at t).1.last_seen ≡ (if alive (at f) t f then lookup f t.last_seen else none)
unfolding expire
lookup-expire at t f = ground (
  arith,
  lookup-erase_all f (stale_flows at t t.last_seen) t.last_seen,
  contains-stale_flows at t f t.last_seen,
)

-- A connection that is stale at one time is stale at every later time.
pub is_fresh_mono :
    (idle now later : ℕ) (seen : Option ℕ)
    → now ≤ later
    → is_fresh idle later seen ≡ true
    → is_fresh idle now seen ≡ true
unfolding is_fresh
is_fresh_mono idle now later none le h = cc
is_fresh_mono idle now later (some s) le h = ground arith

-- Lookups check expiry themselves: a sweep whose readings do not pass `now` changes no answer that
-- `_alive` gives from then on.
pub alive-expire :
    (at : Flow → ℕ) (t : ConnectionTable) (f : Flow) (now : ℕ)
    → at f ≤ now
    → alive now (expire at t).1 f ≡ alive now t f
unfolding alive expire
alive-expire at t f now le = ground (arith, lookup-expire at t f)
