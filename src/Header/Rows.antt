-- ===== src/Header/Rows.antt =====
-- tools/gen_policy_header.py: the rows of a table of the header are the pairs of the policy's set.
use mininet_zone_segmentatio.Base.{
  String, ◌≡◌, refl, ◌||◌, some, List, [], ◌∷◌, arith, ◌==◌, nat_eq, string_eq, pair_eq, contains,
  Option-cases, inl, inr,
}
use mininet_zone_segmentatio.Policy.{Pairs}
use mininet_zone_segmentatio.Header.{Key, key, insert_row, sort_rows, without_keys}

contains-insert_row :
    (k : Key) (p q : String × String) (rows : List (Key × (String × String)))
    → contains (without_keys (insert_row k p rows)) q ≡ (q == p || contains (without_keys rows) q)
unfolding insert_row without_keys contains
contains-insert_row k p q [] = ground arith
contains-insert_row k p q ((l, r) ∷ rows) = ground (arith, contains-insert_row k p q rows)

-- The sorted rows are the pairs of the set, and those that were there before.
pub contains-sort_rows :
    (order : List String) (table : Pairs) (rows sorted : List (Key × (String × String)))
    (q : String × String)
    → sort_rows order table rows ≡ some sorted
    → contains (without_keys sorted) q ≡ (contains table q || contains (without_keys rows) q)
unfolding sort_rows contains
contains-sort_rows order [] rows sorted q h = let e : rows ≡ sorted = cc in rw e refl
contains-sort_rows order ((s, d) ∷ table) rows sorted q h = elim (Option-cases (key order s d)) [
  | inl e ↦ ground arith
  | inr (k, e) ↦ ground (
    arith,
    contains-sort_rows order table (insert_row k (s, d) rows) sorted q,
    contains-insert_row k (s, d) q rows,
  )
]
