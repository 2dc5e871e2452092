-- ===== src/Policy/Known.antt =====
-- `load_policy` of firewall_rules.py refuses a rule that names a zone which does not exist.
use mininet_zone_segmentatio.Base.{
  ℕ, suc, String, ◌≡◌, true, Option, none, some, List, [], ◌∷◌, arith, inl, inr, Bool-cases,
  has_key, string_eq, contains, any, ok, >>=-eq-ok,
}
use mininet_zone_segmentatio.Policy.{Zones}
use mininet_zone_segmentatio.Policy.Load.{
  RawRule, Blocks, Label, Side, from_side, to_side, label_of, add_block, all_known, known_zones,
  load_rule, load_rules,
}
use mininet_zone_segmentatio.Policy.Blocks.{names_of, rule_blocks}

all_known-contains :
    (zones : Zones) (names : List String) (x : String)
    → all_known zones names ≡ true
    → contains names x ≡ true
    → has_key x zones ≡ true
unfolding all_known contains
all_known-contains zones [] x h c = cc
all_known-contains zones (z ∷ names) x h c = ground (arith, all_known-contains zones names x)

known_zones-known :
    (zones : Zones) (label : Label) (side : Side) (names : Option (List String)) {l : List String}
    (x : String)
    → known_zones zones label side names ≡ ok l
    → contains (names_of names) x ≡ true
    → has_key x zones ≡ true
unfolding known_zones names_of
known_zones-known zones label side none x h c = cc
known_zones-known zones label side (some []) x h c = cc
known_zones-known zones label side (some (z ∷ names)) x h c =
    all_known-contains zones (z ∷ names) x (ground arith) c

load_rule-known :
    (zones : Zones) (i : ℕ) (r : RawRule) (b c : Blocks)
    → load_rule zones i r b ≡ ok c
    → (kind x y : String) → rule_blocks kind x y r ≡ true
    → (has_key x zones ≡ true) × (has_key y zones ≡ true)
unfolding load_rule rule_blocks
load_rule-known zones i r b c h kind x y t =
    let label = label_of r.rule i in
    let (change, ce, h1) = >>=-eq-ok (add_block r.block label) _ h in
    let (ss, se, h2) = >>=-eq-ok (known_zones zones label from_side r.sources) _ h1 in
    let (ts, te, h3) = >>=-eq-ok (known_zones zones label to_side r.targets) _ h2 in
    (
      known_zones-known zones label from_side r.sources x se (ground arith),
      known_zones-known zones label to_side r.targets y te (ground arith),
    )

-- A pair that some rule blocks consists of known zones.
pub load_rules-known :
    (zones : Zones) (i : ℕ) (rules : List RawRule) (b c : Blocks)
    → load_rules zones i rules b ≡ ok c
    → (kind x y : String) → any (rule_blocks kind x y) rules ≡ true
    → (has_key x zones ≡ true) × (has_key y zones ≡ true)
unfolding load_rules any
load_rules-known zones i [] b c h kind x y t = cc
load_rules-known zones i (r ∷ rules) b c h kind x y t =
    let (d, de, rest) =
      >>=-eq-ok (load_rule zones i r b) (λ b. load_rules zones (suc i) rules b) h in
    elim (Bool-cases (rule_blocks kind x y r)) [
      | inl here ↦ load_rule-known zones i r b d de kind x y here
      | inr later ↦ load_rules-known zones (suc i) rules d c rest kind x y (ground arith)
    ]
