-- ===== src/Policy/Blocks.antt =====
-- The block sets that `load_policy` of firewall_rules.py builds from the rules.
use mininet_zone_segmentatio.Base.{
  ℕ, suc, String, ◌≡◌, refl, Bool, false, ◌&&◌, ◌||◌, Option, none, some, List, [], ◌∷◌, ◌++◌,
  arith, ◌⊎◌, raise_if, inl, inr, string_eq, pair_eq, pair-==, ◌==◌, contains, any, ok, >>=-eq-ok,
}
use mininet_zone_segmentatio.Policy.{Zones, Pairs, Policy}
use mininet_zone_segmentatio.Policy.Load.{
  RawRule, Blocks, Label, Side, from_side, to_side, add_pair, add_targets, add_pairs, add_block,
  load_rule, load_rules, known_zones, load_policy, load_zones, RawPolicy, label_of, is_empty,
  no_zones,
}

unfoldable pub names_of : Option (List String) → List String
names_of none = []
names_of (some names) = names

unfoldable pub has_kind : Option String → String → Bool
has_kind none kind = false
has_kind (some k) kind = k == kind

-- The rule names the pair of zones, under the given kind of block.
unfoldable pub rule_blocks : String → String → String → RawRule → Bool
unfolding names_of has_kind
rule_blocks kind src dst r =
    has_kind r.block kind
    && (contains (names_of r.sources) src && contains (names_of r.targets) dst)

contains-append_one :
    (table : Pairs) (p q : String × String)
    → contains (table ++ (p ∷ [])) q ≡ (contains table q || q == p)
unfolding contains
contains-append_one [] p q = ground arith
contains-append_one (r ∷ table) p q = ground (arith, contains-append_one table p q)

contains-add_pair :
    (p q : String × String) (table : Pairs)
    → contains (add_pair p table) q ≡ (contains table q || q == p)
unfolding add_pair
contains-add_pair p q table = ground (arith, contains-append_one table p q)

contains-add_targets :
    (s : String) (targets : List String) (x y : String) (table : Pairs)
    → contains (add_targets s targets table) (x, y)
      ≡ (contains table (x, y) || (x == s && contains targets y))
unfolding add_targets contains
contains-add_targets s [] x y table = ground arith
contains-add_targets s (d ∷ targets) x y table = ground (
  arith,
  contains-add_targets s targets x y (add_pair (s, d) table),
  contains-add_pair (s, d) (x, y) table,
  pair-== x y s d,
)

contains-add_pairs :
    (sources targets : List String) (x y : String) (table : Pairs)
    → contains (add_pairs sources targets table) (x, y)
      ≡ (contains table (x, y) || (contains sources x && contains targets y))
unfolding add_pairs contains
contains-add_pairs [] targets x y table = ground arith
contains-add_pairs (s ∷ sources) targets x y table = ground (
  arith,
  contains-add_pairs sources targets x y (add_targets s targets table),
  contains-add_targets s targets x y table,
)

pub known_zones-eq :
    (zones : Zones) (label : Label) (side : Side) (names : Option (List String)) {l : List String}
    → known_zones zones label side names ≡ ok l
    → names ≡ some l
unfolding known_zones
known_zones-eq zones label side none h = cc
known_zones-eq zones label side (some []) h = cc
known_zones-eq zones label side (some (z ∷ names)) h = ground arith

-- What one rule adds to the two sets.
pub record Adds (r : RawRule) (b c : Blocks) : Type 0 where
  pub to_all :
      (x y : String) → contains c.all (x, y) ≡ (contains b.all (x, y) || rule_blocks "all" x y r)
  pub to_icmp :
      (x y : String) → contains c.icmp (x, y) ≡ (contains b.icmp (x, y) || rule_blocks "icmp" x y r)

abbrev to_all_set : (Pairs → Pairs) → Blocks → Blocks
to_all_set f b = record b { all = f b.all }

abbrev to_icmp_set : (Pairs → Pairs) → Blocks → Blocks
to_icmp_set f b = record b { icmp = f b.icmp }

add_block-cases :
    (kind : Option String) (label : Label) {change : (Pairs → Pairs) → Blocks → Blocks}
    → add_block kind label ≡ ok change
    → ((kind ≡ some "all") × (change ≡ to_all_set))
      ⊎ ((kind ≡ some "icmp") × (change ≡ to_icmp_set))
unfolding add_block
add_block-cases none label h = cc
add_block-cases (some kind) label h = ground arith

-- The two kinds are told apart.
all-ne-icmp : ◌==◌ {A = String} "icmp" "all" ≡ false
unfolding string_eq
all-ne-icmp = refl

icmp-ne-all : ◌==◌ {A = String} "all" "icmp" ≡ false
unfolding string_eq
icmp-ne-all = refl

Adds-of_change :
    (r : RawRule) (ss ts : List String) (b : Blocks) (change : (Pairs → Pairs) → Blocks → Blocks)
    → r.sources ≡ some ss
    → r.targets ≡ some ts
    → ((r.block ≡ some "all") × (change ≡ to_all_set))
      ⊎ ((r.block ≡ some "icmp") × (change ≡ to_icmp_set))
    → Adds r b (change (add_pairs ss ts) b)
unfolding rule_blocks
Adds-of_change r ss ts b change se te (inl (k, c)) = rw c (record {
  to_all = λ x y. ground (arith, contains-add_pairs ss ts x y b.all);
  to_icmp = λ x y. ground (arith, icmp-ne-all);
})
Adds-of_change r ss ts b change se te (inr (k, c)) = rw c (record {
  to_all = λ x y. ground (arith, all-ne-icmp);
  to_icmp = λ x y. ground (arith, contains-add_pairs ss ts x y b.icmp);
})

load_rule-Adds :
    (zones : Zones) (i : ℕ) (r : RawRule) (b c : Blocks) → load_rule zones i r b ≡ ok c → Adds r b c
unfolding load_rule
load_rule-Adds zones i r b c h =
    let label = label_of r.rule i in
    let (change, ce, h1) = >>=-eq-ok (add_block r.block label) _ h in
    let (ss, se, h2) = >>=-eq-ok (known_zones zones label from_side r.sources) _ h1 in
    let (ts, te, h3) = >>=-eq-ok (known_zones zones label to_side r.targets) _ h2 in
    let e : change (add_pairs ss ts) b ≡ c = cc h3 in
    rw (← e) (
      Adds-of_change r ss ts b change (known_zones-eq zones label from_side r.sources se)
        (known_zones-eq zones label to_side r.targets te) (add_block-cases r.block label ce))

-- What all the rules add.
record AddsAll (rules : List RawRule) (b c : Blocks) : Type 0 where
  to_all :
      (x y : String)
      → contains c.all (x, y) ≡ (contains b.all (x, y) || any (rule_blocks "all" x y) rules)
  to_icmp :
      (x y : String)
      → contains c.icmp (x, y) ≡ (contains b.icmp (x, y) || any (rule_blocks "icmp" x y) rules)

load_rules-AddsAll :
    (zones : Zones) (i : ℕ) (rules : List RawRule) (b c : Blocks)
    → load_rules zones i rules b ≡ ok c
    → AddsAll rules b c
unfolding load_rules any
load_rules-AddsAll zones i [] b c h =
    let e : b ≡ c = cc in
    rw (← e) (record { to_all = λ x y. ground arith; to_icmp = λ x y. ground arith })
load_rules-AddsAll zones i (r ∷ rules) b c h =
    let (d, de, rest) =
      >>=-eq-ok (load_rule zones i r b) (λ b. load_rules zones (suc i) rules b) h in
    let one = load_rule-Adds zones i r b d de in
    let more = load_rules-AddsAll zones (suc i) rules d c rest in
    record {
      to_all = λ x y. ground (arith, one.to_all x y, more.to_all x y);
      to_icmp = λ x y. ground (arith, one.to_icmp x y, more.to_icmp x y);
    }

-- A pair of zones is in a block set of the loaded policy exactly when some rule of the document has
-- that kind of block, names the source among its `from` and the target among its `to`.
pub load_policy-blocks :
    (raw : RawPolicy) (p : Policy) (src dst : String)
    → load_policy (some raw) ≡ ok p
    → (contains p.block_all_ip (src, dst) ≡ any (rule_blocks "all" src dst) raw.rules)
      × (contains p.block_icmp (src, dst) ≡ any (rule_blocks "icmp" src dst) raw.rules)
unfolding load_policy contains
load_policy-blocks raw p src dst h =
    let (zones, ze, h1) = >>=-eq-ok (load_zones [] raw.zones) _ h in
    let (_, he, h2) = >>=-eq-ok (raise_if (is_empty zones) no_zones) _ h1 in
    let (blocks, be, h3) =
      >>=-eq-ok (load_rules zones 0 raw.rules (record { all = []; icmp = [] })) _ h2 in
    let added = load_rules-AddsAll zones 0 raw.rules (record { all = []; icmp = [] }) blocks be in
    let e : record { zones = zones; block_all_ip = blocks.all; block_icmp = blocks.icmp } ≡ p =
      cc h3 in
    rw (← e) (ground (arith, added.to_all src dst), ground (arith, added.to_icmp src dst))
