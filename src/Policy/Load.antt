-- ===== src/Policy/Load.antt =====
-- `load_policy` of firewall_rules.py, on the document that `json.load` returns.
use mininet_zone_segmentatio.Base.{
  ℕ, suc, ◌+◌, String, Bool, true, false, not, ◌&&◌, Option, none, some, List, [], ◌∷◌, ◌++◌, ◌==◌,
  string_eq, pair_eq, contains, Dict, has_key, insert, Result, ok, err, ◌>>=◌, ◌>>◌, raise_if,
  if◌then◌else◌,
}
use mininet_zone_segmentatio.Text.{lower, mac_matches}
use mininet_zone_segmentatio.Address.{Subnet, in_subnet, overlaps}
use mininet_zone_segmentatio.Address.Parse.{ip_address, ip_network}
use mininet_zone_segmentatio.Policy.{Zone, Zones, Pairs, Policy}

-- The dicts of the document; a key that is missing is `none`.
pub record RawZone : Type 0 where
  pub subnet : Option String
  pub gateway : Option String
  pub gateway_mac : Option String

pub record RawRule : Type 0 where
  pub rule : Option ℕ
  pub sources : Option (List String)
  pub targets : Option (List String)
  pub block : Option String

pub record RawPolicy : Type 0 where
  pub zones : Dict String RawZone
  pub rules : List RawRule

-- `rule.get('rule', '#{}'.format(i + 1))`
pub data Label : Type 0 where
  rule : ℕ → Label
  position : ℕ → Label

pub data Side : Type 0 where
  from_side to_side : Side

-- The `PolicyError`s, by their messages.
pub data PolicyError : Type 0 where
  not_json : PolicyError
  bad_address : String → PolicyError
  gateway_outside : String → PolicyError
  bad_mac : String → PolicyError
  subnets_overlap : String → String → PolicyError
  shared_mac : String → String → PolicyError
  no_zones : PolicyError
  bad_block : Label → PolicyError
  unknown_zones : Label → Side → PolicyError

abbrev Loaded : Type 0 → Type 0
Loaded = Result PolicyError

-- `f(z[key])`, which may raise `KeyError` or `ValueError`.
unfoldable pub parse_key : {A : Type 0} → (String → Option A) → Option String → Option A
parse_key f none = none
parse_key f (some text) = f text

or_raise : {A : Type 0} → Option A → PolicyError → Loaded A
or_raise none e = err e
or_raise (some a) e = ok a

text_or_empty : Option String → String
text_or_empty none = ""
text_or_empty (some text) = text

-- `for other, oz in zones.items()`
unfoldable pub check_apart : Zones → String → Subnet → String → Loaded (Unit {0})
check_apart [] name subnet mac = ok tt
check_apart ((other, oz) ∷ zones) name subnet mac =
    let rest = check_apart zones name subnet mac in
    if overlaps subnet oz.subnet
    then err (subnets_overlap other name)
    else if mac == oz.gateway_mac
    then err (shared_mac other name)
    else rest

-- The body of `for name, z in raw.get('zones', {}).items()`, up to the assignment.
unfoldable pub load_zone : Zones → String → RawZone → Loaded Zone
unfolding parse_key or_raise text_or_empty
load_zone zones name z = do
  subnet ← or_raise (parse_key ip_network z.subnet) (bad_address name)
  gateway ← or_raise (parse_key ip_address z.gateway) (bad_address name)
  raise_if (not (in_subnet gateway subnet)) (gateway_outside name)
  let mac = lower (text_or_empty z.gateway_mac)
  raise_if (not (mac_matches mac)) (bad_mac name)
  check_apart zones name subnet mac
  ok (record { subnet = subnet; gateway = gateway; gateway_mac = mac })

unfoldable pub load_zones : Zones → Dict String RawZone → Loaded Zones
load_zones zones [] = ok zones
load_zones zones ((name, z) ∷ rest) =
    load_zone zones name z >>= λ zone. load_zones (insert name zone zones) rest

-- `blocks`: one set for each kind of BLOCK_KINDS.
pub record Blocks : Type 0 where
  pub all : Pairs
  pub icmp : Pairs

-- `set.add`
unfoldable pub add_pair : String × String → Pairs → Pairs
add_pair p table = if contains table p then table else table ++ (p ∷ [])

-- `for dst in rule['to']`
unfoldable pub add_targets : String → List String → Pairs → Pairs
add_targets src [] table = table
add_targets src (dst ∷ targets) table = add_targets src targets (add_pair (src, dst) table)

-- `for src in rule['from']`
unfoldable pub add_pairs : List String → List String → Pairs → Pairs
add_pairs [] targets table = table
add_pairs (src ∷ sources) targets table = add_pairs sources targets (add_targets src targets table)

unfoldable pub all_known : Zones → List String → Bool
all_known zones [] = true
all_known zones (z ∷ names) = has_key z zones && all_known zones names

-- The zones that a field of a rule names: some, and all of them known.
unfoldable pub known_zones : Zones → Label → Side → Option (List String) → Loaded (List String)
unfolding all_known
known_zones zones label side none = err (unknown_zones label side)
known_zones zones label side (some []) = err (unknown_zones label side)
known_zones zones label side (some (z ∷ names)) =
    if all_known zones (z ∷ names) then ok (z ∷ names) else err (unknown_zones label side)

pub label_of : Option ℕ → ℕ → Label
label_of none i = position (i + 1)
label_of (some n) i = rule n

-- `blocks[rule['block']]`, if it is one of BLOCK_KINDS.
unfoldable pub add_block : Option String → Label → Loaded ((Pairs → Pairs) → Blocks → Blocks)
add_block none label = err (bad_block label)
add_block (some kind) label =
    if kind == "all"
    then ok (λ f b. record b { all = f b.all })
    else if kind == "icmp"
    then ok (λ f b. record b { icmp = f b.icmp })
    else err (bad_block label)

-- The body of `for i, rule in enumerate(raw.get('rules', []))`.
unfoldable pub load_rule : Zones → ℕ → RawRule → Blocks → Loaded Blocks
unfolding label_of
load_rule zones i r blocks = do
  let label = label_of r.rule i
  change ← add_block r.block label
  sources ← known_zones zones label from_side r.sources
  targets ← known_zones zones label to_side r.targets
  ok (change (add_pairs sources targets) blocks)

unfoldable pub load_rules : Zones → ℕ → List RawRule → Blocks → Loaded Blocks
load_rules zones i [] blocks = ok blocks
load_rules zones i (r ∷ rules) blocks =
    load_rule zones i r blocks >>= λ b. load_rules zones (suc i) rules b

unfoldable pub is_empty : Zones → Bool
is_empty [] = true
is_empty (_ ∷ _) = false

-- `none` is a file that is not JSON.
unfoldable pub load_policy : Option RawPolicy → Loaded Policy
unfolding is_empty
load_policy none = err not_json
load_policy (some raw) = do
  zones ← load_zones [] raw.zones
  raise_if (is_empty zones) no_zones
  blocks ← load_rules zones 0 raw.rules (record { all = []; icmp = [] })
  ok (record { zones = zones; block_all_ip = blocks.all; block_icmp = blocks.icmp })
