-- ===== src/Header.antt =====
-- tools/gen_policy_header.py: the tables that `render` writes into policy_generated.h. The text around
-- them is fixed, and is left out; a `Zone` of the header is named by its enumerator.
pub mod Rows
pub mod Source
pub mod Generated
use mininet_zone_segmentatio.Base.{
  ℕ, zero, suc, String, Bool, true, false, not, ◌&&◌, ◌||◌, Option, none, some, List, [], ◌∷◌, ltb,
  leb, ◌==◌, nat_eq, string_eq, Dict, keys, length, if◌then◌else◌,
}
use mininet_zone_segmentatio.Text.{codes, is_digit}
use mininet_zone_segmentatio.Policy.{Zone, Zones, Pairs}

-- A row of `kZones`.
pub record SubnetZone : Type 0 where
  pub zone : String
  pub network : ℕ
  pub prefix_len : ℕ

-- An array of pairs, and the constant that counts its rows.
pub record PairTable : Type 0 where
  pub array : Pairs
  pub count : ℕ

-- The declarations of the header. `enumerators` are those before `Unknown`.
pub record Header : Type 0 where
  pub enumerators : List String
  pub zones : List SubnetZone
  pub block_all_ip : PairTable
  pub block_icmp : PairTable

-- `[A-Za-z_]`
is_letter : ℕ → Bool
is_letter c = (leb b'A' c && leb c b'Z') || ((leb b'a' c && leb c b'z') || c == b'_')

-- `[A-Za-z0-9_]*$`; the `$` also matches before a line feed that ends the text.
identifier_rest : List ℕ → Bool
identifier_rest [] = true
identifier_rest (c ∷ []) = is_letter c || (is_digit c || c == 10)
identifier_rest (c ∷ cs) = (is_letter c || is_digit c) && identifier_rest cs

-- `_IDENTIFIER.match(name)`
identifier : List ℕ → Bool
identifier [] = false
identifier (c ∷ cs) = is_letter c && identifier_rest cs

-- A name that is an identifier and not in RESERVED.
unfoldable pub usable : String → Bool
unfolding identifier identifier_rest is_letter is_digit nat_eq
usable name = identifier (codes name) && not (name == "Unknown")

unfoldable pub all_usable : List String → Bool
all_usable [] = true
all_usable (name ∷ names) = usable name && all_usable names

infixl 5 ◌>>=◌
abbrev ◌>>=◌ : {A B : Type 0} → Option A → (A → Option B) → Option B
none >>= f = none
some a >>= f = f a

-- `order.index(name)`; `none` is a ValueError.
unfoldable pub index : List String → String → Option ℕ
index [] name = none
index (n ∷ order) name =
    let rest = index order name in
    if n == name then some 0 else elim rest [ none ↦ none | some i ↦ some (suc i) ]

abbrev pub Key : Type 0
Key = ℕ × ℕ

-- `(order.index(p[0]), order.index(p[1]))`
unfoldable pub key : List String → String → String → Option Key
key order src dst = do i ← index order src; j ← index order dst; some (i, j)

-- The order of Python's tuples.
unfoldable pub before : Key → Key → Bool
before (i, j) (k, l) = ltb i k || (i == k && ltb j l)

unfoldable pub insert_row :
    Key → String × String → List (Key × (String × String)) → List (Key × (String × String))
insert_row k p [] = (k, p) ∷ []
insert_row k p ((l, q) ∷ rows) =
    let rest = insert_row k p rows in if before k l then (k, p) ∷ (l, q) ∷ rows else (l, q) ∷ rest

-- `sorted(table, key=...)`, with the keys.
unfoldable pub sort_rows :
    List String → Pairs → List (Key × (String × String)) → Option (List (Key × (String × String)))
sort_rows order [] rows = some rows
sort_rows order ((src, dst) ∷ table) rows = do
  k ← key order src dst
  sort_rows order table (insert_row k (src, dst) rows)

unfoldable pub without_keys : List (Key × (String × String)) → Pairs
without_keys [] = []
without_keys ((_, p) ∷ rows) = p ∷ without_keys rows

-- The declaration of a table. C++ has no array of size zero: an empty table gets one row, of the
-- first enumerator twice, which the count keeps unread.
unfoldable pub declaration : List String → Pairs → PairTable
declaration [] [] = record { array = []; count = 0 }
declaration (first ∷ _) [] = record { array = (first, first) ∷ []; count = 0 }
declaration order (p ∷ rows) = record { array = p ∷ rows; count = length (p ∷ rows) }

unfoldable pub pairs : List String → Pairs → Option PairTable
pairs order table = do rows ← sort_rows order table []; some (declaration order (without_keys rows))

unfoldable pub zone_rows : Zones → List SubnetZone
zone_rows [] = []
zone_rows ((name, z) ∷ zones) =
    record { zone = name; network = z.subnet.network_address; prefix_len = z.subnet.prefixlen }
    ∷ zone_rows zones

unfoldable pub header_of : Zones → Option PairTable → Option PairTable → Option Header
header_of zones (some all) (some icmp) = some (record {
  enumerators = keys zones;
  zones = zone_rows zones;
  block_all_ip = all;
  block_icmp = icmp;
})
header_of zones _ _ = none

-- `render`; `none` is the PolicyError of a name that C++ cannot use, or the ValueError of a pair
-- that names no zone.
unfoldable pub render : Zones → Pairs → Pairs → Option Header
render zones block_all_ip block_icmp =
    if all_usable (keys zones)
    then header_of zones (pairs (keys zones) block_all_ip) (pairs (keys zones) block_icmp)
    else none
