-- ===== src/Text.antt =====
-- What the program uses of Python's `str` and `re`: `lower`, `split`, and the pattern of a MAC
-- address (`_MAC_RE` of firewall_rules.py).
pub mod Print
use Prim.Native.Char.{Char, code}
use mininet_zone_segmentatio.Base.{
  ℕ, zero, suc, ◌+◌, ◌*◌, ◌-◌, String, Bool, true, false, ◌&&◌, ◌||◌, List, [], ◌∷◌, ◌++◌, none,
  some, leb, ◌==◌, nat_eq, Dict, lookup,
}

-- The code points of a text.
abbrev pub codes : String → List ℕ
codes String.[] = []
codes (String.◌∷◌ c s) = code c ∷ codes s

abbrev lower_table : Dict ℕ Char
lower_table =
    (65, "a")
    ∷ (66, "b")
    ∷ (67, "c")
    ∷ (68, "d")
    ∷ (69, "e")
    ∷ (70, "f")
    ∷ (71, "g")
    ∷ (72, "h")
    ∷ (73, "i")
    ∷ (74, "j")
    ∷ (75, "k")
    ∷ (76, "l")
    ∷ (77, "m")
    ∷ (78, "n")
    ∷ (79, "o")
    ∷ (80, "p")
    ∷ (81, "q")
    ∷ (82, "r")
    ∷ (83, "s")
    ∷ (84, "t")
    ∷ (85, "u")
    ∷ (86, "v")
    ∷ (87, "w")
    ∷ (88, "x")
    ∷ (89, "y")
    ∷ (90, "z")
    ∷ []

lower_char : Char → Char
unfolding lookup nat_eq
lower_char c = elim (lookup (code c) lower_table) [ none ↦ c | some d ↦ d ]

-- `s.lower()`. Letters outside ASCII stay: their lower forms never match the pattern below either.
unfoldable pub lower : String → String
unfolding lower_char
lower String.[] = ""
lower (String.◌∷◌ c s) = String.◌∷◌ (lower_char c) (lower s)

-- `text.split(sep)`: the parts, at least one.
unfoldable pub split_from : ℕ → List ℕ → List ℕ → List (List ℕ)
split_from sep part [] = part ∷ []
split_from sep part (c ∷ cs) = elim (c == sep) [
  | true ↦ part ∷ split_from sep [] cs
  | false ↦ split_from sep (part ++ (c ∷ [])) cs
]

unfoldable pub split : ℕ → List ℕ → List (List ℕ)
unfolding split_from nat_eq
split sep = split_from sep []

unfoldable pub is_digit : ℕ → Bool
is_digit c = leb b'0' c && leb c b'9'

-- `[0-9a-f]`
is_hex : ℕ → Bool
unfolding is_digit
is_hex c = is_digit c || (leb b'a' c && leb c b'f')

-- `^([0-9a-f]{2}:){n}[0-9a-f]{2}$`. The `$` also matches before a line feed that ends the text.
mac_groups : ℕ → List ℕ → Bool
mac_groups zero (a ∷ b ∷ []) = is_hex a && is_hex b
mac_groups zero (a ∷ b ∷ c ∷ []) = is_hex a && (is_hex b && c == 10)
mac_groups (suc n) (a ∷ b ∷ c ∷ cs) = is_hex a && (is_hex b && (c == b':' && mac_groups n cs))
mac_groups _ _ = false

-- `_MAC_RE.match(mac)`
unfoldable pub mac_matches : String → Bool
unfolding mac_groups is_hex nat_eq
mac_matches mac = mac_groups 5 (codes mac)

-- `int(text)` of a text of decimal digits.
unfoldable pub decimal : ℕ → List ℕ → ℕ
decimal n [] = n
decimal n (c ∷ cs) = decimal (n * 10 + (c - b'0')) cs
