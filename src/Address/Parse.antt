-- ===== src/Address/Parse.antt =====
-- `ipaddress.ip_address(text)` and `ipaddress.ip_network(text)`, for IPv4 text.
use mininet_zone_segmentatio.Base.{
  ℕ, zero, suc, ◌+◌, ◌-◌, ◌*◌, ◌/◌, ◌^◌, ◌≤◌, ◌<◌, String, Bool, true, false, not, ◌&&◌, ◌≡◌, refl,
  Option, none, some, List, [], ◌∷◌, leb, ◌==◌, nat_eq, length, arith, if◌then◌else◌,
}
use mininet_zone_segmentatio.Text.{codes, split, is_digit, decimal}
use mininet_zone_segmentatio.Address.{Subnet}

unfoldable pub all_digits : List ℕ → Bool
all_digits [] = true
all_digits (c ∷ cs) = is_digit c && all_digits cs

-- A zero in front of more digits.
unfoldable pub leading_zero : List ℕ → Bool
leading_zero (c ∷ d ∷ cs) = c == b'0'
leading_zero _ = false

-- One to three digits, at most 255, no leading zero.
unfoldable pub octet : List ℕ → Option ℕ
octet cs =
    if all_digits cs
      && (leb 1 (length cs)
          && (leb (length cs) 3 && (not (leading_zero cs) && leb (decimal 0 cs) 255)))
    then some (decimal 0 cs)
    else none

unfoldable pub four_octets : Option ℕ → Option ℕ → Option ℕ → Option ℕ → Option ℕ
four_octets (some a) (some b) (some c) (some d) = some (((a * 256 + b) * 256 + c) * 256 + d)
four_octets _ _ _ _ = none

unfoldable pub dotted_quad : List (List ℕ) → Option ℕ
dotted_quad (a ∷ b ∷ c ∷ d ∷ []) = four_octets (octet a) (octet b) (octet c) (octet d)
dotted_quad _ = none

-- The address, or the `ValueError` as `none`.
unfoldable pub parse_address : List ℕ → Option ℕ
unfolding split is_digit decimal octet four_octets dotted_quad all_digits leading_zero nat_eq
parse_address text = dotted_quad (split b'.' text)

unfoldable pub ip_address : String → Option ℕ
unfolding parse_address
ip_address text = parse_address (codes text)

-- The first prefix length, from `p` on, whose netmask (or host mask) the number is.
find_mask : ℕ → (ℕ → ℕ) → ℕ → ℕ → Option ℕ
find_mask zero mask p m = none
find_mask (suc fuel) mask p m = elim (m == mask p) [
  | true ↦ some p
  | false ↦ find_mask fuel mask (suc p) m
]

netmask : ℕ → ℕ
netmask p = 2 ^ 32 - 2 ^ (32 - p)

hostmask : ℕ → ℕ
hostmask p = 2 ^ (32 - p) - 1

or_hostmask : Option ℕ → ℕ → Option ℕ
or_hostmask (some p) m = some p
or_hostmask none m = find_mask 33 hostmask 0 m

mask_prefix : Option ℕ → Option ℕ
mask_prefix none = none
mask_prefix (some m) = or_hostmask (find_mask 33 netmask 0 m) m

-- The part behind the slash: a prefix length, or else a netmask or a host mask.
prefix : List ℕ → Option ℕ
prefix cs =
    if all_digits cs && leb 1 (length cs)
    then (if leb (decimal 0 cs) 32 then some (decimal 0 cs) else none)
    else mask_prefix (parse_address cs)

-- `strict=True`: no bit of the address may be set behind the prefix.
strict : Option ℕ → Option ℕ → Option Subnet
strict (some a) (some p) =
    if a / 2 ^ (32 - p) * 2 ^ (32 - p) == a
    then some (record { network_address = a; prefixlen = p })
    else none
strict _ _ = none

network_parts : List (List ℕ) → Option Subnet
network_parts (a ∷ []) = strict (parse_address a) (some 32)
network_parts (a ∷ p ∷ []) = strict (parse_address a) (prefix p)
network_parts _ = none

unfoldable pub ip_network : String → Option Subnet
unfolding parse_address network_parts strict prefix mask_prefix or_hostmask find_mask netmask
    hostmask
ip_network text = network_parts (split b'/' (codes text))

-- A network that parses has no bit set behind its prefix.
strict-aligned :
    (a p : Option ℕ) {s : Subnet}
    → strict a p ≡ some s
    → s.network_address / 2 ^ (32 - s.prefixlen) * 2 ^ (32 - s.prefixlen) ≡ s.network_address
unfolding strict
strict-aligned none p h = cc
strict-aligned (some a) none h = cc
strict-aligned (some a) (some p) h = ground arith

network_parts-aligned :
    (parts : List (List ℕ)) {s : Subnet}
    → network_parts parts ≡ some s
    → s.network_address / 2 ^ (32 - s.prefixlen) * 2 ^ (32 - s.prefixlen) ≡ s.network_address
unfolding network_parts
network_parts-aligned [] h = cc
network_parts-aligned (a ∷ []) h = strict-aligned (parse_address a) (some 32) h
network_parts-aligned (a ∷ p ∷ []) h = strict-aligned (parse_address a) (prefix p) h
network_parts-aligned (a ∷ p ∷ q ∷ r) h = cc

pub ip_network-aligned :
    (text : String) {s : Subnet}
    → ip_network text ≡ some s
    → s.network_address / 2 ^ (32 - s.prefixlen) * 2 ^ (32 - s.prefixlen) ≡ s.network_address
unfolding ip_network
ip_network-aligned text h = network_parts-aligned (split b'/' (codes text)) h

-- An address that parses has 32 bits.
octet-le : (cs : List ℕ) {n : ℕ} → octet cs ≡ some n → n ≤ 255
unfolding octet
octet-le cs {n} h = ground arith

abbrev Small : Option ℕ → Type 0
Small o = (n : ℕ) → o ≡ some n → n ≤ 255

four_octets-lt :
    (a b c d : Option ℕ) {n : ℕ}
    → Small a
    → Small b
    → Small c
    → Small d
    → four_octets a b c d ≡ some n
    → n < 2 ^ 32
unfolding four_octets
four_octets-lt (some a) (some b) (some c) (some d) ha hb hc hd h =
    ground (arith, ha a refl, hb b refl, hc c refl, hd d refl)
four_octets-lt none b c d ha hb hc hd h = cc
four_octets-lt (some a) none c d ha hb hc hd h = cc
four_octets-lt (some a) (some b) none d ha hb hc hd h = cc
four_octets-lt (some a) (some b) (some c) none ha hb hc hd h = cc

dotted_quad-lt : (parts : List (List ℕ)) {n : ℕ} → dotted_quad parts ≡ some n → n < 2 ^ 32
unfolding dotted_quad
dotted_quad-lt (a ∷ b ∷ c ∷ d ∷ []) h =
    four_octets-lt (octet a) (octet b) (octet c) (octet d) (λ n. octet-le a) (λ n. octet-le b)
      (λ n. octet-le c) (λ n. octet-le d) h
dotted_quad-lt [] h = cc
dotted_quad-lt (a ∷ []) h = cc
dotted_quad-lt (a ∷ b ∷ []) h = cc
dotted_quad-lt (a ∷ b ∷ c ∷ []) h = cc
dotted_quad-lt (a ∷ b ∷ c ∷ d ∷ e ∷ more) h = cc

pub parse_address-lt : (text : List ℕ) {n : ℕ} → parse_address text ≡ some n → n < 2 ^ 32
unfolding parse_address
parse_address-lt text h = dotted_quad-lt (split b'.' text) h

strict-eq : (a p : Option ℕ) {s : Subnet} → strict a p ≡ some s → a ≡ some s.network_address
unfolding strict
strict-eq none p h = cc
strict-eq (some a) none h = cc
strict-eq (some a) (some p) h = ground arith

strict-lt :
    (text : List ℕ) (p : Option ℕ) {s : Subnet}
    → strict (parse_address text) p ≡ some s
    → s.network_address < 2 ^ 32
strict-lt text p h = parse_address-lt text (strict-eq (parse_address text) p h)

network_parts-lt :
    (parts : List (List ℕ)) {s : Subnet} → network_parts parts ≡ some s → s.network_address < 2 ^ 32
unfolding network_parts
network_parts-lt [] h = cc
network_parts-lt (a ∷ []) h = strict-lt a (some 32) h
network_parts-lt (a ∷ p ∷ []) h = strict-lt a (prefix p) h
network_parts-lt (a ∷ p ∷ q ∷ r) h = cc

pub ip_network-lt :
    (text : String) {s : Subnet} → ip_network text ≡ some s → s.network_address < 2 ^ 32
unfolding ip_network
ip_network-lt text h = network_parts-lt (split b'/' (codes text)) h

-- Tests.
address_test : ip_address "10.1.3.178" ≡ some 167838642
unfolding ip_address
address_test = refl

address_errors :
    (ip_address "10.1.3" ≡ none)
    × (ip_address "10.1.3.256" ≡ none)
    × (ip_address "10.01.3.1" ≡ none)
unfolding ip_address
address_errors = (refl, refl, refl)

network_test :
    (ip_network "10.1.1.0/24" ≡ some (record { network_address = 167837952; prefixlen = 24 }))
    × (ip_network "10.1.1.0/255.255.255.0"
        ≡ some (record { network_address = 167837952; prefixlen = 24 }))
    × (ip_network "10.1.1.1/24" ≡ none)
    × (ip_network "10.0.1.0/33" ≡ none)
unfolding ip_network
network_test = (refl, refl, refl, refl)
