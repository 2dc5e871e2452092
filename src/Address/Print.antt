-- ===== src/Address/Print.antt =====
-- `str(ipaddress.IPv4Address(n))`, which firewall_client.py reads back, and `str` of a network.
use mininet_zone_segmentatio.Base.{
  ℕ, ◌/◌, ◌%◌, ◌^◌, ◌<◌, ◌≡◌, refl, ◌∙◌, ap, sym, true, false, not, ◌&&◌, some, List, [], ◌∷◌, ◌++◌,
  ◌==◌, nat_eq, option_eq, arith, contains,
}
use mathlib.Core.List.{append_assoc, append-nil}
use mininet_zone_segmentatio.Text.{split, split_from, is_digit, decimal}
use mininet_zone_segmentatio.Text.Print.{decimal_text, all_below, all_below-test}
use mininet_zone_segmentatio.Address.{Subnet}
use mininet_zone_segmentatio.Address.Parse.{
  parse_address, octet, dotted_quad, four_octets, all_digits, leading_zero,
}

unfoldable pub address_text : ℕ → List ℕ
address_text n =
    decimal_text (n / 2 ^ 24)
    ++ (b'.' ∷ decimal_text (n / 2 ^ 16 % 256)
        ++ (b'.' ∷ decimal_text (n / 2 ^ 8 % 256) ++ (b'.' ∷ decimal_text (n % 256))))

unfoldable pub network_text : Subnet → List ℕ
network_text s = address_text s.network_address ++ (b'/' ∷ decimal_text s.prefixlen)

-- Up to 255 a number is a text of digits that `octet` reads.
octets :
    all_below 256 (λ a. (octet (decimal_text a) == some a) && not (contains (decimal_text a) b'.'))
    ≡ true
unfolding all_below octet decimal_text all_digits is_digit leading_zero decimal contains nat_eq
    option_eq
octets = refl

octet-decimal_text : (a : ℕ) → a < 256 → octet (decimal_text a) ≡ some a
octet-decimal_text a h = ground (
  arith,
  all_below-test 256
      (λ a. (octet (decimal_text a) == some a) && not (contains (decimal_text a) b'.')) a octets,
)

decimal_text-dot : (a : ℕ) → a < 256 → contains (decimal_text a) b'.' ≡ false
decimal_text-dot a h = ground (
  arith,
  all_below-test 256
      (λ a. (octet (decimal_text a) == some a) && not (contains (decimal_text a) b'.')) a octets,
)

-- A part without the separator is split off whole.
split_from-part :
    (sep : ℕ) (part cs more : List ℕ)
    → contains cs sep ≡ false
    → split_from sep part (cs ++ (sep ∷ more)) ≡ (part ++ cs) ∷ split_from sep [] more
unfolding split_from contains
split_from-part sep part [] more h =
    let same : (sep == sep) ≡ true = ground arith in
    rw (same, split_from) (ap (λ (l : List ℕ). l ∷ split_from sep [] more) (sym (append-nil part)))
split_from-part sep part (c ∷ cs) more h =
    let other : (c == sep) ≡ false = ground arith in
    rw (other, split_from)
      (split_from-part sep (part ++ (c ∷ [])) cs more (ground arith)
        ∙ ap (λ (l : List ℕ). l ∷ split_from sep [] more) (append_assoc part (c ∷ []) cs))

split_from-last :
    (sep : ℕ) (part cs : List ℕ)
    → contains cs sep ≡ false
    → split_from sep part cs ≡ (part ++ cs) ∷ []
unfolding split_from contains
split_from-last sep part [] h = ap (λ (l : List ℕ). l ∷ []) (sym (append-nil part))
split_from-last sep part (c ∷ cs) h =
    let other : (c == sep) ≡ false = ground arith in
    rw (other, split_from)
      (split_from-last sep (part ++ (c ∷ [])) cs (ground arith)
        ∙ ap (λ (l : List ℕ). l ∷ []) (append_assoc part (c ∷ []) cs))

split-address_text :
    (a b c d : ℕ)
    → a < 256
    → b < 256
    → c < 256
    → d < 256
    → split b'.' (
        decimal_text a
        ++ (b'.' ∷ decimal_text b ++ (b'.' ∷ decimal_text c ++ (b'.' ∷ decimal_text d))))
      ≡ decimal_text a ∷ decimal_text b ∷ decimal_text c ∷ decimal_text d ∷ []
unfolding split
split-address_text a b c d ha hb hc hd =
    split_from-part b'.' [] (decimal_text a) _ (decimal_text-dot a ha)
    ∙ ap (λ l. decimal_text a ∷ l)
        (split_from-part b'.' [] (decimal_text b) _ (decimal_text-dot b hb)
          ∙ ap (λ l. decimal_text b ∷ l)
              (split_from-part b'.' [] (decimal_text c) _ (decimal_text-dot c hc)
                ∙ ap (λ l. decimal_text c ∷ l)
                    (split_from-last b'.' [] (decimal_text d) (decimal_text-dot d hd))))

-- Every IPv4 address is read back from its text.
pub parse_address-address_text : (n : ℕ) → n < 2 ^ 32 → parse_address (address_text n) ≡ some n
unfolding parse_address address_text dotted_quad four_octets
parse_address-address_text n h =
    let a = n / 2 ^ 24 in
    let b = n / 2 ^ 16 % 256 in
    let c = n / 2 ^ 8 % 256 in
    let d = n % 256 in
    let la : a < 256 = omega arith in
    let lb : b < 256 = omega arith in
    let lc : c < 256 = omega arith in
    let ld : d < 256 = omega arith in
    rw (split-address_text a b c d la lb lc ld) (
      rw
        (
          octet-decimal_text a la,
          octet-decimal_text b lb,
          octet-decimal_text c lc,
          octet-decimal_text d ld,
        )
        (ap some (omega arith)))
