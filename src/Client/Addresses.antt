-- ===== src/Client/Addresses.antt =====
-- firewall_client.py: the addresses that `is_allowed` is given as text, or as what prints as text.
use mininet_zone_segmentatio.Base.{ℕ, ◌<◌, ◌^◌, ◌≡◌, refl, Option, some, List, nat_eq}
use mininet_zone_segmentatio.Address.Parse.{parse_address}
use mininet_zone_segmentatio.Address.Print.{address_text, parse_address-address_text}
use mininet_zone_segmentatio.Client.{Client, Net, Outcome, is_allowed}

-- The exception of `ipaddress.IPv4Address`, or what `is_allowed` comes to.
pub data Answer : Type 0 where
  address_value_error : Answer
  outcome : Outcome → Answer

with_addresses : Net → Option ℕ → Option ℕ → ℕ → ℕ → ℕ → Client → Answer × Client
with_addresses net (some src) (some dst) protocol src_port dst_port c =
    let (o, c') = is_allowed net src dst protocol src_port dst_port c in (outcome o, c')
with_addresses net _ _ protocol src_port dst_port c = (address_value_error, c)

-- `is_allowed`, from the conversions `int(ipaddress.IPv4Address(str(ip)))` on.
unfoldable pub is_allowed_text : Net → List ℕ → List ℕ → ℕ → ℕ → ℕ → Client → Answer × Client
unfolding with_addresses
is_allowed_text net src_ip dst_ip protocol src_port dst_port c =
    with_addresses net (parse_address src_ip) (parse_address dst_ip) protocol src_port dst_port c

-- For the text that an IPv4 address prints as, `is_allowed` asks for that very address; and the
-- conversions raise nothing.
pub is_allowed_text-address_text :
    (net : Net) (src dst protocol src_port dst_port : ℕ) (c : Client)
    → src < 2 ^ 32
    → dst < 2 ^ 32
    → (let r = is_allowed net src dst protocol src_port dst_port c in
        is_allowed_text net (address_text src) (address_text dst) protocol src_port dst_port c
        ≡ (outcome r.0, r.1))
unfolding is_allowed_text
is_allowed_text-address_text net src dst protocol src_port dst_port c a b =
    rw (parse_address-address_text src a, parse_address-address_text dst b) refl
