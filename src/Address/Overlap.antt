-- ===== src/Address/Overlap.antt =====
-- Two subnets that do not overlap have no address in common.
use native.Mathlib.Nat.{div-mul-le_self, lt-div-mul-add, div-eq_of_lt-le, pow-suc}
use mininet_zone_segmentatio.Base.{
  ℕ, zero, suc, ◌+◌, ◌-◌, ◌*◌, ◌/◌, ◌^◌, ◌≤◌, ◌<◌, ◌≡◌, ◌↔◌, true, false, arith, ◌==◌, nat_eq,
  ==_iff, Bool-cases, inl, inr, String, some, ap, ◌∙◌,
}
use mininet_zone_segmentatio.Address.Parse.{ip_network, ip_network-aligned}
use mininet_zone_segmentatio.Address.{Subnet, num_addresses, in_subnet, overlaps}

-- No bit of the network address is set behind the prefix.
abbrev pub IsAligned : Subnet → Type 0
IsAligned s = s.network_address / num_addresses s * num_addresses s ≡ s.network_address

pub ip_network-IsAligned : (text : String) {s : Subnet} → ip_network text ≡ some s → IsAligned s
unfolding num_addresses
ip_network-IsAligned text h = ip_network-aligned text h

pow-pos : (n : ℕ) → 0 < 2 ^ n
pow-pos zero = omega arith
pow-pos (suc n) = rw pow-suc (omega (arith, pow-pos n))

pub num_addresses-pos : (s : Subnet) → 0 < num_addresses s
unfolding num_addresses
num_addresses-pos s = pow-pos (32 - s.prefixlen)

-- An aligned subnet is the interval of its addresses.
pub in_subnet_iff :
    (a : ℕ) (s : Subnet)
    → IsAligned s
    → (in_subnet a s ≡ true) ↔ ((s.network_address ≤ a) × (a < s.network_address + num_addresses s))
unfolding in_subnet
in_subnet_iff a s h = (forward, backward)
  where
    forward :
        (a / num_addresses s * num_addresses s == s.network_address) ≡ true
        → (s.network_address ≤ a) × (a < s.network_address + num_addresses s)
    forward e =
        ground
          (arith, div-mul-le_self a (num_addresses s), lt-div-mul-add {a = a} (num_addresses-pos s))

    backward :
        (s.network_address ≤ a) × (a < s.network_address + num_addresses s)
        → (a / num_addresses s * num_addresses s == s.network_address) ≡ true
    backward b = (==_iff _ _).1 (
        ap (λ (q : ℕ). q * num_addresses s)
          (div-eq_of_lt-le {k = s.network_address / num_addresses s} (num_addresses s) {m = a}
            (omega arith) (omega arith))
        ∙ h)

-- Aligned subnets that do not overlap have no address in common.
pub overlaps-disjoint :
    (s t : Subnet) (a : ℕ)
    → IsAligned s
    → IsAligned t
    → overlaps s t ≡ false
    → in_subnet a s ≡ true
    → in_subnet a t ≡ false
unfolding overlaps
overlaps-disjoint s t a hs ht apart ins = elim (Bool-cases (in_subnet a t)) [
  | inr out ↦ out
  | inl int ↦ absurd (clash ((in_subnet_iff a s hs).0 ins) ((in_subnet_iff a t ht).0 int))
]
  where
    clash :
        (s.network_address ≤ a) × (a < s.network_address + num_addresses s)
        → (t.network_address ≤ a) × (a < t.network_address + num_addresses t)
        → ⊥
    clash p q = ground (
      arith,
      (in_subnet_iff s.network_address t ht).1,
      (in_subnet_iff t.network_address s hs).1,
      num_addresses-pos s,
      num_addresses-pos t,
    )
