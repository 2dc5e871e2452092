-- ===== src/Network/Unique.antt =====
-- network.py: `_check_ports_unique` lets no two plugs share a port of a switch.
use mininet_zone_segmentatio.Base.{
  ℕ, zero, suc, String, ◌≡◌, ap, true, false, ◌||◌, ◌&&◌, ◌⊎◌, some, List, [], ◌∷◌, ◌++◌, arith,
  ◌==◌, nat_eq, string_eq, pair_eq, pair-==, contains, Dict, inl, inr, Option-cases, ok,
}
use mininet_zone_segmentatio.Network.{
  Value, missing, number, negative, boolean, text, port_number, Uplink, Host,
}
use mininet_zone_segmentatio.Network.Load.{positive}
use mininet_zone_segmentatio.Network.Hosts.{
  Attachment, check_ports, host_attachments, uplink_attachments,
}

-- No attachment uses a port in `used`, or one that an earlier attachment uses.
abbrev pub Unique : List (String × ℕ) → List Attachment → Type 0
Unique used [] = Unit
Unique used (a ∷ plugs) =
    (contains used (a.switch, port_number a.port) ≡ false)
    × Unique ((a.switch, port_number a.port) ∷ used) plugs

positive-number : (v : Value) {n : ℕ} → positive v ≡ some n → port_number v ≡ n
unfolding positive port_number
positive-number (number zero) h = cc
positive-number (number (suc n)) h = cc h
positive-number (boolean true) h = cc h
positive-number (boolean false) h = cc
positive-number missing h = cc
positive-number (negative n) h = cc
positive-number (text s) h = cc

pub check_ports-Unique :
    (used : List (String × ℕ)) (plugs : List Attachment)
    → check_ports used plugs ≡ ok tt
    → Unique used plugs
unfolding check_ports
check_ports-Unique used [] h = tt
check_ports-Unique used (a ∷ plugs) h = elim (Option-cases (positive a.port)) [
  | inl e ↦ absurd (ground arith)
  | inr (n, e) ↦
      let same : port_number a.port ≡ n = positive-number a.port e in
      rw same (ground (arith, check_ports-Unique ((a.switch, n) ∷ used) plugs))
]

-- No host is plugged into the port of the switch.
abbrev pub NoHost : String → ℕ → Dict String Host → Type 0
NoHost switch n [] = Unit
NoHost switch n ((_, h) ∷ hosts) =
    ((h.switch == switch && port_number h.port == n) ≡ false) × NoHost switch n hosts

-- No uplink ends at the port of the core.
abbrev pub NoUplink : ℕ → Dict String Uplink → Type 0
NoUplink n [] = Unit
NoUplink n ((_, link) ∷ uplinks) = ((port_number link.core_port == n) ≡ false) × NoUplink n uplinks

pub contains-cons :
    (x y : String) (m n : ℕ) (used : List (String × ℕ))
    → contains ((y, n) ∷ used) (x, m) ≡ ((x == y && m == n) || contains used (x, m))
unfolding contains
contains-cons x y m n used = ground (arith, pair-== x m y n)

-- What hosts take stays taken.
pub Unique-hosts :
    (used : List (String × ℕ)) (hosts : Dict String Host) (plugs : List Attachment)
    (switch : String) (n : ℕ)
    → Unique used (host_attachments hosts ++ plugs)
    → (all : List (String × ℕ)) × Unique all plugs
      × (contains all (switch, n) ≡ false
          → NoHost switch n hosts × (contains used (switch, n) ≡ false))
unfolding host_attachments
Unique-hosts used [] plugs switch n u = (used, u, λ free. (tt, free))
Unique-hosts used ((name, h) ∷ hosts) plugs switch n (free, u) =
    let (all, v, later) =
      Unique-hosts ((h.switch, port_number h.port) ∷ used) hosts plugs switch n u in
    (
      all,
      v,
      λ f.
          let (none_here, clear) = later f in
          let split = contains-cons switch h.switch n (port_number h.port) used in
          ((ground arith, none_here), ground arith),
    )

-- The element stands in the list.
abbrev pub In : {A : Type 0} → A → List A → Type 0
In x [] = ⊥
In x (y ∷ ys) = (x ≡ y) ⊎ In x ys

-- The core's end of an uplink is not taken before.
pub core_port-free :
    (used : List (String × ℕ)) (core leaf : String) (link : Uplink) (uplinks : Dict String Uplink)
    → Unique used (uplink_attachments core uplinks)
    → In (leaf, link) uplinks
    → contains used (core, port_number link.core_port) ≡ false
unfolding uplink_attachments
core_port-free used core leaf link [] u here = elim here [ ]
core_port-free used core leaf link ((l, k) ∷ uplinks) (free, (taken, u)) (inl e) =
    let same : link ≡ k = ap (λ (q : String × Uplink). q.1) e in
    let split = contains-cons core l (port_number k.core_port) (port_number k.leaf_port) used in
    rw same (ground arith)
core_port-free used core leaf link ((l, k) ∷ uplinks) (free, (taken, u)) (inr later) =
    let n = port_number link.core_port in
    let rest =
      core_port-free ((core, port_number k.core_port) ∷ (l, port_number k.leaf_port) ∷ used) core
        leaf link uplinks u later in
    let outer =
      contains-cons core core n (port_number k.core_port) ((l, port_number k.leaf_port) ∷ used) in
    let inner = contains-cons core l n (port_number k.leaf_port) used in ground arith

-- A port of the core that is taken is the end of no uplink that follows.
pub taken-NoUplink :
    (used : List (String × ℕ)) (core : String) (n : ℕ) (uplinks : Dict String Uplink)
    → Unique used (uplink_attachments core uplinks)
    → contains used (core, n) ≡ true
    → NoUplink n uplinks
unfolding uplink_attachments
taken-NoUplink used core n [] u h = tt
taken-NoUplink used core n ((l, k) ∷ uplinks) (free, (taken, u)) h =
    let first = contains-cons core l (port_number k.core_port) (port_number k.leaf_port) used in
    let outer =
      contains-cons core core n (port_number k.core_port) ((l, port_number k.leaf_port) ∷ used) in
    let inner = contains-cons core l n (port_number k.leaf_port) used in
    (
      ground arith,
      taken-NoUplink ((core, port_number k.core_port) ∷ (l, port_number k.leaf_port) ∷ used) core n
          uplinks u (ground arith),
    )
