-- ===== src/Router/Zones.antt =====
-- controller.py: ZONE_CORE_PORTS is the inverse of CORE_PORT_ZONES, and a flood at the core stays within
-- the zone of its ingress port.
use mininet_zone_segmentatio.Base.{
  ℕ, String, ◌≡◌, ◌≢◌, ◌↔◌, refl, ◌∙◌, sym, Bool, true, false, not, ◌||◌, ◌&&◌, Option, none, some,
  List, [], ◌∷◌, ◌++◌, arith, ◌==◌, nat_eq, string_eq, option_eq, contains, Dict, lookup,
  lookup-nil, lookup-cons, Bool-cases, inl, inr, lookup-insert, insert, NodupKeys, if◌then◌else◌,
}
use mathlib.Core.List.{append-nil, append_assoc}
use mininet_zone_segmentatio.Network.{Network, port_maps}
use mininet_zone_segmentatio.Network.Keys.{port_maps-NodupKeys}
use mininet_zone_segmentatio.Router.{
  received, output, packet_out, Effect, send, Router, Config, PacketIn,
}
use mininet_zone_segmentatio.Router.Ports.{join, group_ports, list_or_empty, zone_core_ports}
use mininet_zone_segmentatio.Router.Output.{emit, send_data, each_port, flood_in_zone}

-- The dict has the entry.
has_entry : Dict ℕ (Option String) → ℕ → Option String → Bool
has_entry [] port w = false
has_entry ((p, z) ∷ zones) port w = (port == p && w == z) || has_entry zones port w

contains-append_one : (l : List ℕ) (x y : ℕ) → contains (l ++ (x ∷ [])) y ≡ (contains l y || y == x)
unfolding contains
contains-append_one [] x y = ground arith
contains-append_one (z ∷ l) x y = ground (arith, contains-append_one l x y)

contains-group_ports :
    (zones : Dict ℕ (Option String)) (groups : Dict (Option String) (List ℕ)) (port : ℕ)
    (w : Option String)
    → contains (list_or_empty (lookup w (group_ports zones groups))) port
      ≡ (contains (list_or_empty (lookup w groups)) port || has_entry zones port w)
unfolding group_ports has_entry
contains-group_ports [] groups port w = ground arith
contains-group_ports ((p, z) ∷ zones) groups port w =
    let list = list_or_empty (lookup z groups) in
    let more = insert z (list ++ (p ∷ [])) groups in
    contains-group_ports zones more port w
    ∙ ground (arith, lookup-insert w z (list ++ (p ∷ [])) groups, contains-append_one list p port)

has_entry-lookup :
    (zones : Dict ℕ (Option String)) (port : ℕ) (w : Option String)
    → NodupKeys zones
    → (has_entry zones port w ≡ true) ↔ (lookup port zones ≡ some w)
unfolding has_entry lookup
has_entry-lookup [] port w u = (λ h. cc h, λ h. cc h)
has_entry-lookup ((p, z) ∷ zones) port w (fresh, u) =
    let (later, back) = has_entry-lookup zones port w u in
    (λ h. ground (arith, later, fresh), λ h. ground (arith, back, fresh))

-- No port is listed twice.
unfoldable pub Distinct : List ℕ → Type 0
Distinct [] = Unit
Distinct (port ∷ list) = (contains list port ≡ false) × Distinct list

Distinct-append_one :
    (l : List ℕ) (x : ℕ) → Distinct l → contains l x ≡ false → Distinct (l ++ (x ∷ []))
unfolding Distinct contains
Distinct-append_one [] x u h = (refl, tt)
Distinct-append_one (y ∷ l) x (fresh, u) h =
    (ground (arith, contains-append_one l x y), Distinct-append_one l x u (ground arith))

Distinct-insert :
    (groups : Dict (Option String) (List ℕ)) (z v : Option String) (list : List ℕ)
    → Distinct list
    → Distinct (list_or_empty (lookup v groups))
    → Distinct (list_or_empty (lookup v (insert z list groups)))
Distinct-insert groups z v list a b = elim (Bool-cases (v == z)) [
  | inl e ↦ rw (lookup-insert v z list groups, e) a
  | inr e ↦ rw (lookup-insert v z list groups, e) b
]

contains-insert :
    (groups : Dict (Option String) (List ℕ)) (z v : Option String) (p q : ℕ)
    → contains (list_or_empty (lookup z groups)) q ≡ false
    → contains (list_or_empty (lookup v groups)) q ≡ false
    → (q == p) ≡ false
    → contains
        (list_or_empty (lookup v (insert z (list_or_empty (lookup z groups) ++ (p ∷ [])) groups)))
        q
      ≡ false
contains-insert groups z v p q a b ne =
    let list = list_or_empty (lookup z groups) in
    elim (Bool-cases (v == z)) [
      | inl e ↦
          rw (lookup-insert v z (list ++ (p ∷ [])) groups, e)
            (rw (contains-append_one list p q, a, ne) refl)
      | inr e ↦ rw (lookup-insert v z (list ++ (p ∷ [])) groups, e) b
    ]

Distinct-group_ports :
    (zones : Dict ℕ (Option String)) (groups : Dict (Option String) (List ℕ)) (w : Option String)
    → NodupKeys zones
    → ((v : Option String) → Distinct (list_or_empty (lookup v groups)))
    → ((v : Option String) (p : ℕ)
        → lookup p zones ≢ none
        → contains (list_or_empty (lookup v groups)) p ≡ false)
    → Distinct (list_or_empty (lookup w (group_ports zones groups)))
unfolding group_ports
Distinct-group_ports [] groups w u fine apart = fine w
Distinct-group_ports ((p, z) ∷ zones) groups w (fresh, u) fine apart =
    let list = list_or_empty (lookup z groups) in
    let first : lookup p ((p, z) ∷ zones) ≢ none = ground (arith, lookup-cons p p z zones) in
    let later = λ (q : ℕ) (there : lookup q zones ≢ none). apart_from p z q fresh there in
    Distinct-group_ports zones (insert z (list ++ (p ∷ [])) groups) w u
      (λ v.
        Distinct-insert groups z v (list ++ (p ∷ []))
          (Distinct-append_one list p (fine z) (apart z p first)) (fine v))
      (λ v q there.
        contains-insert groups z v p q (apart z q (later q there).1) (apart v q (later q there).1)
          (later q there).0)
  where
    apart_from :
        (p : ℕ) (z : Option String) (q : ℕ)
        → lookup p zones ≡ none
        → lookup q zones ≢ none
        → ((q == p) ≡ false) × (lookup q ((p, z) ∷ zones) ≢ none)
    apart_from p z q fresh there = elim (nat_eq.dec q p) [
      | yes e ↦ absurd (there (rw e fresh))
      | no ne ↦
          let other : (q == p) ≡ false = ground arith in
          (other, rw (lookup-cons q p z zones, other) there)
    ]

-- One copy of the packet out of each port.
unfoldable pub copies : PacketIn → List ℕ → List Effect
copies e [] = []
copies e (port ∷ list) =
    send e.connection (packet_out (received e.packet) (output port ∷ [])) ∷ copies e list

-- The ports other than that of the ingress.
others : ℕ → List ℕ → List ℕ
others port [] = []
others port (p ∷ list) = let rest = others port list in if p == port then rest else p ∷ rest

contains-others :
    (port p : ℕ) (list : List ℕ)
    → contains (others port list) p ≡ (contains list p && not (p == port))
unfolding others contains
contains-others port p [] = refl
contains-others port p (q ∷ list) = ground (arith, contains-others port p list)

Distinct-others : (port : ℕ) (list : List ℕ) → Distinct list → Distinct (others port list)
unfolding others Distinct
Distinct-others port [] u = tt
Distinct-others port (p ∷ list) (fresh, u) = elim (Bool-cases (p == port)) [
  | inl e ↦ rw e (Distinct-others port list u)
  | inr e ↦ rw e (ground (arith, contains-others port p list), Distinct-others port list u)
]

abbrev copy : PacketIn → ℕ → Router → Router
copy e port s = if port == e.port then s else send_data e.connection e.packet port s

copies-branch :
    (e : PacketIn) (same : Bool) (port : ℕ) (list : List ℕ) (r : Router)
    → ((s : Router) → (each_port (copy e) list s).sent ≡ s.sent ++ copies e (others e.port list))
    → (each_port (copy e) list (if same then r else send_data e.connection e.packet port r)).sent
      ≡ r.sent ++ copies e (if same then others e.port list else port ∷ others e.port list)
unfolding copies send_data emit
copies-branch e true port list r ih = ih r
copies-branch e false port list r ih =
    ih (send_data e.connection e.packet port r)
    ∙ append_assoc r.sent
        (send e.connection (packet_out (received e.packet) (output port ∷ [])) ∷ [])
        (copies e (others e.port list))

each_port-copies :
    (e : PacketIn) (list : List ℕ) (r : Router)
    → (each_port (copy e) list r).sent ≡ r.sent ++ copies e (others e.port list)
unfolding each_port copies others
each_port-copies e [] r = sym (append-nil r.sent)
each_port-copies e (port ∷ list) r =
    copies-branch e (port == e.port) port list r (λ s. each_port-copies e list s)

-- With the port maps of a layout, a packet that is flooded at the core goes out, one copy each, of
-- exactly the ports that are in the zone of its ingress port, without the ingress port itself: no
-- port gets two copies.
pub flood_in_zone-copies :
    (c : Config) (net : Network) (e : PacketIn) (r : Router)
    → port_maps net ≡ some c.maps
    → e.dpid ≡ c.maps.core_dpid
    → (out : List ℕ) × ((flood_in_zone c e r).sent ≡ r.sent ++ copies e out)
      × Distinct out
      × ((port : ℕ)
          → (contains out port ≡ true) ↔ (
              (lookup port c.maps.core_port_zones
                ≡ some (join (lookup e.port c.maps.core_port_zones)))
              × (port ≢ e.port)))
unfolding flood_in_zone zone_core_ports contains Distinct
flood_in_zone-copies c net e r mapped core =
    let u = port_maps-NodupKeys net c.maps mapped in
    let zones = c.maps.core_port_zones in
    let w = join (lookup e.port zones) in
    let list = zone_core_ports c.maps w in
    let at_core : (e.dpid == c.maps.core_dpid) ≡ true = ground arith in
    (
      others e.port list,
      rw at_core (each_port-copies e list r),
      Distinct-others e.port list (
          Distinct-group_ports zones [] w u (λ v. rw (lookup-nil {V = List ℕ} v) tt)
            (λ v p _. rw (lookup-nil {V = List ℕ} v) refl)),
      λ port.
          let (there, back) = has_entry-lookup zones port w u in
          let grouped = contains-group_ports zones [] port w in
          let split = contains-others e.port port list in
          let empty = lookup-nil {V = List ℕ} w in
          (
            λ h. ground (arith, there, grouped, split, empty),
            λ h. ground (arith, back, grouped, split, empty),
          ),
    )
