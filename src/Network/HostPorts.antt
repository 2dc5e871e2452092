-- ===== src/Network/HostPorts.antt =====
-- network.py: the zones that `port_maps` gives to the ports of hosts.
use mininet_zone_segmentatio.Base.{
  ℕ, String, ◌≡◌, refl, ◌∙◌, ap, sym, true, false, ◌&&◌, Option, some, List, [], ◌∷◌, ◌++◌, arith,
  ◌==◌, nat_eq, string_eq, pair_eq, contains, Dict, lookup, lookup-insert, inl, inr, Bool-cases,
}
use mininet_zone_segmentatio.Network.{Switch, Host, port_number, host_zones, switch_zones}
use mininet_zone_segmentatio.Network.Hosts.{Attachment, host_attachments}
use mininet_zone_segmentatio.Network.Unique.{Unique, In, NoHost, contains-cons}
use mininet_zone_segmentatio.Network.Maps.{lookup-host_zones}

-- A port that is taken is the port of no host that follows.
taken-NoHost :
    (used : List (String × ℕ)) (switch : String) (n : ℕ) (hosts : Dict String Host)
    (plugs : List Attachment)
    → Unique used (host_attachments hosts ++ plugs)
    → contains used (switch, n) ≡ true
    → NoHost switch n hosts
unfolding host_attachments
taken-NoHost used switch n [] plugs u taken = tt
taken-NoHost used switch n ((name, h) ∷ hosts) plugs (free, u) taken =
    let split = contains-cons switch h.switch n (port_number h.port) used in
    (
      elim (Bool-cases (h.switch == switch && port_number h.port == n)) [
        | inl e ↦ absurd (ground arith)
        | inr e ↦ e
      ],
      taken-NoHost ((h.switch, port_number h.port) ∷ used) switch n hosts plugs u (ground arith),
    )

-- A host on the core gives its port its zone.
pub host_zones-host :
    (core name : String) (h : Host) (hosts : Dict String Host) (ports : Dict ℕ (Option String))
    (used : List (String × ℕ)) (plugs : List Attachment)
    → Unique used (host_attachments hosts ++ plugs)
    → In (name, h) hosts
    → h.switch ≡ core
    → lookup (port_number h.port) (host_zones core hosts ports) ≡ some (some h.zone)
unfolding host_zones host_attachments
host_zones-host core name h [] ports used plugs u here at = elim here [ ]
host_zones-host core name h ((m, k) ∷ hosts) ports used plugs (free, u) (inl e) at =
    let same : h ≡ k = ap (λ (q : String × Host). q.1) e in
    let n = port_number h.port in
    let taken = contains-cons core k.switch n (port_number k.port) used in
    let later =
      taken-NoHost ((k.switch, port_number k.port) ∷ used) core n hosts plugs u (ground arith) in
    lookup-host_zones core hosts _ n later
    ∙ ground (arith, lookup-insert n (port_number k.port) (some k.zone) ports)
host_zones-host core name h ((m, k) ∷ hosts) ports used plugs (free, u) (inr later) at =
    host_zones-host core name h hosts _ ((k.switch, port_number k.port) ∷ used) plugs u later at

-- The switches with the dpid are leaves of one zone.
abbrev Agree : ℕ → Option String → String → Dict String Switch → Type 0
Agree d z core [] = Unit
Agree d z core ((name, s) ∷ switches) =
    (s.dpid ≡ d → (s.zone ≡ z) × ((name == core) ≡ false)) × Agree d z core switches

switch_zones-kept :
    (core : String) (switches : Dict String Switch) (zones : Dict ℕ (Option String)) (d : ℕ)
    (z : Option String)
    → Agree d z core switches
    → lookup d zones ≡ some z
    → lookup d (switch_zones core switches zones) ≡ some z
unfolding switch_zones
switch_zones-kept core [] zones d z agree found = found
switch_zones-kept core ((name, s) ∷ switches) zones d z (here, agree) found =
    switch_zones-kept core switches _ d z agree (elim (nat_eq.dec s.dpid d) [
      | yes e ↦ let (zone, leaf) = here e in ground (arith, lookup-insert d s.dpid s.zone zones)
      | no ne ↦ ground (arith, lookup-insert d s.dpid s.zone zones)
    ])

-- A leaf gives its dpid its zone.
pub switch_zones-leaf :
    (core name : String) (s : Switch) (switches : Dict String Switch)
    (zones : Dict ℕ (Option String))
    → Agree s.dpid s.zone core switches
    → In (name, s) switches
    → lookup s.dpid (switch_zones core switches zones) ≡ some s.zone
unfolding switch_zones
switch_zones-leaf core name s [] zones agree here = elim here [ ]
switch_zones-leaf core name s ((m, t) ∷ switches) zones (first, agree) (inl e) =
    let same : s ≡ t = ap (λ (q : String × Switch). q.1) e in
    let (zone, leaf) = first (ap (λ (w : Switch). w.dpid) (sym same)) in
    switch_zones-kept core switches _ s.dpid s.zone agree
      (ground (arith, lookup-insert s.dpid t.dpid t.zone zones))
switch_zones-leaf core name s ((m, t) ∷ switches) zones (first, agree) (inr later) =
    switch_zones-leaf core name s switches _ agree later

pub Agree-all :
    (d : ℕ) (z : Option String) (core : String) (switches : Dict String Switch)
    → ((m : String) (t : Switch)
        → In (m, t) switches
        → t.dpid ≡ d
        → (t.zone ≡ z) × ((m == core) ≡ false))
    → Agree d z core switches
Agree-all d z core [] all = tt
Agree-all d z core ((m, t) ∷ switches) all =
    (all m t (inl refl), Agree-all d z core switches (λ n u here. all n u (inr here)))
