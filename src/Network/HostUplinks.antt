-- ===== src/Network/HostUplinks.antt =====
-- network.py: the uplinks that `port_maps` knows, and the ports of hosts.
use mininet_zone_segmentatio.Base.{
  ℕ, String, ◌≡◌, ap, true, false, ◌&&◌, some, List, [], ◌∷◌, arith, ◌==◌, nat_eq, string_eq,
  pair_eq, contains, Dict, lookup, has_key, insert, lookup-insert, inl, inr, Option-cases,
}
use mininet_zone_segmentatio.Network.{Value, Switch, Uplink, Host, port_number, uplink_ports}
use mininet_zone_segmentatio.Network.Load.{any_missing}
use mininet_zone_segmentatio.Network.Hosts.{uplink_attachments}
use mininet_zone_segmentatio.Network.Unique.{Unique, In, NoHost, contains-cons}

-- The leaf's end of an uplink is not taken before.
pub leaf_port-free :
    (used : List (String × ℕ)) (core leaf : String) (link : Uplink) (uplinks : Dict String Uplink)
    → Unique used (uplink_attachments core uplinks)
    → In (leaf, link) uplinks
    → contains used (leaf, port_number link.leaf_port) ≡ false
unfolding uplink_attachments
leaf_port-free used core leaf link [] u here = elim here [ ]
leaf_port-free used core leaf link ((l, k) ∷ uplinks) (free, (taken, u)) (inl e) =
    let name : leaf ≡ l = ap (λ (q : String × Uplink). q.0) e in
    let same : link ≡ k = ap (λ (q : String × Uplink). q.1) e in rw (name, same) free
leaf_port-free used core leaf link ((l, k) ∷ uplinks) (free, (taken, u)) (inr later) =
    let n = port_number link.leaf_port in
    let rest =
      leaf_port-free ((core, port_number k.core_port) ∷ (l, port_number k.leaf_port) ∷ used) core
        leaf link uplinks u later in
    let outer =
      contains-cons leaf core n (port_number k.core_port) ((l, port_number k.leaf_port) ∷ used) in
    let inner = contains-cons leaf l n (port_number k.leaf_port) used in ground arith

-- A host that is there is plugged in elsewhere.
pub NoHost-elsewhere :
    (switch name : String) (n : ℕ) (h : Host) (hosts : Dict String Host)
    → NoHost switch n hosts
    → In (name, h) hosts
    → (h.switch == switch && port_number h.port == n) ≡ false
NoHost-elsewhere switch name n h [] clear here = elim here [ ]
NoHost-elsewhere switch name n h ((m, k) ∷ hosts) (first, clear) (inl e) =
    let same : h ≡ k = ap (λ (q : String × Host). q.1) e in rw same first
NoHost-elsewhere switch name n h ((m, k) ∷ hosts) (first, clear) (inr later) =
    NoHost-elsewhere switch name n h hosts clear later

-- A leaf has an uplink.
pub any_missing-has_key :
    (switches : Dict String Switch) (core : String) (uplinks : Dict String Uplink) (name : String)
    (s : Switch)
    → any_missing switches core uplinks ≡ false
    → In (name, s) switches
    → (name == core) ≡ false
    → has_key name uplinks ≡ true
unfolding any_missing
any_missing-has_key [] core uplinks name s none_missing here leaf = elim here [ ]
any_missing-has_key ((m, t) ∷ switches) core uplinks name s none_missing (inl e) leaf =
    let same : name ≡ m = ap (λ (q : String × Switch). q.0) e in ground arith
any_missing-has_key ((m, t) ∷ switches) core uplinks name s none_missing (inr later) leaf =
    any_missing-has_key switches core uplinks name s (ground arith) later leaf

uplink_ports-keeps :
    (f : Uplink → Value) (switches : Dict String Switch) (uplinks : Dict String Uplink)
    (ports made : Dict ℕ ℕ) (d : ℕ)
    → uplink_ports f switches uplinks ports ≡ some made
    → has_key d ports ≡ true
    → has_key d made ≡ true
unfolding uplink_ports
uplink_ports-keeps f switches [] ports made d h there = ground arith
uplink_ports-keeps f switches ((leaf, link) ∷ uplinks) ports made d h there =
    elim (Option-cases (lookup leaf switches)) [
      | inl e ↦ absurd (ground arith)
      | inr (s, e) ↦
          uplink_ports-keeps f switches uplinks (insert s.dpid (port_number (f link)) ports) made d
            (ground arith) (ground (arith, lookup-insert d s.dpid (port_number (f link)) ports))
    ]

-- The dpid of a switch that has an uplink gets a port.
pub uplink_ports-has_key :
    (f : Uplink → Value) (switches : Dict String Switch) (uplinks : Dict String Uplink)
    (ports made : Dict ℕ ℕ) (name : String) (s : Switch)
    → uplink_ports f switches uplinks ports ≡ some made
    → has_key name uplinks ≡ true
    → lookup name switches ≡ some s
    → has_key s.dpid made ≡ true
unfolding uplink_ports lookup
uplink_ports-has_key f switches [] ports made name s h there found = cc there
uplink_ports-has_key f switches ((leaf, link) ∷ uplinks) ports made name s h there found =
    elim (Option-cases (lookup leaf switches)) [
      | inl e ↦ absurd (ground arith)
      | inr (t, e) ↦ elim (string_eq.dec name leaf) [
        | yes same ↦
            let dpid : t ≡ s = ground arith in
            uplink_ports-keeps f switches uplinks (insert t.dpid (port_number (f link)) ports) made
              s.dpid (ground arith)
              (ground (arith, lookup-insert s.dpid t.dpid (port_number (f link)) ports))
        | no other ↦
            uplink_ports-has_key f switches uplinks (insert t.dpid (port_number (f link)) ports)
              made name s (ground arith) (ground arith) found
      ]
    ]
