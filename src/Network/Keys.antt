-- ===== src/Network/Keys.antt =====
-- network.py: the dict of the core's ports has every port once, by the way `port_maps` builds it.
use mininet_zone_segmentatio.Base.{
  ℕ, String, ◌≡◌, Bool, true, false, Option, some, [], ◌∷◌, arith, ◌==◌, nat_eq, string_eq, Dict,
  lookup, insert, NodupKeys, insert-NodupKeys, if◌then◌else◌, inl, inr, Option-cases,
}
use mininet_zone_segmentatio.Network.{
  Switch, Uplink, Host, Network, PortMaps, port_number, uplink_zones, host_zones, port_maps,
}

uplink_zones-NodupKeys :
    (switches : Dict String Switch) (uplinks : Dict String Uplink)
    (ports made : Dict ℕ (Option String))
    → uplink_zones switches uplinks ports ≡ some made
    → NodupKeys ports
    → NodupKeys made
unfolding uplink_zones
uplink_zones-NodupKeys switches [] ports made h u = let e : ports ≡ made = cc h in rw (← e) u
uplink_zones-NodupKeys switches ((leaf, link) ∷ uplinks) ports made h u =
    elim (Option-cases (lookup leaf switches)) [
      | inl e ↦ absurd (ground arith)
      | inr (s, e) ↦
          uplink_zones-NodupKeys switches uplinks (insert (port_number link.core_port) s.zone ports)
            made (ground arith) (insert-NodupKeys (port_number link.core_port) s.zone ports u)
    ]

insert_if-NodupKeys :
    (b : Bool) (port : ℕ) (z : Option String) (ports : Dict ℕ (Option String))
    → NodupKeys ports
    → NodupKeys (if b then insert port z ports else ports)
insert_if-NodupKeys true port z ports u = insert-NodupKeys port z ports u
insert_if-NodupKeys false port z ports u = u

host_zones-NodupKeys :
    (core : String) (hosts : Dict String Host) (ports : Dict ℕ (Option String))
    → NodupKeys ports
    → NodupKeys (host_zones core hosts ports)
unfolding host_zones
host_zones-NodupKeys core [] ports u = u
host_zones-NodupKeys core ((_, h) ∷ hosts) ports u =
    host_zones-NodupKeys core hosts _
      (insert_if-NodupKeys (h.switch == core) (port_number h.port) (some h.zone) ports u)

pub port_maps-NodupKeys :
    (net : Network) (maps : PortMaps) → port_maps net ≡ some maps → NodupKeys maps.core_port_zones
unfolding port_maps
port_maps-NodupKeys net maps h = elim (Option-cases (uplink_zones net.switches net.uplinks [])) [
  | inl e ↦ absurd (ground arith)
  | inr (leaf_ports, e) ↦
      let zones : maps.core_port_zones ≡ host_zones net.core net.hosts leaf_ports = ground arith in
      rw zones (
        host_zones-NodupKeys net.core net.hosts leaf_ports
          (uplink_zones-NodupKeys net.switches net.uplinks [] leaf_ports e tt))
]
