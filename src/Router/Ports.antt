-- ===== src/Router/Ports.antt =====
-- controller.py: the zone of a port, and the port of the core that a host is reached through.
use mininet_zone_segmentatio.Base.{
  ℕ, String, Bool, Option, none, some, List, [], ◌∷◌, ◌++◌, ◌==◌, nat_eq, string_eq, option_eq,
  Dict, lookup, insert, if◌then◌else◌,
}
use mininet_zone_segmentatio.Network.{PortMaps}

-- `d.get(k)`, where the values may be None themselves.
abbrev pub join : {A : Type 0} → Option (Option A) → Option A
join none = none
join (some v) = v

abbrev pub list_or_empty : Option (List ℕ) → List ℕ
list_or_empty none = []
list_or_empty (some l) = l

-- `for _port, _zone in CORE_PORT_ZONES.items(): ZONE_CORE_PORTS.setdefault(_zone, []).append(_port)`
unfoldable pub group_ports :
    Dict ℕ (Option String) → Dict (Option String) (List ℕ) → Dict (Option String) (List ℕ)
group_ports [] groups = groups
group_ports ((port, zone) ∷ zones) groups =
    group_ports zones (insert zone (list_or_empty (lookup zone groups) ++ (port ∷ [])) groups)

module _ (maps : PortMaps) where
  -- `ZONE_CORE_PORTS.get(zone, [])`
  unfoldable pub zone_core_ports : Option String → List ℕ
  unfolding group_ports
  zone_core_ports zone = list_or_empty (lookup zone (group_ports maps.core_port_zones []))

  unfoldable pub zone_of_port : ℕ → ℕ → Option String
  zone_of_port dpid port =
      if dpid == maps.core_dpid
      then join (lookup port maps.core_port_zones)
      else join (lookup dpid maps.switch_zone)

  unfoldable pub is_leaf_uplink : ℕ → ℕ → Bool
  is_leaf_uplink dpid port = lookup dpid maps.leaf_uplink_port == some port

  unfoldable pub core_port_for : ℕ → ℕ → Option ℕ
  core_port_for dpid port =
      if dpid == maps.core_dpid then some port else lookup dpid maps.leaf_core_port
