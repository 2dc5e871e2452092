-- ===== src/Network/Hosts.antt =====
-- `_load_hosts`, `_check_ports_unique` and `load_network` of network.py.
use mininet_zone_segmentatio.Base.{
  ℕ, String, Bool, true, not, ◌&&◌, ◌||◌, Option, none, some, List, [], ◌∷◌, ◌++◌, ◌==◌, nat_eq,
  string_eq, pair_eq, contains, Dict, lookup, insert, ok, err, ◌>>=◌, ◌>>◌, raise_if, if◌then◌else◌,
}
use mininet_zone_segmentatio.Address.{broadcast_address}
use mininet_zone_segmentatio.Address.Parse.{ip_address}
use mininet_zone_segmentatio.Policy.{Zone, Zones, zone_for_ip}
use mininet_zone_segmentatio.Network.{Value, Switch, Uplink, Host, Network}
use mininet_zone_segmentatio.Network.Load.{
  RawHost, RawNetwork, Plug, host, uplink_to_core, uplink_from, network_error, not_json, bad_ip,
  ip_outside_zones, ip_reserved, ip_used, unknown_switch, wrong_switch, bad_port, port_used,
  key_error, Loaded, or_raise, positive, load_switches, load_uplinks,
}

pub parse_ip : Option String → Option ℕ
parse_ip none = none
parse_ip (some text) = ip_address text

-- `ip` is the gateway, the network address or the broadcast address.
unfoldable pub is_reserved : ℕ → Zone → Bool
is_reserved ip z =
    ip == z.gateway || (ip == z.subnet.network_address || ip == broadcast_address z.subnet)

-- `switches[switch]['zone'] != zone`
unfoldable pub differs : Option String → String → Bool
differs none zone = true
differs (some z) zone = not (z == zone)

-- The switch that a host names, which must exist.
unfoldable pub attached : Dict String Switch → String → Option String → Loaded (String × Switch)
attached switches name none = err (network_error (unknown_switch name))
attached switches name (some switch) = do
  s ← or_raise (lookup switch switches) (network_error (unknown_switch name))
  ok (switch, s)

-- The tables of the zones: `installed` is the module global ZONES, which `zone_for_ip` reads, and
-- `zones` the argument of `load_network`.
module _ (installed zones : Zones) where
  -- The body of the loop of `_load_hosts`, up to the assignment.
  unfoldable pub load_host : Dict String Switch → String → String → RawHost → List ℕ → Loaded Host
  unfolding or_raise parse_ip differs attached
  load_host switches core name h ips = do
    ip ← or_raise (parse_ip h.ip) (network_error (bad_ip name))
    zone ← or_raise (zone_for_ip installed ip) (network_error (ip_outside_zones name))
    z ← or_raise (lookup zone zones) key_error
    raise_if (is_reserved ip z) (network_error (ip_reserved name))
    raise_if (contains ips ip) (network_error (ip_used name))
    (switch, s) ← attached switches name h.switch
    raise_if (not (switch == core) && differs s.zone zone) (network_error (wrong_switch name))
    ok (record {
      ip = ip;
      prefix_len = z.subnet.prefixlen;
      zone = zone;
      switch = switch;
      port = h.port;
    })

  unfoldable pub load_hosts :
      Dict String Switch
      → String
      → Dict String RawHost
      → List ℕ
      → Dict String Host
      → Loaded (Dict String Host)
  load_hosts switches core [] ips hosts = ok hosts
  load_hosts switches core ((name, h) ∷ raw) ips hosts =
      load_host switches core name h ips >>= λ loaded.
      load_hosts switches core raw (ips ++ (loaded.ip ∷ [])) (insert name loaded hosts)

-- A port of a switch, and what is plugged into it.
pub record Attachment : Type 0 where
  pub switch : String
  pub port : Value
  pub what : Plug

unfoldable pub host_attachments : Dict String Host → List Attachment
host_attachments [] = []
host_attachments ((name, h) ∷ hosts) =
    record { switch = h.switch; port = h.port; what = host name } ∷ host_attachments hosts

unfoldable pub uplink_attachments : String → Dict String Uplink → List Attachment
uplink_attachments core [] = []
uplink_attachments core ((leaf, link) ∷ uplinks) =
    record { switch = leaf; port = link.leaf_port; what = uplink_to_core leaf }
    ∷ record { switch = core; port = link.core_port; what = uplink_from leaf }
    ∷ uplink_attachments core uplinks

-- `used` holds the pairs of a switch and a port that are taken.
unfoldable pub check_ports : List (String × ℕ) → List Attachment → Loaded (Unit {0})
check_ports used [] = ok tt
check_ports used (a ∷ attachments) = elim (positive a.port) [
  | none ↦ err (network_error (bad_port a.what))
  | some port ↦
      let rest = check_ports ((a.switch, port) ∷ used) attachments in
      if contains used (a.switch, port) then err (network_error (port_used a.switch port)) else rest
]

unfoldable pub check_ports_unique :
    String → Dict String Uplink → Dict String Host → Loaded (Unit {0})
check_ports_unique core uplinks hosts =
    check_ports [] (host_attachments hosts ++ uplink_attachments core uplinks)

-- `none` is a file that is not JSON.
unfoldable pub load_network : Zones → Zones → Option RawNetwork → Loaded Network
load_network installed zones none = err (network_error not_json)
load_network installed zones (some raw) = do
  (core, switches) ← load_switches zones raw.switches
  uplinks ← load_uplinks raw.uplinks switches core
  hosts ← load_hosts installed zones switches core raw.hosts [] []
  check_ports_unique core uplinks hosts
  ok (record { core = core; switches = switches; uplinks = uplinks; hosts = hosts })
