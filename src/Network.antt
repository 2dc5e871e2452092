-- ===== src/Network.antt =====
-- network.py: the layout of the network, and the port maps that the controller classifies packets
-- with. A dict of the source that maps a fixed set of keys is a record.
pub mod Load
pub mod Hosts
pub mod Shipped
pub mod Unique
pub mod Keys
pub mod HostPorts
pub mod HostUplinks
pub mod Maps
pub mod Switches
pub mod Complete
pub mod Errors
pub mod Placed
use mininet_zone_segmentatio.Base.{
  ℕ, String, Bool, true, false, Option, none, some, List, [], ◌∷◌, ◌==◌, nat_eq, string_eq, Dict,
  lookup, insert, update, if◌then◌else◌,
}

-- A value of the JSON document where the source expects a number; `missing` is Python's None.
pub data Value : Type 0 where
  missing : Value
  number : ℕ → Value
  negative : ℕ → Value
  boolean : Bool → Value
  text : String → Value

pub record Switch : Type 0 where
  pub dpid : ℕ
  pub zone : Option String

pub record Uplink : Type 0 where
  pub leaf_port : Value
  pub core_port : Value

pub record Host : Type 0 where
  pub ip : ℕ
  pub prefix_len : ℕ
  pub zone : String
  pub switch : String
  pub port : Value

pub record Network : Type 0 where
  pub core : String
  pub switches : Dict String Switch
  pub uplinks : Dict String Uplink
  pub hosts : Dict String Host

-- What `port_maps` returns. A zone of `none` is Python's None.
pub record PortMaps : Type 0 where
  pub core_dpid : ℕ
  pub switch_zone : Dict ℕ (Option String)
  pub leaf_uplink_port : Dict ℕ ℕ
  pub leaf_core_port : Dict ℕ ℕ
  pub core_port_zones : Dict ℕ (Option String)

-- The port as a key. `load_network` lets positive integers pass only, of which `True` is one: it
-- equals 1.
unfoldable pub port_number : Value → ℕ
port_number (number n) = n
port_number (boolean true) = 1
port_number _ = 0

infixl 5 ◌>>=◌
abbrev ◌>>=◌ : {A B : Type 0} → Option A → (A → Option B) → Option B
none >>= f = none
some a >>= f = f a

-- `{link['core_port']: net.switches[leaf]['zone'] for leaf, link in net.uplinks.items()}`, added to
-- `ports`; `none` is the KeyError.
unfoldable pub uplink_zones :
    Dict String Switch
    → Dict String Uplink
    → Dict ℕ (Option String)
    → Option (Dict ℕ (Option String))
uplink_zones switches [] ports = some ports
uplink_zones switches ((leaf, link) ∷ uplinks) ports = do
  s ← lookup leaf switches
  uplink_zones switches uplinks (insert (port_number link.core_port) s.zone ports)

-- `{h['port']: h['zone'] for h in net.hosts.values() if h['switch'] == net.core}`, by `update`.
unfoldable pub host_zones :
    String → Dict String Host → Dict ℕ (Option String) → Dict ℕ (Option String)
host_zones core [] ports = ports
host_zones core ((_, h) ∷ hosts) ports =
    host_zones core hosts
      (if h.switch == core then insert (port_number h.port) (some h.zone) ports else ports)

-- `{s['dpid']: s['zone'] for name, s in net.switches.items() if name != net.core}`
unfoldable pub switch_zones :
    String → Dict String Switch → Dict ℕ (Option String) → Dict ℕ (Option String)
switch_zones core [] zones = zones
switch_zones core ((name, s) ∷ switches) zones =
    switch_zones core switches (if name == core then zones else insert s.dpid s.zone zones)

-- `{net.switches[leaf]['dpid']: port(link) for leaf, link in net.uplinks.items()}`
unfoldable pub uplink_ports :
    (Uplink → Value) → Dict String Switch → Dict String Uplink → Dict ℕ ℕ → Option (Dict ℕ ℕ)
uplink_ports port switches [] ports = some ports
uplink_ports port switches ((leaf, link) ∷ uplinks) ports = do
  s ← lookup leaf switches
  uplink_ports port switches uplinks (insert s.dpid (port_number (port link)) ports)

-- `none` is a KeyError: a name that `switches` does not have.
unfoldable pub port_maps : Network → Option PortMaps
port_maps net = do
  leaf_ports ← uplink_zones net.switches net.uplinks []
  core_switch ← lookup net.core net.switches
  uplink_port ← uplink_ports (λ l. l.leaf_port) net.switches net.uplinks []
  core_port ← uplink_ports (λ l. l.core_port) net.switches net.uplinks []
  some (record {
    core_dpid = core_switch.dpid;
    switch_zone = switch_zones net.core net.switches [];
    leaf_uplink_port = uplink_port;
    leaf_core_port = core_port;
    core_port_zones = host_zones net.core net.hosts leaf_ports;
  })
