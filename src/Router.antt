-- ===== src/Router.antt =====
-- controller.py: the packets, the messages, and the state of `ZoneRouter`.
--
-- POX is not part of the program. Its packet classes are records of the fields that the controller
-- reads and writes, an `EthAddr` is its text, and `Config` holds what POX computes. A message is
-- sent by appending it to `sent`; a handler is a function on the router.
pub mod Ports
pub mod Output
pub mod Pending
pub mod ArpHandler
pub mod IpHandler
pub mod Dispatch
pub mod Timers
pub mod Frame
pub mod Unlearned
pub mod Locations
pub mod Filter
pub mod Blocked
pub mod Layout
pub mod HostZones
pub mod Discovery
pub mod Start
pub mod Waiting
pub mod Resolving
pub mod Queues
pub mod Retries
pub mod Tables
pub mod Connections
pub mod Tracking
pub mod Zones
pub mod Passing
pub mod Queueing
pub mod Deliveries
pub mod Backends
use mininet_zone_segmentatio.Base.{ℕ, String, Bool, false, Option, List, [], ◌∷◌, Dict}
use mininet_zone_segmentatio.Policy.{Policy}
use mininet_zone_segmentatio.Network.{PortMaps}
use mininet_zone_segmentatio.Conntrack.{Flow, ConnectionTable, new_table, default_idle_timeout}

abbrev pub EthAddr : Type 0
EthAddr = String

-- ETHER_BROADCAST
abbrev pub ether_broadcast : EthAddr
ether_broadcast = "ff:ff:ff:ff:ff:ff"

pub data Opcode : Type 0 where
  request reply other_opcode : Opcode

-- POX's `arp`.
pub record Arp : Type 0 where
  pub opcode : Opcode
  pub hwsrc : EthAddr
  pub hwdst : EthAddr
  pub protosrc : ℕ
  pub protodst : ℕ

-- What follows an ICMP header: `echo` has an `id`, `unreach` quotes bytes.
pub data IcmpBody : Type 0 where
  echo : (id : ℕ) → IcmpBody
  unreach : (quoted : List ℕ) → IcmpBody
  other_body : IcmpBody

-- What follows an IP header: with `srcport` and `dstport`, or with a `type`, or unparsed.
pub data Payload : Type 0 where
  ports : (srcport dstport : ℕ) → Payload
  icmp : (icmp_type icmp_code : ℕ) → IcmpBody → Payload
  raw : Payload

-- POX's `ipv4`.
pub record Ipv4 : Type 0 where
  pub srcip : ℕ
  pub dstip : ℕ
  pub protocol : ℕ
  pub ttl : ℕ
  pub payload : Payload

-- `packet.next`, by `packet.type`: LLDP_TYPE, ARP_TYPE, IP_TYPE, or any other.
pub data Next : Type 0 where
  lldp : Next
  arp_next : Arp → Next
  ip_next : Ipv4 → Next
  other_next : Next

-- POX's `ethernet`.
pub record Ethernet : Type 0 where
  pub src : EthAddr
  pub dst : EthAddr
  pub next : Next

-- The data of a message: a packet that the controller packs, or the one that came with the event.
pub data Data : Type 0 where
  packed : Ethernet → Data
  received : Ethernet → Data

pub data Action : Type 0 where
  set_src : EthAddr → Action
  set_dst : EthAddr → Action
  dec_ttl : Action
  output : ℕ → Action
  flood : Action

-- `ofp_match.from_packet`: the headers of a packet, and the ingress port.
pub record Match : Type 0 where
  pub in_port : Option ℕ
  pub headers : Ethernet

pub data Message : Type 0 where
  packet_out : Data → List Action → Message
  flow_mod : Match → (idle_timeout hard_timeout : ℕ) → List Action → Option Data → Message

-- The connection of a switch and a timer are named by numbers.
pub data Effect : Type 0 where
  send : (connection : ℕ) → Message → Effect
  start_timer : (timer : ℕ) → (interval dst_ip : ℕ) → Effect
  cancel_timer : (timer : ℕ) → Effect
  start_sweeps : (interval : ℕ) → Effect

-- A value of `ip_to_loc`.
pub record Location : Type 0 where
  pub core_port : ℕ
  pub mac : EthAddr
  pub zone : String

pub record Queued : Type 0 where
  pub orig_dpid : ℕ
  pub orig_port : ℕ
  pub packet : Ethernet
  pub ip_pkt : Ipv4

-- A value of `pending`.
pub record Entry : Type 0 where
  pub zone : String
  pub queue : List Queued
  pub retries : ℕ
  pub timer : Option ℕ

-- `ZoneRouter`, what it has sent, and the number of timers that it has made.
pub record Router : Type 0 where
  pub connections : Dict ℕ ℕ
  pub mac_table : Dict ℕ (Dict EthAddr ℕ)
  pub ip_to_loc : Dict ℕ Location
  pub pending : Dict ℕ Entry
  pub fw_fallback_warned : Bool
  pub conns : ConnectionTable
  pub timers : ℕ
  pub sent : List Effect

-- The module globals that are loaded from files, USE_CPP_FIREWALL, and what POX computes:
-- `EthAddr.is_multicast`, `ipv4.pack` and the TTL that `ipv4()` sets.
pub record Config : Type 0 where
  pub policy : Policy
  pub maps : PortMaps
  pub use_cpp_firewall : Bool
  pub is_multicast : EthAddr → Bool
  pub pack : Ipv4 → List ℕ
  pub default_ttl : ℕ

-- A PacketIn event. `parsed` is `packet.parsed`; `daemon` is what `FirewallClient.is_allowed` would
-- return to this event, `none` for an OSError; `now` and `later` are the readings of the clock.
pub record PacketIn : Type 0 where
  pub dpid : ℕ
  pub port : ℕ
  pub connection : ℕ
  pub parsed : Bool
  pub packet : Ethernet
  pub daemon : ℕ → ℕ → ℕ → Option Bool
  pub now : ℕ
  pub later : ℕ

-- `ConnectionUp`, `PacketIn`, and the two timers: `_retry_arp` and `conns.expire`.
pub data Event : Type 0 where
  connection_up : (dpid connection : ℕ) → Event
  packet_in : PacketIn → Event
  arp_timer : (dst_ip : ℕ) → Event
  sweep : (at : Flow → ℕ) → Event

abbrev pub routed_flow_idle_timeout : ℕ
routed_flow_idle_timeout = 30

abbrev pub routed_flow_hard_timeout : ℕ
routed_flow_hard_timeout = 60

abbrev pub drop_flow_idle_timeout : ℕ
drop_flow_idle_timeout = 10

abbrev pub drop_flow_hard_timeout : ℕ
drop_flow_hard_timeout = 30

abbrev pub conn_expire_interval : ℕ
conn_expire_interval = 30

abbrev pub arp_retry_interval : ℕ
arp_retry_interval = 1

abbrev pub arp_max_retries : ℕ
arp_max_retries = 3

abbrev pub icmp_dest_unreach : ℕ
icmp_dest_unreach = 3

abbrev pub icmp_code_host_unreach : ℕ
icmp_code_host_unreach = 1

abbrev pub icmp_time_exceeded : ℕ
icmp_time_exceeded = 11

abbrev pub icmp_code_ttl_exceeded : ℕ
icmp_code_ttl_exceeded = 0

-- `ZoneRouter.__init__`
unfoldable pub new_router : Router
new_router = record {
  connections = [];
  mac_table = [];
  ip_to_loc = [];
  pending = [];
  fw_fallback_warned = false;
  conns = new_table default_idle_timeout;
  timers = 0;
  sent = start_sweeps conn_expire_interval ∷ [];
}
