-- ===== src/Router/Dispatch.antt =====
-- controller.py: the events that reach `ZoneRouter`.
use mininet_zone_segmentatio.Base.{
  ℕ, not, Option, none, some, List, [], ◌∷◌, nat_eq, string_eq, Dict, lookup, insert, if◌then◌else◌,
}
use mininet_zone_segmentatio.Conntrack.{expire}
use mininet_zone_segmentatio.Router.{
  EthAddr, Next, lldp, arp_next, ip_next, other_next, Router, Config, PacketIn, Event,
  connection_up, packet_in, arp_timer, sweep,
}
use mininet_zone_segmentatio.Router.Ports.{is_leaf_uplink}
use mininet_zone_segmentatio.Router.Output.{learn_mac, flood_in_zone, l2_forward}
use mininet_zone_segmentatio.Router.Pending.{retry_arp}
use mininet_zone_segmentatio.Router.ArpHandler.{handle_arp}
use mininet_zone_segmentatio.Router.IpHandler.{handle_ip}

-- `self.mac_table.setdefault(dpid, {})`
set_default : Option (Dict EthAddr ℕ) → ℕ → Router → Router
set_default none dpid r = record r { mac_table = insert dpid [] r.mac_table }
set_default (some _) dpid r = r

-- `_handle_ConnectionUp`
unfoldable pub handle_connection_up : ℕ → ℕ → Router → Router
unfolding set_default
handle_connection_up dpid connection r =
    set_default (lookup dpid r.mac_table) dpid
      (record r { connections = insert dpid connection r.connections })

module _ (c : Config) where
  -- `_handle_transit`
  unfoldable pub handle_transit : PacketIn → Router → Router
  handle_transit e r =
      let learned = learn_mac e.dpid e.packet.src e.port r in
      if c.is_multicast e.packet.dst
      then flood_in_zone c e learned
      else l2_forward c e e.packet.dst learned

  -- The packet by its type, when it does not come from the core.
  unfoldable pub by_type : Next → PacketIn → Router → Router
  by_type lldp e r = r
  by_type (arp_next a) e r = handle_arp c e a r
  by_type (ip_next p) e r = handle_ip c e p r
  by_type other_next e r = flood_in_zone c e r

  -- The packet by its ingress, when it is not LLDP.
  unfoldable pub by_ingress : Next → PacketIn → Router → Router
  by_ingress lldp e r = r
  by_ingress next e r =
      if is_leaf_uplink c.maps e.dpid e.port then handle_transit e r else by_type next e r

  -- `_handle_PacketIn`
  unfoldable pub handle_packet_in : PacketIn → Router → Router
  handle_packet_in e r = if not e.parsed then r else by_ingress e.packet.next e r

  -- One event. The sweep timer calls `self.conns.expire`.
  unfoldable pub step : Router → Event → Router
  step r (connection_up dpid connection) = handle_connection_up dpid connection r
  step r (packet_in e) = handle_packet_in e r
  step r (arp_timer dst_ip) = retry_arp c dst_ip r
  step r (sweep at) = record r { conns = (expire at r.conns).1 }

  unfoldable pub run : Router → List Event → Router
  run r [] = r
  run r (e ∷ events) = run (step r e) events
