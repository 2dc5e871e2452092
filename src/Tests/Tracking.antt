-- ===== src/Tests/Tracking.antt =====
-- The theorem on the connections that the router tracks, at a packet from 10.1.1.101 to 10.1.3.178 that
-- the daemon is asked about.
use mininet_zone_segmentatio.Base.{
  ◌≡◌, refl, true, some, List, [], ◌∷◌, insert, lookup, nat_eq, string_eq, option_eq, pair_eq,
  contains, ◌==◌,
}
use mininet_zone_segmentatio.Address.{in_subnet, num_addresses}
use mininet_zone_segmentatio.Policy.{
  firewall_allowed, is_known, is_blocked, zone_for_ip, source_ip_valid_for_zone,
}
use mininet_zone_segmentatio.Policy.Shipped.{policy}
use mininet_zone_segmentatio.Conntrack.{Flow, check, tracked_packet, track, flow_eq, new_table}
use mininet_zone_segmentatio.Router.{Config, PacketIn, Event, connection_up, packet_in, new_router}
use mininet_zone_segmentatio.Router.Ports.{
  zone_of_port, is_leaf_uplink, core_port_for, zone_core_ports, group_ports,
}
use mininet_zone_segmentatio.Router.Output.{
  learn, learn_mac, send_packet, emit, send_arp_probe, probe, each_port,
}
use mininet_zone_segmentatio.Router.Pending.{queue_and_resolve, entry_for, open_entry}
use mininet_zone_segmentatio.Router.ArpHandler.{is_gateway}
use mininet_zone_segmentatio.Router.IpHandler.{
  ask_firewall, tracked, handle_ip, accept_ip, dispatch_ip, filter_ip, finish, route,
}
use mininet_zone_segmentatio.Router.Dispatch.{
  handle_connection_up, handle_packet_in, by_ingress, by_type, step, run,
}
use mininet_zone_segmentatio.Conntrack.Origin.{is_tracked}
use mininet_zone_segmentatio.Router.Connections.{IsOpened}
use mininet_zone_segmentatio.Router.Tracking.{run-IsOpened}
use mininet_zone_segmentatio.Router.Filter.{Honest}
use mininet_zone_segmentatio.Tests.Queues.{config, opened}

abbrev asking : Config
asking = record config { use_cpp_firewall = true }

-- The daemon answers by the zones of the two addresses.
abbrev asked : PacketIn
asked = record opened {
  daemon = λ src dst protocol. some (
      firewall_allowed policy (zone_for_ip policy.zones src) (zone_for_ip policy.zones dst)
        (protocol == 1));
}

asked-Honest : Honest asking asked
asked-Honest = record { told = λ src dst protocol allowed e. cc }

abbrev history : List Event
history = connection_up 6 9 ∷ packet_in asked ∷ []

abbrev connection : Flow
connection = record { src = 167838053; dst = 167838642; proto = 6; sport = 40000; dport = 80 }

history-tracked : is_tracked connection (run asking new_router history).conns ≡ true
unfolding is_tracked run step handle_connection_up handle_packet_in by_ingress by_type handle_ip
    accept_ip dispatch_ip filter_ip finish route ask_firewall tracked tracked_packet check track
    firewall_allowed is_known is_blocked queue_and_resolve entry_for open_entry send_arp_probe probe
    each_port send_packet emit is_gateway learn learn_mac zone_of_port is_leaf_uplink core_port_for
    zone_core_ports group_ports new_router new_table source_ip_valid_for_zone zone_for_ip in_subnet
    num_addresses insert lookup contains nat_eq string_eq option_eq pair_eq flow_eq
history-tracked = refl

run-IsOpened_example : IsOpened asking connection
run-IsOpened_example =
    run-IsOpened asking history connection (tt, (asked-Honest, tt)) history-tracked
