-- ===== src/Tests/Queues.antt =====
-- The theorems on the packets that wait, at a packet from 10.1.1.101 to 10.1.3.178, of which the router
-- does not know the location.
use mininet_zone_segmentatio.Base.{
  ◌≡◌, refl, true, false, none, some, List, [], ◌∷◌, insert, lookup, nat_eq, string_eq, option_eq,
  pair_eq, contains, ◌==◌,
}
use mininet_zone_segmentatio.Address.{in_subnet, num_addresses}
use mininet_zone_segmentatio.Policy.{
  firewall_allowed, is_known, is_blocked, zone_for_ip, source_ip_valid_for_zone,
}
use mininet_zone_segmentatio.Policy.Shipped.{policy}
use mininet_zone_segmentatio.Network.Shipped.{maps}
use mininet_zone_segmentatio.Conntrack.{check, tracked_packet, track, flow_eq, new_table}
use mininet_zone_segmentatio.Router.{
  Ipv4, ports, Ethernet, ip_next, Config, PacketIn, Event, connection_up, packet_in, arp_timer,
  Entry, new_router,
}
use mininet_zone_segmentatio.Router.Ports.{
  zone_of_port, is_leaf_uplink, core_port_for, zone_core_ports, group_ports,
}
use mininet_zone_segmentatio.Router.Output.{
  learn, learn_mac, send_packet, emit, send_arp_probe, probe, each_port,
}
use mininet_zone_segmentatio.Router.Pending.{queue_and_resolve, entry_for, open_entry}
use mininet_zone_segmentatio.Router.ArpHandler.{is_gateway}
use mininet_zone_segmentatio.Router.IpHandler.{
  ask_firewall, tracked, handle_ip, accept_ip, dispatch_ip, filter_ip, finish, route,
}
use mininet_zone_segmentatio.Router.Dispatch.{
  handle_connection_up, handle_packet_in, by_ingress, by_type, step, run,
}
use mininet_zone_segmentatio.Router.Waiting.{IsWaiting}
use mininet_zone_segmentatio.Router.Queues.{run-IsWaiting}
use mininet_zone_segmentatio.Router.Retries.{run-gives_up}

abbrev pub config : Config
config = record {
  policy = policy;
  maps = maps;
  use_cpp_firewall = false;
  is_multicast = λ mac. mac == "ff:ff:ff:ff:ff:ff";
  pack = λ p. [];
  default_ttl = 64;
}

abbrev pub opening : Ipv4
opening = record {
  srcip = 167838053;
  dstip = 167838642;
  protocol = 6;
  ttl = 64;
  payload = ports 40000 80;
}

abbrev frame : Ethernet
frame = record { src = "00:00:00:00:01:01"; dst = "02:00:00:00:00:01"; next = ip_next opening }

abbrev pub opened : PacketIn
opened = record {
  dpid = 1;
  port = 1;
  connection = 0;
  parsed = true;
  packet = frame;
  daemon = λ s d p. none;
  now = 0;
  later = 0;
}

abbrev events : List Event
events = connection_up 6 9 ∷ packet_in opened ∷ []

abbrev entry : Entry
entry = record {
  zone = "DataCenter";
  queue = record { orig_dpid = 1; orig_port = 1; packet = frame; ip_pkt = opening } ∷ [];
  retries = 1;
  timer = some 0;
}

events-entry : lookup 167838642 (run config new_router events).pending ≡ some entry
unfolding run step handle_connection_up handle_packet_in by_ingress by_type handle_ip accept_ip
    dispatch_ip filter_ip finish route ask_firewall tracked tracked_packet check track
    firewall_allowed is_known is_blocked queue_and_resolve entry_for open_entry send_arp_probe probe
    each_port send_packet emit is_gateway learn learn_mac zone_of_port is_leaf_uplink core_port_for
    zone_core_ports group_ports new_router new_table source_ip_valid_for_zone zone_for_ip in_subnet
    num_addresses insert lookup contains nat_eq string_eq option_eq pair_eq flow_eq
events-entry = refl

run-IsWaiting_example : IsWaiting config (run config new_router events) 167838642 entry
run-IsWaiting_example = run-IsWaiting config events 167838642 entry events-entry

run-gives_up_example :
    lookup 167838642
      (run config
        (run config new_router events)
        (arp_timer 167838642 ∷ arp_timer 167838642 ∷ arp_timer 167838642 ∷ [])).pending
    ≡ none
run-gives_up_example = run-gives_up config events 167838642
