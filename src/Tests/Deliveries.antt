-- ===== src/Tests/Deliveries.antt =====
-- The theorem on the delivery of waiting packets, at two packets from 10.1.1.101 to 10.1.3.178.
use mininet_zone_segmentatio.Base.{
  ℕ, String, ◌≡◌, ◌≢◌, refl, true, false, none, some, [], ◌∷◌, ◌++◌, map, arith, lookup, insert,
  ==_iff, contains, nat_eq, string_eq, option_eq, pair_eq,
}
use mininet_zone_segmentatio.Address.{in_subnet, num_addresses}
use mininet_zone_segmentatio.Policy.{
  Zone, firewall_allowed, is_known, is_blocked, zone_for_ip, source_ip_valid_for_zone,
}
use mininet_zone_segmentatio.Policy.Shipped.{policy}
use mininet_zone_segmentatio.Router.{
  reply, Arp, arp_next, Ipv4, ports, ip_next, start_timer, cancel_timer, Router, PacketIn,
  packet_in, connection_up, new_router, arp_retry_interval,
}
use mininet_zone_segmentatio.Router.Ports.{
  zone_of_port, is_leaf_uplink, core_port_for, zone_core_ports,
}
use mininet_zone_segmentatio.Router.ArpHandler.{is_gateway}
use mininet_zone_segmentatio.Router.Dispatch.{handle_connection_up, step, run}
use mininet_zone_segmentatio.Router.Passing.{Passes}
use mininet_zone_segmentatio.Router.Queueing.{sends, who_has, Arriving, Unknown}
use mininet_zone_segmentatio.Router.Deliveries.{hops, Answers, arrivals, run-delivers}
use mininet_zone_segmentatio.Tests.Queues.{config, opened, opening}

abbrev server_gateway : Zone
server_gateway = record {
  subnet = record { network_address = 167838464; prefixlen = 24 };
  gateway = 167838465;
  gateway_mac = "02:00:00:00:00:03";
}

gateway-home : lookup "DataCenter" policy.zones ≡ some server_gateway
unfolding lookup string_eq
gateway-home = refl

-- A packet of a connection from the given port.
abbrev syn : ℕ → Ipv4
syn port = record opening { payload = ports port 80 }

abbrev syn_event : ℕ → PacketIn
syn_event port = record opened {
  packet = record {
    src = "00:00:00:00:01:01";
    dst = "02:00:00:00:00:01";
    next = ip_next (syn port);
  };
}

abbrev arriving : ℕ → Arriving
arriving port = record { event = syn_event port; packet = syn port }

differs : false ≡ true → ⊥
differs e = cc

data_center-other : ◌≢◌ {A = String} "DataCenter" "DeptA"
unfolding string_eq
data_center-other = λ e. differs ((==_iff {A = String} "DataCenter" "DeptA").1 e)

syn-Passes : (port : ℕ) → Passes config "DataCenter" (syn_event port) (syn port)
unfolding is_leaf_uplink zone_of_port source_ip_valid_for_zone is_gateway zone_for_ip
    firewall_allowed is_known is_blocked in_subnet num_addresses lookup contains nat_eq string_eq
    option_eq pair_eq
syn-Passes port = record {
  zone = "DeptA";
  parsed = refl;
  is_ip = refl;
  host_port = refl;
  port = refl;
  valid = refl;
  host = refl;
  found = refl;
  other = data_center-other;
  honest = record { told = λ src dst protocol allowed e. cc };
  allowed = refl;
}

abbrev answer : Arp
answer = record {
  opcode = reply;
  hwsrc = "00:00:00:00:03:01";
  hwdst = "02:00:00:00:00:03";
  protosrc = 167838642;
  protodst = 167838465;
}

-- 10.1.3.178 answers from port 1 of leaf 5.
abbrev answered : PacketIn
answered = record opened {
  dpid = 5;
  packet = record { src = "00:00:00:00:03:01"; dst = "02:00:00:00:00:03"; next = arp_next answer };
}

answered-Answers : Answers config "DataCenter" 167838642 5 "00:00:00:00:03:01" answered answer
unfolding is_leaf_uplink zone_of_port core_port_for source_ip_valid_for_zone is_gateway zone_for_ip
    in_subnet num_addresses lookup nat_eq string_eq option_eq
answered-Answers = record {
  parsed = refl;
  is_arp = refl;
  host_port = refl;
  port = refl;
  valid = refl;
  replies = refl;
  gateway = refl;
  sender = refl;
  sender_mac = refl;
  reached = refl;
}

abbrev core_up : Router
core_up = step config new_router (connection_up 6 9)

core_up-Unknown : Unknown config 167838642 9 core_up
unfolding step handle_connection_up new_router insert lookup nat_eq
core_up-Unknown = record { connected = refl; unknown = refl; nothing = refl }

run-delivers_example :
    (let after =
        run config core_up
          (arrivals (arriving 40000 ∷ arriving 40001 ∷ []) ++ (packet_in answered ∷ [])) in
      (after.sent
        ≡ core_up.sent
          ++ (map
                (sends 9 (who_has server_gateway 167838642))
                (zone_core_ports config.maps (some "DataCenter"))
              ++ (start_timer core_up.timers arp_retry_interval 167838642
                  ∷ cancel_timer core_up.timers
                  ∷ hops 9 server_gateway 5 "00:00:00:00:03:01"
                      (arriving 40000 ∷ arriving 40001 ∷ []))))
      × (lookup 167838642 after.pending ≡ none))
run-delivers_example =
    run-delivers config "DataCenter" 167838642 9 5 server_gateway "00:00:00:00:03:01"
      (arriving 40000) (arriving 40001 ∷ []) answered answer core_up gateway-home core_up-Unknown
      ((syn-Passes 40000, refl, omega arith), ((syn-Passes 40001, refl, omega arith), tt))
      answered-Answers
