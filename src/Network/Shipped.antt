-- ===== src/Network/Shipped.antt =====
-- network.json: the layout that ships with the program, and the port maps that it gives.
use mininet_zone_segmentatio.Base.{
  ℕ, String, ◌≡◌, refl, true, false, none, some, [], ◌∷◌, insert, string_eq, nat_eq, pair_eq,
  contains, lookup, ok,
}
use mininet_zone_segmentatio.Address.{in_subnet, num_addresses, broadcast_address}
use mininet_zone_segmentatio.Address.Parse.{ip_address}
use mininet_zone_segmentatio.Policy.{zone_for_ip}
use mininet_zone_segmentatio.Policy.Shipped.{zones}
use mininet_zone_segmentatio.Network.{
  number, Network, PortMaps, Host, Switch, Uplink, port_maps, uplink_zones, host_zones,
  switch_zones, uplink_ports, port_number,
}
use mininet_zone_segmentatio.Network.Load.{
  RawSwitch, RawUplink, RawHost, RawNetwork, load_switches, switch_loop, load_switch, one_core,
  zone_exists, load_uplinks, uplink_loop, add_uplink, any_missing, positive,
}
use mininet_zone_segmentatio.Network.Hosts.{
  load_network, load_hosts, load_host, is_reserved, check_ports_unique, check_ports,
  host_attachments, uplink_attachments,
}

abbrev leaf_switch : ℕ → String → RawSwitch
leaf_switch dpid zone = record { dpid = number dpid; core = false; zone = some zone }

abbrev raw_uplink : String → ℕ → ℕ → RawUplink
raw_uplink leaf leaf_port core_port = record {
  leaf = some leaf;
  leaf_port = number leaf_port;
  core_port = number core_port;
}

abbrev raw_host : String → String → ℕ → RawHost
raw_host ip switch port = record { ip = some ip; switch = some switch; port = number port }

abbrev pub document : RawNetwork
document = record {
  switches =
      ("s1", leaf_switch 1 "DeptA")
      ∷ ("s2", leaf_switch 2 "DeptA")
      ∷ ("s3", leaf_switch 3 "DeptB")
      ∷ ("s4", leaf_switch 4 "DeptB")
      ∷ ("s5", leaf_switch 5 "DataCenter")
      ∷ ("s6", record { dpid = number 6; core = true; zone = none })
      ∷ [];
  uplinks =
      raw_uplink "s1" 3 1
      ∷ raw_uplink "s2" 3 2
      ∷ raw_uplink "s3" 3 3
      ∷ raw_uplink "s4" 3 4
      ∷ raw_uplink "s5" 2 5
      ∷ [];
  hosts =
      ("h101", raw_host "10.1.1.101" "s1" 1)
      ∷ ("h102", raw_host "10.1.1.102" "s1" 2)
      ∷ ("h103", raw_host "10.1.1.103" "s2" 1)
      ∷ ("h104", raw_host "10.1.1.104" "s2" 2)
      ∷ ("h201", raw_host "10.1.2.201" "s3" 1)
      ∷ ("h202", raw_host "10.1.2.202" "s3" 2)
      ∷ ("h203", raw_host "10.1.2.203" "s4" 1)
      ∷ ("h204", raw_host "10.1.2.204" "s4" 2)
      ∷ ("h_server", raw_host "10.1.3.178" "s5" 1)
      ∷ ("h_trust", raw_host "192.47.38.109" "s6" 6)
      ∷ ("h_untrust", raw_host "108.35.24.113" "s6" 7)
      ∷ [];
}

abbrev pub maps : PortMaps
maps = record {
  core_dpid = 6;
  switch_zone =
      (1, some "DeptA")
      ∷ (2, some "DeptA")
      ∷ (3, some "DeptB")
      ∷ (4, some "DeptB")
      ∷ (5, some "DataCenter")
      ∷ [];
  leaf_uplink_port = (1, 3) ∷ (2, 3) ∷ (3, 3) ∷ (4, 3) ∷ (5, 2) ∷ [];
  leaf_core_port = (1, 1) ∷ (2, 2) ∷ (3, 3) ∷ (4, 4) ∷ (5, 5) ∷ [];
  core_port_zones =
      (1, some "DeptA")
      ∷ (2, some "DeptA")
      ∷ (3, some "DeptB")
      ∷ (4, some "DeptB")
      ∷ (5, some "DataCenter")
      ∷ (6, some "Trust")
      ∷ (7, some "Untrust")
      ∷ [];
}

abbrev switch_of : ℕ → String → Switch
switch_of dpid zone = record { dpid = dpid; zone = some zone }

abbrev uplink_of : ℕ → ℕ → Uplink
uplink_of leaf_port core_port = record {
  leaf_port = number leaf_port;
  core_port = number core_port;
}

abbrev host_of : ℕ → String → String → ℕ → Host
host_of ip zone switch port = record {
  ip = ip;
  prefix_len = 24;
  zone = zone;
  switch = switch;
  port = number port;
}

abbrev pub network : Network
network = record {
  core = "s6";
  switches =
      ("s1", switch_of 1 "DeptA")
      ∷ ("s2", switch_of 2 "DeptA")
      ∷ ("s3", switch_of 3 "DeptB")
      ∷ ("s4", switch_of 4 "DeptB")
      ∷ ("s5", switch_of 5 "DataCenter")
      ∷ ("s6", record { dpid = 6; zone = none })
      ∷ [];
  uplinks =
      ("s1", uplink_of 3 1)
      ∷ ("s2", uplink_of 3 2)
      ∷ ("s3", uplink_of 3 3)
      ∷ ("s4", uplink_of 3 4)
      ∷ ("s5", uplink_of 2 5)
      ∷ [];
  hosts =
      ("h101", host_of 167838053 "DeptA" "s1" 1)
      ∷ ("h102", host_of 167838054 "DeptA" "s1" 2)
      ∷ ("h103", host_of 167838055 "DeptA" "s2" 1)
      ∷ ("h104", host_of 167838056 "DeptA" "s2" 2)
      ∷ ("h201", host_of 167838409 "DeptB" "s3" 1)
      ∷ ("h202", host_of 167838410 "DeptB" "s3" 2)
      ∷ ("h203", host_of 167838411 "DeptB" "s4" 1)
      ∷ ("h204", host_of 167838412 "DeptB" "s4" 2)
      ∷ ("h_server", host_of 167838642 "DataCenter" "s5" 1)
      ∷ ("h_trust", host_of 3224315501 "Trust" "s6" 6)
      ∷ ("h_untrust", host_of 1814239345 "Untrust" "s6" 7)
      ∷ [];
}

-- The document loads, and gives this network.
pub load_network-document : load_network zones zones (some document) ≡ ok network
unfolding load_network load_switches switch_loop load_switch one_core zone_exists load_uplinks
    uplink_loop add_uplink any_missing positive load_hosts load_host is_reserved check_ports_unique
    check_ports host_attachments uplink_attachments ip_address zone_for_ip in_subnet num_addresses
    broadcast_address insert lookup contains string_eq nat_eq pair_eq
load_network-document = refl

-- The port maps of that network.
pub port_maps-network : port_maps network ≡ some maps
unfolding port_maps uplink_zones host_zones switch_zones uplink_ports port_number insert lookup
    string_eq nat_eq
port_maps-network = refl
