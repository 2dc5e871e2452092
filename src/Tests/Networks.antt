-- ===== src/Tests/Networks.antt =====
-- The theorems on network.py, at network.json.
use mininet_zone_segmentatio.Base.{◌≡◌, refl, true, some, List, inl, inr, lookup, string_eq}
use mininet_zone_segmentatio.Router.Ports.{zone_of_port}
use mininet_zone_segmentatio.Router.HostZones.{load_network-zone_of_port}
use mininet_zone_segmentatio.Policy.Shipped.{zones}
use mininet_zone_segmentatio.Network.{PortMaps, port_maps, port_number, Host, Switch, number}
use mininet_zone_segmentatio.Policy.{source_ip_valid_for_zone}
use mininet_zone_segmentatio.Network.Unique.{In}
use mininet_zone_segmentatio.Network.Placed.{
  IsPlaced, load_network-IsPlaced, load_network-source_ip_valid,
}
use mininet_zone_segmentatio.Topology.{Call, build_network}
use mininet_zone_segmentatio.Topology.Wiring.{Routed, build_network-Routed}
use mininet_zone_segmentatio.Network.Shipped.{
  document, network, maps, load_network-document, port_maps-network,
}
use mininet_zone_segmentatio.Network.Complete.{load_network-port_maps}
use mininet_zone_segmentatio.Router.Locations.{LeavesAgree}
use mininet_zone_segmentatio.Router.Layout.{load_network-LeavesAgree}

abbrev h_server : Host
h_server = record {
  ip = 167838642;
  prefix_len = 24;
  zone = "DataCenter";
  switch = "s5";
  port = number 1;
}

abbrev s5 : Switch
s5 = record { dpid = 5; zone = some "DataCenter" }

load_network-port_maps_example : (made : PortMaps) × (port_maps network ≡ some made)
load_network-port_maps_example =
    load_network-port_maps zones zones document network load_network-document

load_network-LeavesAgree_example : LeavesAgree maps
load_network-LeavesAgree_example =
    load_network-LeavesAgree zones zones document network maps load_network-document
      port_maps-network

host-In : In ("h_server", h_server) network.hosts
host-In = inr (inr (inr (inr (inr (inr (inr (inr (inl refl))))))))

load_network-IsPlaced_example : IsPlaced zones zones network.switches network.core h_server
load_network-IsPlaced_example =
    load_network-IsPlaced zones zones document network "h_server" h_server load_network-document
      host-In

load_network-source_ip_valid_example :
    source_ip_valid_for_zone zones 167838642 (some "DataCenter") ≡ true
load_network-source_ip_valid_example =
    load_network-source_ip_valid zones document network "h_server" h_server load_network-document
      host-In

build_network-Routed_example :
    (calls : List Call) × (build_network zones network ≡ some calls)
    × Routed zones network.hosts calls
build_network-Routed_example = build_network-Routed zones document network load_network-document

load_network-zone_of_port_example :
    (zone_of_port maps 5 1 ≡ some "DataCenter")
    × (source_ip_valid_for_zone zones 167838642 (zone_of_port maps 5 1) ≡ true)
unfolding lookup string_eq port_number
load_network-zone_of_port_example =
    load_network-zone_of_port zones document network maps "h_server" h_server s5
      load_network-document port_maps-network host-In refl
