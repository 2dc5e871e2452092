-- ===== src/Tests/Routers.antt =====
-- The theorems on controller.py, at the layout and the policy that ship with the program.
use mininet_zone_segmentatio.Base.{
  List, ◌↔◌, ◌++◌, ℕ, ◌≢◌, ==_iff, String, contains, pair_eq, ◌≡◌, refl, true, false, none, some,
  [], ◌∷◌, insert, lookup, nat_eq, string_eq, arith, ◌==◌, option_eq,
}
use mininet_zone_segmentatio.Address.{in_subnet, num_addresses}
use mininet_zone_segmentatio.Policy.{
  firewall_allowed, is_known, is_blocked, zone_for_ip, source_ip_valid_for_zone,
}
use mininet_zone_segmentatio.Policy.Shipped.{policy}
use mininet_zone_segmentatio.Network.Shipped.{network, maps, port_maps-network}
use mininet_zone_segmentatio.Router.{
  Arp, Ipv4, icmp, echo, ip_next, request, arp_next, Config, PacketIn, packet_in, Location,
  new_router,
}
use mininet_zone_segmentatio.Router.Ports.{join, zone_of_port, is_leaf_uplink, core_port_for}
use mininet_zone_segmentatio.Router.Output.{learn, learn_mac, send_arp_reply, send_packet, emit}
use mininet_zone_segmentatio.Router.ArpHandler.{handle_arp, accept_arp, answer_arp, is_gateway}
use mininet_zone_segmentatio.Router.Dispatch.{handle_packet_in, by_ingress, by_type, step, run}
use mininet_zone_segmentatio.Router.Filter.{claimed, step-spoofed, Honest}
use mininet_zone_segmentatio.Router.Blocked.{Dropped, handle_ip-Dropped}
use mininet_zone_segmentatio.Router.IpHandler.{handle_ip, tracked}
use mininet_zone_segmentatio.Conntrack.{check, tracked_packet}
use mininet_zone_segmentatio.Router.Output.{flood_in_zone}
use mininet_zone_segmentatio.Router.Zones.{Distinct, copies, flood_in_zone-copies}
use mininet_zone_segmentatio.Router.Locations.{LeavesAgree, IsLocated, run-IsLocated}

abbrev config : Config
config = record {
  policy = policy;
  maps = maps;
  use_cpp_firewall = false;
  is_multicast = λ mac. mac == "ff:ff:ff:ff:ff:ff";
  pack = λ p. [];
  default_ttl = 64;
}

-- 10.1.1.101, at port 1 of leaf 1, asks for its gateway.
abbrev question : Arp
question = record {
  opcode = request;
  hwsrc = "00:00:00:00:01:01";
  hwdst = "00:00:00:00:00:00";
  protosrc = 167838053;
  protodst = 167837953;
}

abbrev asked : PacketIn
asked = record {
  dpid = 1;
  port = 1;
  connection = 0;
  parsed = true;
  packet = record {
    src = "00:00:00:00:01:01";
    dst = "ff:ff:ff:ff:ff:ff";
    next = arp_next question;
  };
  daemon = λ s d p. none;
  now = 0;
  later = 0;
}

abbrev learned : Location
learned = record { core_port = 1; mac = "00:00:00:00:01:01"; zone = "DeptA" }

asked-learned :
    lookup 167838053 (run config new_router (packet_in asked ∷ [])).ip_to_loc ≡ some learned
unfolding run step handle_packet_in by_ingress by_type handle_arp accept_arp answer_arp is_gateway
    learn learn_mac send_arp_reply send_packet emit zone_of_port is_leaf_uplink core_port_for
    new_router source_ip_valid_for_zone zone_for_ip in_subnet num_addresses insert lookup nat_eq
    string_eq option_eq
asked-learned = refl

leaves-agree :
    (dpid port : ℕ) (z : _)
    → lookup dpid maps.leaf_core_port ≡ some port
    → join (lookup dpid maps.switch_zone) ≡ some z
    → join (lookup port maps.core_port_zones) ≡ some z
unfolding lookup
leaves-agree dpid port z p q = ground arith

maps-LeavesAgree : LeavesAgree maps
maps-LeavesAgree = record { agree = λ dpid port z ne p q. leaves-agree dpid port z p q }

run-IsLocated_example : IsLocated config 167838053 learned
run-IsLocated_example =
    run-IsLocated config (packet_in asked ∷ []) 167838053 learned maps-LeavesAgree asked-learned

-- The host at port 1 of leaf 1 claims to be 10.1.3.178, the server of the data center.
abbrev forged : Arp
forged = record {
  opcode = request;
  hwsrc = "00:00:00:00:01:01";
  hwdst = "00:00:00:00:00:00";
  protosrc = 167838642;
  protodst = 167837953;
}

abbrev forged_event : PacketIn
forged_event = record asked {
  packet = record { src = "00:00:00:00:01:01"; dst = "ff:ff:ff:ff:ff:ff"; next = arp_next forged };
}

not_an_uplink : is_leaf_uplink maps 1 1 ≡ false
unfolding is_leaf_uplink lookup nat_eq option_eq
not_an_uplink = refl

port-dept_a : zone_of_port maps 1 1 ≡ some "DeptA"
unfolding zone_of_port lookup nat_eq
port-dept_a = refl

forged-invalid : source_ip_valid_for_zone policy.zones 167838642 (zone_of_port maps 1 1) ≡ false
unfolding source_ip_valid_for_zone zone_for_ip in_subnet num_addresses zone_of_port lookup nat_eq
    string_eq
forged-invalid = refl

step-spoofed_example : step config new_router (packet_in forged_event) ≡ new_router
unfolding claimed
step-spoofed_example =
    step-spoofed config forged_event new_router 167838642 not_an_uplink refl forged-invalid

-- A ping from 10.1.1.101 to 10.1.2.201, which rule 6 blocks.
abbrev ping : Ipv4
ping = record {
  srcip = 167838053;
  dstip = 167838409;
  protocol = 1;
  ttl = 64;
  payload = icmp 8 0 (echo 7);
}

abbrev pinged : PacketIn
pinged = record asked {
  packet = record { src = "00:00:00:00:01:01"; dst = "02:00:00:00:00:01"; next = ip_next ping };
}

pinged-Honest : Honest config pinged
pinged-Honest = record { told = λ src dst protocol allowed e. cc }

ping-valid : source_ip_valid_for_zone policy.zones 167838053 (some "DeptA") ≡ true
unfolding source_ip_valid_for_zone zone_for_ip in_subnet num_addresses lookup nat_eq string_eq
ping-valid = refl

ping-target : zone_for_ip policy.zones 167838409 ≡ some "DeptB"
unfolding zone_for_ip in_subnet num_addresses nat_eq
ping-target = refl

ping-host : is_gateway policy.zones 167838409 ≡ false
unfolding is_gateway nat_eq
ping-host = refl

ping-blocked : firewall_allowed policy (some "DeptA") (some "DeptB") true ≡ false
unfolding firewall_allowed is_known is_blocked lookup contains nat_eq string_eq pair_eq
ping-blocked = refl

ping-unknown : (check 0 0 new_router.conns false (tracked ping)).0 ≡ none
unfolding check tracked tracked_packet nat_eq new_router
ping-unknown = refl

differs : false ≡ true → ⊥
differs e = cc

dept_b-other : ◌≢◌ {A = String} "DeptB" "DeptA"
unfolding string_eq
dept_b-other = λ e. differs ((==_iff {A = String} "DeptB" "DeptA").1 e)

handle_ip-Dropped_example :
    Dropped pinged new_router
      (learn config 1 1 167838053 "00:00:00:00:01:01" "DeptA" new_router)
      (handle_ip config pinged ping new_router)
unfolding nat_eq
handle_ip-Dropped_example =
    handle_ip-Dropped config pinged ping "DeptA" "DeptB" new_router pinged-Honest port-dept_a
      ping-valid ping-host ping-target dept_b-other ping-blocked ping-unknown

-- A question that reaches the core from leaf 1.
abbrev at_core : PacketIn
at_core = record asked { dpid = 6; port = 1 }

flood_in_zone-copies_example :
    (out : List ℕ) × ((flood_in_zone config at_core new_router).sent
      ≡ new_router.sent ++ copies at_core out)
    × Distinct out
    × ((port : ℕ)
        → (contains out port ≡ true) ↔ (
            (lookup port maps.core_port_zones ≡ some (join (lookup 1 maps.core_port_zones)))
            × (port ≢ 1)))
flood_in_zone-copies_example =
    flood_in_zone-copies config network at_core new_router port_maps-network refl
