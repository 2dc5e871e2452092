-- ===== src/Tests/Backends.antt =====
-- The theorem on `_firewall_allowed` with the daemon behind it, at the policy that ships with the
-- program.
use mininet_zone_segmentatio.Base.{◌≡◌, refl, true, false, none, some, [], nat_eq, string_eq}
use mininet_zone_segmentatio.Policy.{firewall_allowed, zone_for_ip, source_ip_valid_for_zone}
use mininet_zone_segmentatio.Policy.Shipped.{document, policy, load_policy-document}
use mininet_zone_segmentatio.Network.Shipped.{maps}
use mininet_zone_segmentatio.Address.{in_subnet, num_addresses}
use mininet_zone_segmentatio.Base.{lookup}
use mininet_zone_segmentatio.Client.{Client}
use mininet_zone_segmentatio.Router.{Ipv4, icmp, echo, ip_next, Config, PacketIn, new_router}
use mininet_zone_segmentatio.Router.IpHandler.{ask_firewall}
use mininet_zone_segmentatio.Router.Backends.{behind, ask_firewall-behind}
use mininet_zone_segmentatio.Tests.Daemons.{header, render-policy, net}
use mininet_zone_segmentatio.Tests.Sessions.{net-Obeys}

abbrev config : Config
config = record {
  policy = policy;
  maps = maps;
  use_cpp_firewall = true;
  is_multicast = λ mac. false;
  pack = λ p. [];
  default_ttl = 64;
}

-- A ping from 10.1.1.101 to 10.1.2.201, which rule 6 blocks.
abbrev ping : Ipv4
ping = record {
  srcip = 167838053;
  dstip = 167838409;
  protocol = 1;
  ttl = 64;
  payload = icmp 8 0 (echo 7);
}

abbrev pinged : PacketIn
pinged = record {
  dpid = 1;
  port = 1;
  connection = 0;
  parsed = true;
  packet = record { src = "00:00:00:00:01:01"; dst = "02:00:00:00:00:01"; next = ip_next ping };
  daemon = λ s d p. none;
  now = 0;
  later = 0;
}

abbrev fresh_client : Client
fresh_client = record { sock = none }

ping-valid : source_ip_valid_for_zone policy.zones 167838053 (some "DeptA") ≡ true
unfolding source_ip_valid_for_zone zone_for_ip in_subnet num_addresses lookup nat_eq string_eq
ping-valid = refl

ping-target : zone_for_ip policy.zones 167838409 ≡ some "DeptB"
unfolding zone_for_ip in_subnet num_addresses nat_eq
ping-target = refl

ask_firewall-behind_example :
    (ask_firewall config (behind net fresh_client pinged) "DeptA" "DeptB" true ping new_router).0
    ≡ firewall_allowed policy (some "DeptA") (some "DeptB") true
ask_firewall-behind_example =
    ask_firewall-behind document config header net fresh_client pinged "DeptA" "DeptB" true ping
      new_router load_policy-document render-policy net-Obeys (record { quiet = λ s e. cc e })
      ping-valid ping-target
