-- ===== src/Tests/Start.antt =====
-- The theorems on the start of the controller, at policy.json and network.json.
use mininet_zone_segmentatio.Base.{
  ℕ, ◌≡◌, refl, ◌++◌, ◌∷◌, [], some, none, true, inl, inr, ok, lookup, string_eq, nat_eq, ◌==◌,
}
use mininet_zone_segmentatio.Policy.{Zone}
use mininet_zone_segmentatio.Policy.Shipped.{
  document as policy_document, policy, load_policy-document,
}
use mininet_zone_segmentatio.Network.{Host, Switch, number, port_number}
use mininet_zone_segmentatio.Network.Shipped.{
  document as network_document, network, maps, load_network-document, port_maps-network,
}
use mininet_zone_segmentatio.Router.{
  Config, PacketIn, packet_in, other_next, send, packet_out, packed, output, new_router,
}
use mininet_zone_segmentatio.Router.Ports.{join}
use mininet_zone_segmentatio.Router.Dispatch.{step}
use mininet_zone_segmentatio.Router.Start.{
  Pox, start, with_policy, with_network, configured, Outcome, start-Outcome,
}
use mininet_zone_segmentatio.Router.Discovery.{gateway_request, gateway_reply, start-answers_arp}

abbrev pox : Pox
pox = record { is_multicast = λ mac. mac == "ff:ff:ff:ff:ff:ff"; pack = λ p. []; default_ttl = 64 }

abbrev config : Config
config = record {
  policy = policy;
  maps = maps;
  use_cpp_firewall = true;
  is_multicast = pox.is_multicast;
  pack = pox.pack;
  default_ttl = pox.default_ttl;
}

start-documents : start pox (some policy_document) (some network_document) ≡ ok config
unfolding start
start-documents =
    rw (load_policy-document, with_policy)
      (rw (load_network-document, with_network) (rw (port_maps-network, configured) refl))

start-Outcome_example :
    Outcome
      (some policy_document)
      (some network_document)
      (start pox (some policy_document) (some network_document))
start-Outcome_example = start-Outcome pox (some policy_document) (some network_document)

abbrev h_server : Host
h_server = record {
  ip = 167838642;
  prefix_len = 24;
  zone = "DataCenter";
  switch = "s5";
  port = number 1;
}

abbrev s5 : Switch
s5 = record { dpid = 5; zone = some "DataCenter" }

abbrev data_center : Zone
data_center = record {
  subnet = record { network_address = 167838464; prefixlen = 24 };
  gateway = 167838465;
  gateway_mac = "02:00:00:00:00:03";
}

abbrev event : PacketIn
event = record {
  dpid = 0;
  port = 0;
  connection = 7;
  parsed = true;
  packet = record { src = ""; dst = "ff:ff:ff:ff:ff:ff"; next = other_next };
  daemon = λ s d p. none;
  now = 0;
  later = 0;
}

start-answers_arp_example :
    (let after =
        step config new_router
          (packet_in (gateway_request event h_server s5 data_center "00:00:00:00:00:09")) in
      (after.sent
        ≡ new_router.sent
          ++ (send 7 (
                packet_out
                  (packed (gateway_reply data_center h_server "00:00:00:00:00:09"))
                  (output 1 ∷ []))
              ∷ []))
      × (out : ℕ) × (lookup 167838642 after.ip_to_loc
          ≡ some (record { core_port = out; mac = "00:00:00:00:00:09"; zone = "DataCenter" }))
      × (join (lookup out maps.core_port_zones) ≡ some "DataCenter"))
unfolding lookup string_eq port_number
start-answers_arp_example =
    start-answers_arp pox (some policy_document) network_document config network "h_server" h_server
      s5 data_center event "00:00:00:00:00:09" new_router start-documents load_network-document
      (inr (inr (inr (inr (inr (inr (inr (inr (inl refl))))))))) refl refl
