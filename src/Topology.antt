-- ===== src/Topology.antt =====
-- topology.py: `build_network` and `main`, as the list of their calls of Mininet.
pub mod Wiring
use mininet_zone_segmentatio.Base.{
  ℕ, String, Option, none, some, List, [], ◌∷◌, ◌++◌, map, string_eq, Dict, lookup,
}
use mininet_zone_segmentatio.Policy.{Zone, Zones}
use mininet_zone_segmentatio.Network.{Value, Switch, Uplink, Host, Network}

-- The calls of `Mininet`, by the arguments that the program passes: `add_host` has the address with the
-- length of its prefix, and the address of the default route.
pub data Call : Type 0 where
  add_controller : (name ip : String) (port : ℕ) → Call
  add_switch : (name : String) (dpid : ℕ) → Call
  add_host : (name : String) (ip prefix_len route : ℕ) → Call
  add_link : (node1 node2 : String) (port1 port2 : Option Value) → Call

unfoldable pub switch_calls : Dict String Switch → List Call
switch_calls [] = []
switch_calls ((name, s) ∷ switches) = add_switch name s.dpid ∷ switch_calls switches

unfoldable pub cons : Option Zone → (Zone → Call) → Option (List Call) → Option (List Call)
cons (some z) call (some calls) = some (call z ∷ calls)
cons _ call _ = none

-- `none` is the KeyError of a zone that ZONES does not have.
unfoldable pub host_calls : Zones → Dict String Host → Option (List Call)
unfolding cons
host_calls zones [] = some []
host_calls zones ((name, h) ∷ hosts) =
    cons (lookup h.zone zones) (λ z. add_host name h.ip h.prefix_len z.gateway)
      (host_calls zones hosts)

unfoldable pub host_links : Dict String Host → List Call
host_links [] = []
host_links ((name, h) ∷ hosts) = add_link name h.switch none (some h.port) ∷ host_links hosts

unfoldable pub uplink_links : String → Dict String Uplink → List Call
uplink_links core [] = []
uplink_links core ((leaf, link) ∷ uplinks) =
    add_link leaf core (some link.leaf_port) (some link.core_port) ∷ uplink_links core uplinks

unfoldable pub around : Network → Option (List Call) → Option (List Call)
around layout none = none
around layout (some hosts) = some (
    add_controller "c0" "127.0.0.1" 6633
    ∷ (switch_calls layout.switches
        ++ (hosts ++ (host_links layout.hosts ++ uplink_links layout.core layout.uplinks))))

unfoldable pub build_network : Zones → Network → Option (List Call)
unfolding around
build_network zones layout = around layout (host_calls zones layout.hosts)

-- What `main` calls: Mininet's methods on the way, and then those that run the network.
pub data Command : Type 0 where
  made : Call → Command
  build start cli stop : Command

commands : Option (List Call) → Option (List Command)
commands none = none
commands (some calls) = some (map made calls ++ (build ∷ start ∷ cli ∷ stop ∷ []))

-- `main`, for the layout that is loaded.
unfoldable pub main : Zones → Network → Option (List Command)
unfolding commands
main zones layout = commands (build_network zones layout)
