-- ===== src/Router/Locations.antt =====
-- controller.py: `ip_to_loc` holds each address behind a core port of the address's own zone.
use mininet_zone_segmentatio.Base.{
  ℕ, String, ◌≡◌, ◌≢◌, Bool, true, false, not, some, inl, inr, Option-cases, Bool-cases, List, [],
  ◌∷◌, nat_eq, string_eq, Dict, lookup, lookup-nil, lookup-insert, arith, if◌then◌else◌,
}
use mininet_zone_segmentatio.Policy.{source_ip_valid_for_zone}
use mininet_zone_segmentatio.Network.{PortMaps}
use mininet_zone_segmentatio.Router.{
  EthAddr, Ipv4, Arp, Next, lldp, arp_next, ip_next, other_next, Location, Router, new_router,
  Config, PacketIn, Event, connection_up, packet_in, arp_timer, sweep,
}
use mininet_zone_segmentatio.Router.Ports.{zone_of_port, core_port_for, is_leaf_uplink, join}
use mininet_zone_segmentatio.Router.Output.{learn}
use mininet_zone_segmentatio.Router.ArpHandler.{is_gateway, accept_arp, handle_arp}
use mininet_zone_segmentatio.Router.IpHandler.{accept_ip, handle_ip}
use mininet_zone_segmentatio.Router.Dispatch.{by_type, by_ingress, handle_packet_in, step, run}
use mininet_zone_segmentatio.Router.Unlearned.{
  of_Frame, Same-answer_arp, Same-dispatch_ip, Same-handle_transit, Same-handle_connection_up,
  Same-retry_arp,
}
use mininet_zone_segmentatio.Router.Frame.{Frame-flood_in_zone}

-- The core port that faces a leaf is in the leaf's zone.
pub record LeavesAgree (maps : PortMaps) : Type 0 where
  pub agree :
      (dpid port : ℕ) (z : String)
      → dpid ≢ maps.core_dpid
      → lookup dpid maps.leaf_core_port ≡ some port
      → join (lookup dpid maps.switch_zone) ≡ some z
      → join (lookup port maps.core_port_zones) ≡ some z

-- The address may come from the zone of its location, and the location's port leads to that zone.
pub record IsLocated (c : Config) (ip : ℕ) (loc : Location) : Type 0 where
  pub honest : source_ip_valid_for_zone c.policy.zones ip (some loc.zone) ≡ true
  pub behind : join (lookup loc.core_port c.maps.core_port_zones) ≡ some loc.zone

pub record IsLocal (c : Config) (locs : Dict ℕ Location) : Type 0 where
  pub at : (ip : ℕ) (loc : Location) → lookup ip locs ≡ some loc → IsLocated c ip loc

pub core_port_for-zone :
    (maps : PortMaps) (dpid port out : ℕ) (z : String)
    → LeavesAgree maps
    → zone_of_port maps dpid port ≡ some z
    → core_port_for maps dpid port ≡ some out
    → join (lookup out maps.core_port_zones) ≡ some z
unfolding zone_of_port core_port_for
core_port_for-zone maps dpid port out z h zp cp = ground (arith, h.agree dpid out z)

learn-IsLocal :
    (c : Config) (dpid port ip : ℕ) (mac : EthAddr) (z : String) (r : Router)
    → LeavesAgree c.maps
    → zone_of_port c.maps dpid port ≡ some z
    → source_ip_valid_for_zone c.policy.zones ip (some z) ≡ true
    → IsLocal c r.ip_to_loc
    → IsLocal c (learn c dpid port ip mac z r).ip_to_loc
unfolding learn
learn-IsLocal c dpid port ip mac z r agree zp valid h =
    elim (Option-cases (core_port_for c.maps dpid port)) [
      | inl e ↦ rw (e, learn) h
      | inr (out, e) ↦
          rw (e, learn)
            (record {
              at = λ j loc found. elim (nat_eq.dec j ip) [
                | yes same ↦
                    let new : Location = record { core_port = out; mac = mac; zone = z } in
                    let l : new ≡ loc = ground (arith, found, lookup-insert j ip new r.ip_to_loc) in
                    rw (← l, same)
                      (record {
                        honest = valid;
                        behind = core_port_for-zone c.maps dpid port out z agree zp e;
                      })
                | no other ↦ h.at j loc (
                    ground (
                      arith,
                      found,
                      lookup-insert j ip (record { core_port = out; mac = mac; zone = z })
                          r.ip_to_loc,
                    ))
              ];
            })
    ]

IsLocal-unless :
    (c : Config) (b : Bool) (r s : Router)
    → IsLocal c r.ip_to_loc
    → IsLocal c s.ip_to_loc
    → IsLocal c (if not b then r else s).ip_to_loc
IsLocal-unless c true r s x y = y
IsLocal-unless c false r s x y = x

module _ (c : Config) (agree : LeavesAgree c.maps) where
  handle_arp-IsLocal :
      (e : PacketIn) (a : Arp) (r : Router)
      → IsLocal c r.ip_to_loc
      → IsLocal c (handle_arp c e a r).ip_to_loc
  unfolding handle_arp accept_arp
  handle_arp-IsLocal e a r h = elim (Option-cases (zone_of_port c.maps e.dpid e.port)) [
    | inl zp ↦ rw (zp, handle_arp) h
    | inr (z, zp) ↦
        rw (zp, handle_arp)
          (elim (Bool-cases (source_ip_valid_for_zone c.policy.zones a.protosrc (some z))) [
            | inr spoofed ↦ rw spoofed h
            | inl valid ↦
                rw
                  (valid, Same-answer_arp c a.opcode (is_gateway c.policy.zones a.protodst) e a z _)
                  (learn-IsLocal c e.dpid e.port a.protosrc a.hwsrc z r agree zp valid h)
          ])
  ]

  handle_ip-IsLocal :
      (e : PacketIn) (p : Ipv4) (r : Router)
      → IsLocal c r.ip_to_loc
      → IsLocal c (handle_ip c e p r).ip_to_loc
  unfolding handle_ip accept_ip
  handle_ip-IsLocal e p r h = elim (Option-cases (zone_of_port c.maps e.dpid e.port)) [
    | inl zp ↦ rw (zp, handle_ip) h
    | inr (z, zp) ↦
        rw (zp, handle_ip)
          (elim (Bool-cases (source_ip_valid_for_zone c.policy.zones p.srcip (some z))) [
            | inr spoofed ↦ rw spoofed h
            | inl valid ↦
                let learned =
                  learn-IsLocal c e.dpid e.port p.srcip e.packet.src z r agree zp valid h in
                rw valid (elim (Bool-cases (is_gateway c.policy.zones p.dstip)) [
                  | inl g ↦ rw g learned
                  | inr g ↦ rw (g, Same-dispatch_ip c e p z _) learned
                ])
          ])
  ]

  by_type-IsLocal :
      (n : Next) (e : PacketIn) (r : Router)
      → IsLocal c r.ip_to_loc
      → IsLocal c (by_type c n e r).ip_to_loc
  unfolding by_type
  by_type-IsLocal lldp e r h = h
  by_type-IsLocal (arp_next a) e r h = handle_arp-IsLocal e a r h
  by_type-IsLocal (ip_next p) e r h = handle_ip-IsLocal e p r h
  by_type-IsLocal other_next e r h = rw (of_Frame (Frame-flood_in_zone c e r)) h

  by_ingress-IsLocal :
      (n : Next) (e : PacketIn) (r : Router)
      → IsLocal c r.ip_to_loc
      → IsLocal c (by_ingress c n e r).ip_to_loc
  unfolding by_ingress
  by_ingress-IsLocal lldp e r h = h
  by_ingress-IsLocal next e r h = elim (Bool-cases (is_leaf_uplink c.maps e.dpid e.port)) [
    | inl up ↦ rw (up, Same-handle_transit c e r) h
    | inr host ↦ rw host (by_type-IsLocal next e r h)
  ]

  step-IsLocal : (r : Router) (e : Event) → IsLocal c r.ip_to_loc → IsLocal c (step c r e).ip_to_loc
  unfolding step handle_packet_in
  step-IsLocal r (connection_up dpid connection) h =
      rw (Same-handle_connection_up dpid connection r) h
  step-IsLocal r (packet_in e) h =
      IsLocal-unless c e.parsed r (by_ingress c e.packet.next e r) h
        (by_ingress-IsLocal e.packet.next e r h)
  step-IsLocal r (arp_timer ip) h = rw (Same-retry_arp c ip r) h
  step-IsLocal r (sweep at) h = h

  run-IsLocal :
      (r : Router) (events : List Event)
      → IsLocal c r.ip_to_loc
      → IsLocal c (run c r events).ip_to_loc
  unfolding run
  run-IsLocal r [] h = h
  run-IsLocal r (e ∷ events) h = run-IsLocal (step c r e) events (step-IsLocal r e h)

-- Whatever packets arrive, forged ones included: if the core port that faces each leaf is in the
-- leaf's zone, then every address that the router has a location for passes the anti-spoofing test
-- of the location's zone, and the location's core port leads to that same zone.
pub run-IsLocated :
    (c : Config) (events : List Event) (ip : ℕ) (loc : Location)
    → LeavesAgree c.maps
    → lookup ip (run c new_router events).ip_to_loc ≡ some loc
    → IsLocated c ip loc
run-IsLocated c events ip loc agree found =
    (run-IsLocal c agree new_router events
        (unfold new_router in record { at = λ j l e. cc (lookup-nil {V = Location} j) })).at
      ip loc found
