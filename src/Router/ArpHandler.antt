-- ===== src/Router/ArpHandler.antt =====
-- controller.py: `_handle_arp`.
use mininet_zone_segmentatio.Base.{
  ℕ, String, Bool, true, false, not, ◌||◌, Option, none, some, [], ◌∷◌, ◌==◌, nat_eq, string_eq,
  lookup, if◌then◌else◌,
}
use mininet_zone_segmentatio.Policy.{Zone, Zones, source_ip_valid_for_zone}
use mininet_zone_segmentatio.Router.{EthAddr, Opcode, request, reply, Arp, Router, Config, PacketIn}
use mininet_zone_segmentatio.Router.Ports.{zone_of_port}
use mininet_zone_segmentatio.Router.Output.{learn, send_arp_reply, flood_in_zone}
use mininet_zone_segmentatio.Router.Pending.{resolve_pending}

-- `any(ip == z['gateway'] for z in ZONES.values())`
unfoldable pub is_gateway : Zones → ℕ → Bool
is_gateway [] ip = false
is_gateway ((_, z) ∷ zones) ip = ip == z.gateway || is_gateway zones ip

-- `ZONES[src_zone]['gateway_mac']`; the zone has passed `source_ip_valid_for_zone`.
gateway_mac : Option Zone → EthAddr
gateway_mac none = ""
gateway_mac (some z) = z.gateway_mac

module _ (c : Config) where
  -- What follows the learning of the sender, by opcode and target.
  unfoldable pub answer_arp : Opcode → Bool → PacketIn → Arp → String → Router → Router
  unfolding gateway_mac
  answer_arp request true e a src_zone r =
      send_arp_reply e.connection e.port a.protodst (gateway_mac (lookup src_zone c.policy.zones))
        a.protosrc a.hwsrc r
  answer_arp reply true e a src_zone r = resolve_pending c a.protosrc a.hwsrc r
  answer_arp _ _ e a src_zone r = flood_in_zone c e r

  -- Every case learns the sender first.
  unfoldable pub accept_arp : PacketIn → Arp → String → Router → Router
  accept_arp e a src_zone r =
      answer_arp a.opcode (is_gateway c.policy.zones a.protodst) e a src_zone
        (learn c e.dpid e.port a.protosrc a.hwsrc src_zone r)

  unfoldable pub handle_arp : PacketIn → Arp → Router → Router
  handle_arp e a r = elim (zone_of_port c.maps e.dpid e.port) [
    | none ↦ r
    | some src_zone ↦
        if not (source_ip_valid_for_zone c.policy.zones a.protosrc (some src_zone))
        then r
        else accept_arp e a src_zone r
  ]
