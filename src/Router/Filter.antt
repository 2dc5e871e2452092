-- ===== src/Router/Filter.antt =====
-- controller.py: which packets the filter lets through, and what a packet that it stops can cause.
use mininet_zone_segmentatio.Base.{
  ℕ, String, ◌≡◌, refl, ◌∙◌, Bool, true, false, not, Option, none, some, arith, ◌==◌, nat_eq,
  string_eq, if◌then◌else◌, inl, inr, Bool-cases, Option-cases,
}
use mininet_zone_segmentatio.Policy.{Zones, zone_for_ip, source_ip_valid_for_zone, firewall_allowed}
use mininet_zone_segmentatio.Conntrack.{icmp_protocol}
use mininet_zone_segmentatio.Router.{
  Arp, Ipv4, Next, lldp, arp_next, ip_next, other_next, Router, Config, PacketIn, packet_in,
}
use mininet_zone_segmentatio.Router.Ports.{zone_of_port, is_leaf_uplink}
use mininet_zone_segmentatio.Router.ArpHandler.{handle_arp}
use mininet_zone_segmentatio.Router.IpHandler.{ask_firewall, handle_ip}
use mininet_zone_segmentatio.Router.Dispatch.{by_type, by_ingress, handle_packet_in, step}

-- The sender that an ARP or an IP packet claims; other packets claim none.
unfoldable pub claimed : Next → Option ℕ
claimed (arp_next a) = some a.protosrc
claimed (ip_next p) = some p.srcip
claimed _ = none

handle_arp-spoofed :
    (c : Config) (e : PacketIn) (a : Arp) (r : Router)
    → source_ip_valid_for_zone c.policy.zones a.protosrc (zone_of_port c.maps e.dpid e.port) ≡ false
    → handle_arp c e a r ≡ r
unfolding handle_arp
handle_arp-spoofed c e a r h = elim (Option-cases (zone_of_port c.maps e.dpid e.port)) [
  | inl zp ↦ rw (zp, handle_arp) refl
  | inr (z, zp) ↦
      let invalid : source_ip_valid_for_zone c.policy.zones a.protosrc (some z) ≡ false =
        rw (← zp) h in
      rw (zp, handle_arp) (rw invalid refl)
]

handle_ip-spoofed :
    (c : Config) (e : PacketIn) (p : Ipv4) (r : Router)
    → source_ip_valid_for_zone c.policy.zones p.srcip (zone_of_port c.maps e.dpid e.port) ≡ false
    → handle_ip c e p r ≡ r
unfolding handle_ip
handle_ip-spoofed c e p r h = elim (Option-cases (zone_of_port c.maps e.dpid e.port)) [
  | inl zp ↦ rw (zp, handle_ip) refl
  | inr (z, zp) ↦
      let invalid : source_ip_valid_for_zone c.policy.zones p.srcip (some z) ≡ false =
        rw (← zp) h in
      rw (zp, handle_ip) (rw invalid refl)
]

by_type-spoofed :
    (c : Config) (n : Next) (e : PacketIn) (r : Router) (ip : ℕ)
    → claimed n ≡ some ip
    → source_ip_valid_for_zone c.policy.zones ip (zone_of_port c.maps e.dpid e.port) ≡ false
    → by_type c n e r ≡ r
unfolding by_type claimed
by_type-spoofed c (arp_next a) e r ip same h =
    handle_arp-spoofed c e a r (let q : a.protosrc ≡ ip = cc in rw q h)
by_type-spoofed c (ip_next p) e r ip same h =
    handle_ip-spoofed c e p r (let q : p.srcip ≡ ip = cc in rw q h)
by_type-spoofed c lldp e r ip same h = cc
by_type-spoofed c other_next e r ip same h = cc

by_ingress-spoofed :
    (c : Config) (n : Next) (e : PacketIn) (r : Router) (ip : ℕ)
    → is_leaf_uplink c.maps e.dpid e.port ≡ false
    → claimed n ≡ some ip
    → source_ip_valid_for_zone c.policy.zones ip (zone_of_port c.maps e.dpid e.port) ≡ false
    → by_ingress c n e r ≡ r
unfolding by_ingress
by_ingress-spoofed c lldp e r ip up same h = refl
by_ingress-spoofed c (arp_next a) e r ip up same h =
    rw up (by_type-spoofed c (arp_next a) e r ip same h)
by_ingress-spoofed c (ip_next p) e r ip up same h =
    rw up (by_type-spoofed c (ip_next p) e r ip same h)
by_ingress-spoofed c other_next e r ip up same h =
    rw up (by_type-spoofed c other_next e r ip same h)

unless : (b : Bool) (r s : Router) → s ≡ r → (if not b then r else s) ≡ r
unless true r s e = e
unless false r s e = refl

-- An ARP or IP packet that comes from a host's port, and whose claimed sender fails the
-- anti-spoofing test for the zone of that port, changes nothing: nothing is learned, sent or queued.
pub step-spoofed :
    (c : Config) (e : PacketIn) (r : Router) (ip : ℕ)
    → is_leaf_uplink c.maps e.dpid e.port ≡ false
    → claimed e.packet.next ≡ some ip
    → source_ip_valid_for_zone c.policy.zones ip (zone_of_port c.maps e.dpid e.port) ≡ false
    → step c r (packet_in e) ≡ r
unfolding step handle_packet_in
step-spoofed c e r ip up same h =
    unless e.parsed r (by_ingress c e.packet.next e r)
      (by_ingress-spoofed c e.packet.next e r ip up same h)

-- What the daemon answers, where it answers, is what the policy decides for the zones of the two
-- addresses.
pub record Honest (c : Config) (e : PacketIn) : Type 0 where
  pub told :
      (src dst protocol : ℕ) (allowed : Bool)
      → e.daemon src dst protocol ≡ some allowed
      → allowed
        ≡ firewall_allowed c.policy
            (zone_for_ip c.policy.zones src)
            (zone_for_ip c.policy.zones dst)
            (protocol == 1)

pub source_ip_valid-zone_for_ip :
    (zones : Zones) (ip : ℕ) (z : String)
    → source_ip_valid_for_zone zones ip (some z) ≡ true
    → zone_for_ip zones ip ≡ some z
unfolding source_ip_valid_for_zone
source_ip_valid-zone_for_ip zones ip z h = ground arith

icmp_or_none : (b : Bool) → ((if b then icmp_protocol else 0) == 1) ≡ b
icmp_or_none b = ground arith

-- Whether the firewall is the daemon, the fallback after the daemon failed, or the Python function
-- alone, the verdict is that of `firewall_allowed` on the zone of the ingress port and the zone of
-- the destination: for a packet whose source passed the anti-spoofing test, and a daemon whose
-- answers are right for the zones of the addresses it is asked for.
pub ask_firewall-firewall_allowed :
    (c : Config) (e : PacketIn) (src_zone dst_zone : String) (is_icmp : Bool) (p : Ipv4)
    (r : Router)
    → Honest c e
    → source_ip_valid_for_zone c.policy.zones p.srcip (some src_zone) ≡ true
    → zone_for_ip c.policy.zones p.dstip ≡ some dst_zone
    → (ask_firewall c e src_zone dst_zone is_icmp p r).0
      ≡ firewall_allowed c.policy (some src_zone) (some dst_zone) is_icmp
unfolding ask_firewall
ask_firewall-firewall_allowed c e src_zone dst_zone is_icmp p r honest valid found =
    elim (Bool-cases c.use_cpp_firewall) [
      | inr python ↦ rw python refl
      | inl daemon ↦
          elim (Option-cases (e.daemon p.srcip p.dstip (if is_icmp then icmp_protocol else 0))) [
            | inl failed ↦ rw (daemon, failed) refl
            | inr (allowed, told) ↦
                rw (daemon, told)
                  (honest.told p.srcip p.dstip (if is_icmp then icmp_protocol else 0) allowed told
                    ∙ same_call (source_ip_valid-zone_for_ip c.policy.zones p.srcip src_zone valid)
                        found (icmp_or_none is_icmp))
          ]
    ]
  where
    same_call :
        {a b : Option String} {i : Bool}
        → a ≡ some src_zone
        → b ≡ some dst_zone
        → i ≡ is_icmp
        → firewall_allowed c.policy a b i
          ≡ firewall_allowed c.policy (some src_zone) (some dst_zone) is_icmp
    same_call ea eb ei = rw (ea, eb, ei) refl
