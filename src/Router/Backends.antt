-- ===== src/Router/Backends.antt =====
-- controller.py, firewall_client.py and cpp/firewall_daemon.cpp: `_firewall_allowed` with the client
-- of the daemon behind it.
use mininet_zone_segmentatio.Base.{
  ℕ, String, ◌<◌, ◌^◌, ◌≡◌, Bool, true, Option, none, some, List, ok, arith, ◌==◌, nat_eq, inl, inr,
  Option-cases,
}
use mininet_zone_segmentatio.Policy.{
  Policy, zone_for_ip, source_ip_valid_for_zone, firewall_allowed,
}
use mininet_zone_segmentatio.Policy.Load.{RawPolicy, load_policy}
use mininet_zone_segmentatio.Header.{Header, render}
use mininet_zone_segmentatio.Client.{
  Client, Net, Outcome, verdict, raised, pack_u32, pack_u16, pack_u8, pack_request, is_allowed,
}
use mininet_zone_segmentatio.Daemon.Serving.{Query}
use mininet_zone_segmentatio.Daemon.Session.{Fits, Obeys, Idle, Right, ask, ask-Ended, Ended-Right}
use mininet_zone_segmentatio.Router.{Ipv4, Router, Config, PacketIn}
use mininet_zone_segmentatio.Router.IpHandler.{ask_firewall}
use mininet_zone_segmentatio.Router.Filter.{Honest, ask_firewall-firewall_allowed}

-- The `allowed` of `FirewallClient.is_allowed`; `none` is the OSError that `_firewall_allowed`
-- catches. The addresses and the protocol of a packet have their widths, so that `is_allowed` packs
-- them and raises nothing else.
unfoldable pub allowed_of : Outcome → Option Bool
allowed_of (verdict allowed _) = some allowed
allowed_of (raised _) = none

-- The event, with the client of this process behind `_firewall_allowed`.
abbrev pub behind : Net → Client → PacketIn → PacketIn
behind net k e = record e {
  daemon = λ src dst protocol. allowed_of (is_allowed net src dst protocol 0 0 k).0;
}

pack_request-widths :
    (src dst protocol : ℕ) (request : List ℕ)
    → pack_request src dst 0 0 protocol ≡ some request
    → (src < 2 ^ 32) × (dst < 2 ^ 32) × (protocol < 256)
unfolding pack_request pack_u32 pack_u16 pack_u8
pack_request-widths src dst protocol request packed = ground arith

-- A call that returns has packed its arguments.
allowed-Fits :
    (net : Net) (k : Client) (src dst protocol : ℕ) (allowed : Bool)
    → allowed_of (is_allowed net src dst protocol 0 0 k).0 ≡ some allowed
    → (src < 2 ^ 32) × (dst < 2 ^ 32) × (protocol < 256)
unfolding is_allowed allowed_of
allowed-Fits net k src dst protocol allowed h =
    elim (Option-cases (pack_request src dst 0 0 protocol)) [
      | inl n ↦ absurd (ground arith)
      | inr (request, packed) ↦ pack_request-widths src dst protocol request packed
    ]

allowed-Right :
    (p : Policy) (q : Query) (allowed : Bool) (o : Outcome)
    → Right p q o
    → allowed_of o ≡ some allowed
    → allowed
      ≡ firewall_allowed p (zone_for_ip p.zones q.src) (zone_for_ip p.zones q.dst) (q.protocol == 1)
unfolding allowed_of
allowed-Right p q allowed o (inl e) said = ground arith
allowed-Right p q allowed o (inr (rule_id, e)) said = ground arith

behind-Honest :
    (raw : RawPolicy) (c : Config) (h : Header) (net : Net) (k : Client) (e : PacketIn)
    → load_policy (some raw) ≡ ok c.policy
    → render c.policy.zones c.policy.block_all_ip c.policy.block_icmp ≡ some h
    → Obeys h net
    → Idle k
    → Honest c (behind net k e)
behind-Honest raw c h net k e loaded rendered obeys idle = record {
  told = λ src dst protocol allowed said.
      let (a, b, pr) = allowed-Fits net k src dst protocol allowed said in
      let q : Query = record {
        src = src;
        dst = dst;
        src_port = 0;
        dst_port = 0;
        protocol = protocol;
      } in
      let fits : Fits q = record {
        src = a;
        dst = b;
        src_port = omega arith;
        dst_port = omega arith;
        protocol = pr;
      } in
      allowed-Right c.policy q allowed (ask net q k).0
        (Ended-Right raw c.policy h loaded rendered q (ask net q k)
          (ask-Ended raw c.policy h loaded rendered net q k obeys fits idle))
        said;
}

-- Let the daemon be compiled with the header of the policy that the controller has loaded, and let the
-- client of the controller have nothing left to be read. Then, for a packet whose source passed the
-- anti-spoofing test, `_firewall_allowed` gives the verdict of `firewall_allowed` on the zone of the
-- ingress port and the zone of the destination, whether it asks the daemon or the Python function:
-- also where the daemon cannot be reached, cannot be written to, or stops in its response.
pub ask_firewall-behind :
    (raw : RawPolicy) (c : Config) (h : Header) (net : Net) (k : Client) (e : PacketIn)
    (src_zone dst_zone : String) (is_icmp : Bool) (p : Ipv4) (r : Router)
    → load_policy (some raw) ≡ ok c.policy
    → render c.policy.zones c.policy.block_all_ip c.policy.block_icmp ≡ some h
    → Obeys h net
    → Idle k
    → source_ip_valid_for_zone c.policy.zones p.srcip (some src_zone) ≡ true
    → zone_for_ip c.policy.zones p.dstip ≡ some dst_zone
    → (ask_firewall c (behind net k e) src_zone dst_zone is_icmp p r).0
      ≡ firewall_allowed c.policy (some src_zone) (some dst_zone) is_icmp
ask_firewall-behind raw c h net k e src_zone dst_zone is_icmp p r loaded rendered obeys idle valid
      found =
    ask_firewall-firewall_allowed c (behind net k e) src_zone dst_zone is_icmp p r
      (behind-Honest raw c h net k e loaded rendered obeys idle) valid found
