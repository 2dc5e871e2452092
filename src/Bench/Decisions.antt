-- ===== src/Bench/Decisions.antt =====
-- bench_firewall.py: one decision of each backend, on a packet of the samples.
use mathlib.Core.Path.{ap₂}
use mininet_zone_segmentatio.Base.{
  ℕ, ◌<◌, ◌^◌, ◌≡◌, refl, ap, ◌∙◌, Bool, true, String, none, some, List, [], ◌∷◌, ◌==◌, nat_eq, All,
  arith, err, ok,
}
use mininet_zone_segmentatio.Address.Parse.{ip_address, parse_address}
use mininet_zone_segmentatio.Policy.{Policy, zone_for_ip, firewall_allowed}
use mininet_zone_segmentatio.Policy.Load.{RawPolicy, load_policy}
use mininet_zone_segmentatio.Header.{Header, render}
use mininet_zone_segmentatio.Daemon.{respond}
use mininet_zone_segmentatio.Daemon.Exchange.{
  pack_request-bytes, respond-bytes, Serves, is_allowed-exchange, is_allowed-firewall_allowed,
}
use mininet_zone_segmentatio.Client.{
  unpack_response, Client, Net, verdict, os_error, ensure_connected, finish, exchange, is_allowed,
}
use mininet_zone_segmentatio.Client.Receive.{flat}
use mininet_zone_segmentatio.Client.Addresses.{is_allowed_text}
use mininet_zone_segmentatio.Bench.{
  Packet, sample_packets, client_error, zone_for_text, decide_python, of_answer, decide_cpp,
}
use mininet_zone_segmentatio.Client.Unbroken.{Unbroken, Unbroken-NonEmpty, recv_exact-drains}

-- The daemon runs: it can be connected to and written to, and each of its responses arrives whole, in
-- as many pieces as it likes.
pub record Reliable (h : Header) (net : Net) : Type 0 where
  pub connects : net.connects ≡ some []
  pub sends : net.sends ≡ true
  pub answers :
      (request resp : List ℕ)
      → respond h request ≡ some resp
      → (flat (net.answer request) ≡ resp) × Unbroken (net.answer request)

Reliable-Serves : (h : Header) (net : Net) → Reliable h net → Serves h net
Reliable-Serves h net r = record {
  sends = r.sends;
  answers =
      λ request resp e. let (whole, u) = r.answers request resp e in (whole, Unbroken-NonEmpty _ u);
}

-- A client that never connected, or that has read all that the daemon sent.
pub data Ready : Client → Type 0 where
  new : Ready (record { sock = none })
  idle : Ready (record { sock = some [] })

ensure_connected-Ready :
    (h : Header) (net : Net) (c : Client)
    → Reliable h net
    → Ready c
    → ensure_connected net c ≡ some []
unfolding ensure_connected
ensure_connected-Ready h net _ r new = r.connects
ensure_connected-Ready h net _ r idle = refl

-- An exchange leaves nothing to be read.
exchange-drains :
    (h : Header) (net : Net) (request : List ℕ) (v r : ℕ)
    → Reliable h net
    → respond h request ≡ some (v ∷ r ∷ [])
    → (exchange net request []).1 ≡ record { sock = some [] }
unfolding exchange finish unpack_response
exchange-drains h net request v r reliable e =
    let (whole, u) = reliable.answers request (v ∷ r ∷ []) e in
    rw (reliable.sends, recv_exact-drains (net.answer request) v r whole u) refl

-- What a packet of the samples is: two addresses and a protocol that has a byte.
pub record Usable (packet : Packet) : Type 0 where
  src : ℕ
  dst : ℕ
  is_src : ip_address packet.src_ip ≡ some src
  is_dst : ip_address packet.dst_ip ≡ some dst
  src_fits : src < 2 ^ 32
  dst_fits : dst < 2 ^ 32
  protocol_fits : packet.protocol < 256

with_addresses-Usable :
    (packet : Packet) (src dst : ℕ)
    → ip_address packet.src_ip ≡ some src
    → ip_address packet.dst_ip ≡ some dst
    → src < 2 ^ 32
    → dst < 2 ^ 32
    → packet.protocol < 256
    → Usable packet
with_addresses-Usable packet src dst is_src is_dst a b c = record {
  src = src;
  dst = dst;
  is_src = is_src;
  is_dst = is_dst;
  src_fits = a;
  dst_fits = b;
  protocol_fits = c;
}

pub sample_packets-Usable : All Usable sample_packets
unfolding ip_address parse_address
sample_packets-Usable = (
  with_addresses-Usable _ 1814239345 167838642 refl refl (omega arith) (omega arith) (omega arith),
  (
    with_addresses-Usable _ 1814239345 167838053 refl refl (omega arith) (omega arith)
        (omega arith),
    (
      with_addresses-Usable _ 3224315501 167838642 refl refl (omega arith) (omega arith)
          (omega arith),
      (
        with_addresses-Usable _ 3224315501 167838409 refl refl (omega arith) (omega arith)
            (omega arith),
        (
          with_addresses-Usable _ 3224315501 167838053 refl refl (omega arith) (omega arith)
              (omega arith),
          (
            with_addresses-Usable _ 167838053 167838409 refl refl (omega arith) (omega arith)
                (omega arith),
            (
              with_addresses-Usable _ 167838053 167838409 refl refl (omega arith) (omega arith)
                  (omega arith),
              tt,
            ),
          ),
        ),
      ),
    ),
  ),
)

zone_for_text-some :
    (p : Policy) (ip : String) {addr : ℕ}
    → ip_address ip ≡ some addr
    → zone_for_text p ip ≡ ok (zone_for_ip p.zones addr)
unfolding zone_for_text
zone_for_text-some p ip e = rw (e, zone_for_text) refl

-- A new client finds no daemon.
pub decide_cpp-down :
    (net : Net) (packet : Packet)
    → Usable packet
    → net.connects ≡ none
    → decide_cpp net packet (record { sock = none }) ≡ err (client_error os_error)
unfolding decide_cpp of_answer is_allowed_text ip_address is_allowed ensure_connected
decide_cpp-down net packet u down =
    let packed =
      pack_request-bytes u.src u.dst 0 0 packet.protocol u.src_fits u.dst_fits (omega arith)
        (omega arith) u.protocol_fits in
    rw (u.is_src, u.is_dst, is_allowed) (rw (packed, is_allowed) (rw (down, is_allowed) refl))

abbrev pub allowed_by : Policy → (packet : Packet) → Usable packet → Bool
allowed_by p packet u =
    firewall_allowed p (zone_for_ip p.zones u.src) (zone_for_ip p.zones u.dst)
      (packet.protocol == 1)

pub decide_python-Usable :
    (p : Policy) (packet : Packet) (u : Usable packet)
    → decide_python p packet ≡ ok (allowed_by p packet u)
unfolding decide_python
decide_python-Usable p packet u =
    rw (zone_for_text-some p packet.src_ip u.is_src, zone_for_text-some p packet.dst_ip u.is_dst)
      refl

module _ (raw : RawPolicy) (p : Policy) (h : Header) (loaded : load_policy (some raw) ≡ ok p)
    (rendered : render p.zones p.block_all_ip p.block_icmp ≡ some h) where
  is_allowed-Ready :
      (net : Net) (packet : Packet) (u : Usable packet) (c : Client)
      → Reliable h net
      → Ready c
      → (rule_id : ℕ) × (is_allowed net u.src u.dst packet.protocol 0 0 c
          ≡ (verdict (allowed_by p packet u) rule_id, record { sock = some [] }))
  is_allowed-Ready net packet u c reliable ready =
      let connected = ensure_connected-Ready h net c reliable ready in
      let packed =
        pack_request-bytes u.src u.dst 0 0 packet.protocol u.src_fits u.dst_fits (omega arith)
          (omega arith) u.protocol_fits in
      let (rule_id, answer) =
        is_allowed-firewall_allowed raw p h net c u.src u.dst packet.protocol 0 0 loaded rendered
          (Reliable-Serves h net reliable) connected u.src_fits u.dst_fits (omega arith)
          (omega arith) u.protocol_fits in
      let exchanged =
        is_allowed-exchange net u.src u.dst packet.protocol 0 0 c _ packed connected in
      let left =
        exchange-drains h net _ _ _ reliable
          (respond-bytes h u.src u.dst 0 0 packet.protocol u.src_fits u.dst_fits) in
      (rule_id, ap₂ (λ a b. (a, b)) answer (ap (λ r. r.1) exchanged ∙ left))

  pub decide_cpp-Ready :
      (net : Net) (packet : Packet) (u : Usable packet) (c : Client)
      → Reliable h net
      → Ready c
      → decide_cpp net packet c ≡ ok (allowed_by p packet u, record { sock = some [] })
  unfolding decide_cpp of_answer is_allowed_text ip_address
  decide_cpp-Ready net packet u c reliable ready =
      let (rule_id, answer) = is_allowed-Ready net packet u c reliable ready in
      rw (u.is_src, u.is_dst, answer) refl
