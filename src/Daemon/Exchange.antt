-- ===== src/Daemon/Exchange.antt =====
-- firewall_client.py and cpp/firewall_daemon.cpp together: a call of `is_allowed` returns what
-- `firewall_allowed` of firewall_rules.py decides.
use mininet_zone_segmentatio.Base.{
  ℕ, ◌/◌, ◌%◌, ◌^◌, ◌<◌, ◌≡◌, refl, ◌∙◌, ap, Bool, true, some, List, [], ◌∷◌, arith, ◌==◌, nat_eq,
  take, if◌then◌else◌, ok,
}
use mininet_zone_segmentatio.Policy.{Policy, zone_for_ip, firewall_allowed}
use mininet_zone_segmentatio.Policy.Load.{RawPolicy, load_policy}
use mininet_zone_segmentatio.Header.{Header, render}
use mininet_zone_segmentatio.Daemon.{ntohl, respond, classify_zone, decide}
use mininet_zone_segmentatio.Daemon.Agreement.{decide-firewall_allowed}
use mininet_zone_segmentatio.Client.{
  Stream, got, recv_exact, pack_u32, pack_u16, pack_u8, pack_request, unpack_response, Client, Net,
  verdict, ensure_connected, finish, exchange, is_allowed,
}
use mininet_zone_segmentatio.Client.Receive.{flat, NonEmpty, recv_exact-Reads}

-- The bytes of a request.
abbrev pub bytes_of : ℕ → ℕ → ℕ → ℕ → ℕ → List ℕ
bytes_of src dst src_port dst_port protocol =
    src / 2 ^ 24
    ∷ src / 2 ^ 16 % 256
    ∷ src / 2 ^ 8 % 256
    ∷ src % 256
    ∷ dst / 2 ^ 24
    ∷ dst / 2 ^ 16 % 256
    ∷ dst / 2 ^ 8 % 256
    ∷ dst % 256
    ∷ src_port / 2 ^ 8
    ∷ src_port % 256
    ∷ dst_port / 2 ^ 8
    ∷ dst_port % 256
    ∷ protocol
    ∷ []

pub pack_request-bytes :
    (src dst src_port dst_port protocol : ℕ)
    → src < 2 ^ 32
    → dst < 2 ^ 32
    → src_port < 2 ^ 16
    → dst_port < 2 ^ 16
    → protocol < 256
    → pack_request src dst src_port dst_port protocol
      ≡ some (bytes_of src dst src_port dst_port protocol)
unfolding pack_request pack_u32 pack_u16 pack_u8
pack_request-bytes src dst src_port dst_port protocol a b c d e = ground arith

pub ntohl-bytes :
    (n : ℕ) → n < 2 ^ 32 → ntohl (n / 2 ^ 24) (n / 2 ^ 16 % 256) (n / 2 ^ 8 % 256) (n % 256) ≡ n
unfolding ntohl
ntohl-bytes n lt = omega arith

pub respond-bytes :
    (h : Header) (src dst src_port dst_port protocol : ℕ)
    → src < 2 ^ 32
    → dst < 2 ^ 32
    → (let r = decide h (classify_zone h.zones src) (classify_zone h.zones dst) (protocol == 1) in
        respond h (bytes_of src dst src_port dst_port protocol) ≡ some (r.verdict ∷ r.rule_id ∷ []))
unfolding respond
respond-bytes h src dst src_port dst_port protocol a b =
    rw (ntohl-bytes src a, ntohl-bytes dst b) refl

-- The other end of the socket serves the client: it can be written to, and what it delivers after a
-- request are the bytes of its response, in as many pieces as it likes.
pub record Serves (h : Header) (net : Net) : Type 0 where
  pub sends : net.sends ≡ true
  pub answers :
      (request resp : List ℕ)
      → respond h request ≡ some resp
      → (flat (net.answer request) ≡ resp) × NonEmpty (net.answer request)

recv_exact-two :
    (s : Stream) (v r : ℕ)
    → flat s ≡ v ∷ r ∷ []
    → NonEmpty s
    → (rest : Stream) × (recv_exact 2 s ≡ got (v ∷ r ∷ []) rest)
recv_exact-two s v r e ne =
    let reads = recv_exact-Reads 2 s (rw e (omega arith)) ne in
    (reads.rest, reads.result ∙ ap (λ (l : List ℕ). got (take 2 l) reads.rest) e)

pub exchange-verdict :
    (net : Net) (request : List ℕ) (v r : ℕ)
    → net.sends ≡ true
    → flat (net.answer request) ≡ v ∷ r ∷ []
    → NonEmpty (net.answer request)
    → (exchange net request []).0 ≡ verdict (v == 1) r
unfolding exchange finish unpack_response
exchange-verdict net request v r sends e ne =
    let (rest, got_two) = recv_exact-two (net.answer request) v r e ne in rw (sends, got_two) refl

pub is_allowed-exchange :
    (net : Net) (src dst protocol src_port dst_port : ℕ) (c : Client) (request : List ℕ)
    → pack_request src dst src_port dst_port protocol ≡ some request
    → ensure_connected net c ≡ some []
    → is_allowed net src dst protocol src_port dst_port c ≡ exchange net request []
unfolding is_allowed
is_allowed-exchange net src dst protocol src_port dst_port c request p e =
    rw (p, is_allowed) (rw (e, is_allowed) refl)

-- With a daemon that is compiled with the header of the loaded policy, and that serves a client
-- whose connection has nothing left to be read, `is_allowed` returns, for addresses, ports and a
-- protocol of their widths, what `firewall_allowed` decides for the zones of the two addresses; the
-- request counts as ICMP where its protocol is 1.
pub is_allowed-firewall_allowed :
    (raw : RawPolicy) (p : Policy) (h : Header) (net : Net) (c : Client)
    (src dst protocol src_port dst_port : ℕ)
    → load_policy (some raw) ≡ ok p
    → render p.zones p.block_all_ip p.block_icmp ≡ some h
    → Serves h net
    → ensure_connected net c ≡ some []
    → src < 2 ^ 32
    → dst < 2 ^ 32
    → src_port < 2 ^ 16
    → dst_port < 2 ^ 16
    → protocol < 256
    → (rule_id : ℕ) × ((is_allowed net src dst protocol src_port dst_port c).0
        ≡ verdict
            (firewall_allowed p (zone_for_ip p.zones src) (zone_for_ip p.zones dst) (protocol == 1))
            rule_id)
is_allowed-firewall_allowed raw p h net c src dst protocol src_port dst_port loaded rendered serves
      open_ a b sp dp pr =
    let response =
      decide h (classify_zone h.zones src) (classify_zone h.zones dst) (protocol == 1) in
    let request = bytes_of src dst src_port dst_port protocol in
    let (e, ne) =
      serves.answers request _ (respond-bytes h src dst src_port dst_port protocol a b) in
    let packed = pack_request-bytes src dst src_port dst_port protocol a b sp dp pr in
    (
      response.rule_id,
      rw (is_allowed-exchange net src dst protocol src_port dst_port c request packed open_) (
          exchange-verdict net request response.verdict response.rule_id serves.sends e ne
          ∙ ap (λ (allowed : Bool). verdict allowed response.rule_id)
              (is_one
                (decide-firewall_allowed raw p h src dst (protocol == 1) loaded rendered a b))),
    )
  where
    is_one : {v : ℕ} {allowed : Bool} → v ≡ (if allowed then 1 else 0) → (v == 1) ≡ allowed
    is_one {v} {allowed} e = ground arith
