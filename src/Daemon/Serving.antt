-- ===== src/Daemon/Serving.antt =====
-- cpp/firewall_daemon.cpp: a connection gets the responses to its requests in their order, however the
-- bytes are cut into reads and writes.
use mininet_zone_segmentatio.Base.{
  ℕ, zero, suc, ◌+◌, ◌*◌, ◌≤◌, ◌<◌, ◌^◌, ◌==◌, if◌then◌else◌, ok, ◌≡◌, refl, ◌∙◌, ap, Bool, true,
  none, some, List, [], ◌∷◌, ◌++◌, nat_eq, length, take, drop, All, length-append, arith,
}
use mathlib.Core.List.{append_assoc}
use mininet_zone_segmentatio.Client.{Stream}
use mininet_zone_segmentatio.Client.Receive.{flat, NonEmpty, recv_exact-Reads, recv_exact-short}
use mininet_zone_segmentatio.Policy.{Policy, zone_for_ip, firewall_allowed}
use mininet_zone_segmentatio.Policy.Load.{RawPolicy, load_policy}
use mininet_zone_segmentatio.Header.{Header, render}
use mininet_zone_segmentatio.Daemon.{respond, classify_zone, decide}
use mininet_zone_segmentatio.Daemon.Agreement.{decide-firewall_allowed}
use mininet_zone_segmentatio.Daemon.Exchange.{bytes_of, respond-bytes}
use mininet_zone_segmentatio.Daemon.Plumbing.{
  bytes_got, read_full-recv_exact, Positive, write_full-Wrote,
}
use mininet_zone_segmentatio.Daemon.Loop.{read_full, Writes, write_full, serve, handle_client}

-- A question of the client.
pub record Query : Type 0 where
  pub src : ℕ
  pub dst : ℕ
  pub src_port : ℕ
  pub dst_port : ℕ
  pub protocol : ℕ

-- Its addresses have 32 bits.
abbrev pub InRange : Query → Type 0
InRange q = (q.src < 2 ^ 32) × (q.dst < 2 ^ 32)

abbrev pub requests : List Query → List ℕ
requests [] = []
requests (q ∷ queries) = bytes_of q.src q.dst q.src_port q.dst_port q.protocol ++ requests queries

-- The bytes that the policy asks for: its verdict, and the number of the rule.
abbrev pub policy_response : Policy → Header → Query → List ℕ
policy_response p h q =
    (if firewall_allowed p (zone_for_ip p.zones q.src) (zone_for_ip p.zones q.dst) (q.protocol == 1)
      then 1
      else 0)
    ∷ (decide h (classify_zone h.zones q.src) (classify_zone h.zones q.dst)
        (q.protocol == 1)).rule_id
    ∷ []

abbrev pub responses : Policy → Header → List Query → List ℕ
responses p h [] = []
responses p h (q ∷ queries) = policy_response p h q ++ responses p h queries

-- A round: one request is read, and its response is written.
serve-step :
    (fuel : ℕ) (h : Header) (s rest : Stream) (ws left : Writes) (request resp : List ℕ)
    → read_full 13 s ≡ some (request, rest)
    → respond h request ≡ some resp
    → write_full resp ws ≡ (true, resp, left)
    → serve (suc fuel) h s ws ≡ resp ++ serve fuel h rest left
unfolding serve
serve-step fuel h s rest ws left request resp read answer written =
    let done : (write_full resp ws).0 ≡ true = ap (λ (w : Bool × List ℕ × Writes). w.0) written in
    let out : (write_full resp ws).1 ≡ resp = ap (λ (w : Bool × List ℕ × Writes). w.1) written in
    let after : (write_full resp ws).2 ≡ left = ap (λ (w : Bool × List ℕ × Writes). w.2) written in
    rw (read, serve) (rw (answer, serve) (rw (done, out, after) refl))

serve-last :
    (fuel : ℕ) (h : Header) (s : Stream) (ws : Writes)
    → length (flat s) < 13
    → serve (suc fuel) h s ws ≡ []
unfolding serve
serve-last fuel h s ws few =
    let failed_read : read_full 13 s ≡ none =
      read_full-recv_exact 13 s ∙ ap bytes_got (recv_exact-short 13 s few) in
    rw (failed_read, serve) refl

-- The first request, of 13 bytes, and what follows it.
read_full-first :
    (s : Stream) (request more : List ℕ)
    → length request ≡ 13
    → flat s ≡ request ++ more
    → NonEmpty s
    → (rest : Stream) × (read_full 13 s ≡ some (request, rest)) × (flat rest ≡ more) × NonEmpty rest
read_full-first s request more thirteen e ne =
    let reads = recv_exact-Reads 13 s (rw e (omega (arith, length-append request more))) ne in
    (
      reads.rest,
      read_full-recv_exact 13 s
          ∙ ap bytes_got reads.result
          ∙ ap (λ (l : List ℕ). some (l, reads.rest))
              (ap (take 13) e ∙ take_first 13 request more thirteen),
      reads.left ∙ ap (drop 13) e ∙ drop_first 13 request more thirteen,
      reads.fine,
    )
  where
    take_first : (n : ℕ) (xs ys : List ℕ) → length xs ≡ n → take n (xs ++ ys) ≡ xs
    take_first zero [] ys h = refl
    take_first zero (x ∷ xs) ys h = absurd (omega arith)
    take_first (suc n) [] ys h = absurd (omega arith)
    take_first (suc n) (x ∷ xs) ys h = ap (λ l. x ∷ l) (take_first n xs ys (omega arith))

    drop_first : (n : ℕ) (xs ys : List ℕ) → length xs ≡ n → drop n (xs ++ ys) ≡ ys
    drop_first zero [] ys h = refl
    drop_first zero (x ∷ xs) ys h = absurd (omega arith)
    drop_first (suc n) [] ys h = absurd (omega arith)
    drop_first (suc n) (x ∷ xs) ys h = drop_first n xs ys (omega arith)

module _ (raw : RawPolicy) (p : Policy) (h : Header) (loaded : load_policy (some raw) ≡ ok p)
    (rendered : render p.zones p.block_all_ip p.block_icmp ≡ some h) where
  pub respond-policy_response :
      (q : Query)
      → InRange q
      → respond h (bytes_of q.src q.dst q.src_port q.dst_port q.protocol)
        ≡ some (policy_response p h q)
  respond-policy_response q (a, b) =
      let verdict =
        decide-firewall_allowed raw p h q.src q.dst (q.protocol == 1) loaded rendered a b in
      respond-bytes h q.src q.dst q.src_port q.dst_port q.protocol a b
      ∙ ap
          (λ (v : ℕ). some (
            v
            ∷ (decide h (classify_zone h.zones q.src) (classify_zone h.zones q.dst)
                (q.protocol == 1)).rule_id
            ∷ []))
          verdict

  serve-responses :
      (fuel : ℕ) (queries : List Query) (tail : List ℕ) (s : Stream) (ws : Writes)
      → length queries < fuel
      → All InRange queries
      → flat s ≡ requests queries ++ tail
      → length tail < 13
      → NonEmpty s
      → Positive ws
      → length queries * 2 ≤ length ws
      → serve fuel h s ws ≡ responses p h queries
  serve-responses zero queries tail s ws f wide e short ne pos room = elim f [ ]
  serve-responses (suc fuel) [] tail s ws f wide e short ne pos room =
      serve-last fuel h s ws (rw e short)
  serve-responses (suc fuel) (q ∷ queries) tail s ws f (range, wide) e short ne pos room =
      let request = bytes_of q.src q.dst q.src_port q.dst_port q.protocol in
      let resp = policy_response p h q in
      let (rest, read, more, fine) =
        read_full-first s request (requests queries ++ tail) refl
          (e ∙ append_assoc request (requests queries) tail) ne in
      let wrote = write_full-Wrote resp ws pos (omega arith) in
      serve-step fuel h s rest ws wrote.left request resp read (respond-policy_response q range)
        wrote.result
      ∙ ap (λ (l : List ℕ). resp ++ l)
          (serve-responses fuel queries tail rest wrote.left (omega arith) wide more short fine
            wrote.fine (omega (arith, wrote.cost)))

length-requests : (queries : List Query) → length (requests queries) ≡ length queries * 13
length-requests [] = omega arith
length-requests (q ∷ queries) = omega (arith, length-requests queries)

-- With the header of the loaded policy, a connection over which whole requests arrive, and at last
-- less than one, however they are cut into reads, gets the response to each request in their order,
-- with the verdict of `firewall_allowed` for the zones of its two addresses, and nothing else,
-- however many bytes each write takes; provided that writes go on taking bytes.
pub handle_client-responses :
    (raw : RawPolicy) (p : Policy) (h : Header) (queries : List Query) (tail : List ℕ) (s : Stream)
    (ws : Writes)
    → load_policy (some raw) ≡ ok p
    → render p.zones p.block_all_ip p.block_icmp ≡ some h
    → All InRange queries
    → flat s ≡ requests queries ++ tail
    → length tail < 13
    → NonEmpty s
    → Positive ws
    → length queries * 2 ≤ length ws
    → handle_client h s ws ≡ responses p h queries
unfolding handle_client
handle_client-responses raw p h queries tail s ws loaded rendered wide e short ne pos room =
    let bytes_in : length (flat s) ≡ length queries * 13 + length tail =
      ap length e ∙ omega (arith, length-append (requests queries) tail, length-requests queries) in
    serve-responses raw p h loaded rendered (suc (length (flat s))) queries tail s ws (omega arith)
      wide e short ne pos room
