-- ===== src/Daemon/Session.antt =====
-- firewall_client.py and cpp/firewall_daemon.cpp: many calls of one client, of which some may fail.
use mininet_zone_segmentatio.Base.{
  ℕ, ◌≤◌, ◌<◌, ◌^◌, ◌≡◌, refl, ◌∙◌, ap, sym, ◌⊎◌, Bool, Option, none, some, List, [], ◌∷◌, ◌++◌,
  ◌==◌, nat_eq, length, take, drop, length-append, arith, ltb, ok, inl, inr, Bool-cases,
  Option-cases, if◌then◌else◌,
}
use mathlib.Core.List.{append-nil}
use mininet_zone_segmentatio.Policy.{Policy, zone_for_ip, firewall_allowed}
use mininet_zone_segmentatio.Policy.Load.{RawPolicy, load_policy}
use mininet_zone_segmentatio.Header.{Header, render}
use mininet_zone_segmentatio.Client.{
  bytes, broken, Stream, got, recv_exact, unpack_response, Client, Net, Outcome, verdict, raised,
  os_error, ensure_connected, finish, exchange, is_allowed,
}
use mininet_zone_segmentatio.Client.Receive.{flat, NonEmpty, recv_exact-Reads, recv_exact-short}
use mininet_zone_segmentatio.Daemon.{respond}
use mininet_zone_segmentatio.Daemon.Exchange.{bytes_of, pack_request-bytes}
use mininet_zone_segmentatio.Daemon.Serving.{Query, policy_response, respond-policy_response}

-- Every field of the query has its width.
pub record Fits (q : Query) : Type 0 where
  pub src : q.src < 2 ^ 32
  pub dst : q.dst < 2 ^ 32
  pub src_port : q.src_port < 2 ^ 16
  pub dst_port : q.dst_port < 2 ^ 16
  pub protocol : q.protocol < 256

abbrev pub ask : Net → Query → Client → Outcome × Client
ask net q c = is_allowed net q.src q.dst q.protocol q.src_port q.dst_port c

-- Calls in a row, and what each one returns or raises.
unfoldable pub calls : List (Net × Query) → Client → List Outcome
calls [] c = []
calls ((net, q) ∷ list) c = let (outcome, c') = ask net q c in outcome ∷ calls list c'

-- The other end is the daemon, or what is left of it: a new connection has nothing to be read, and
-- after a request come some of the first bytes of its response, possibly none, before the connection ends.
pub record Obeys (h : Header) (net : Net) : Type 0 where
  pub fresh : (s : Stream) → net.connects ≡ some s → (flat s ≡ []) × NonEmpty s
  pub answers :
      (request resp : List ℕ)
      → respond h request ≡ some resp
      → (more : List ℕ) × (flat (net.answer request) ++ more ≡ resp) × NonEmpty (net.answer request)

-- Nothing of an earlier response is left to be read.
pub record Idle (c : Client) : Type 0 where
  pub quiet : (s : Stream) → c.sock ≡ some s → (flat s ≡ []) × NonEmpty s

-- The call returned the verdict of the policy, or it raised an OSError.
abbrev pub Right : Policy → Query → Outcome → Type 0
Right p q o =
    (o ≡ raised os_error)
    ⊎ ((rule_id : ℕ) × (o
          ≡ verdict
              (firewall_allowed p (zone_for_ip p.zones q.src) (zone_for_ip p.zones q.dst)
                (q.protocol == 1))
              rule_id))

abbrev pub AllRight : Policy → List (Net × Query) → List Outcome → Type 0
AllRight p [] [] = Unit
AllRight p ((_, q) ∷ list) (o ∷ outcomes) = Right p q o × AllRight p list outcomes
AllRight p _ _ = ⊥

abbrev pub AllObey : Header → List (Net × Query) → Type 0
AllObey h [] = Unit
AllObey h ((net, q) ∷ list) = Obeys h net × Fits q × AllObey h list

-- What is read behind a quiet stream: nothing if it ends in an error, or all of what follows.
flat-quiet :
    (s t : Stream) (more resp : List ℕ)
    → flat s ≡ []
    → NonEmpty s
    → flat t ++ more ≡ resp
    → (rest : List ℕ) × (flat (s ++ t) ++ rest ≡ resp)
flat-quiet [] t more resp quiet ne e = (more, e)
flat-quiet (broken ∷ s) t more resp quiet ne e = (resp, refl)
flat-quiet (bytes [] ∷ s) t more resp quiet ne e = absurd (omega (arith, ne.0))
flat-quiet (bytes (b ∷ bs) ∷ s) t more resp quiet ne e = absurd (cc quiet)

NonEmpty-append : (s t : Stream) → NonEmpty s → NonEmpty t → NonEmpty (s ++ t)
NonEmpty-append [] t a b = b
NonEmpty-append (broken ∷ s) t a b = NonEmpty-append s t a b
NonEmpty-append (bytes bs ∷ s) t a b = (a.0, NonEmpty-append s t a.1 b)

-- The result of an exchange: the whole response, or an error that drops the socket.
pub data Ended (allowed : Bool) (r : Outcome × Client) : Type 0 where
  answered : (rule_id : ℕ) → r.0 ≡ verdict allowed rule_id → Idle r.1 → Ended allowed r
  dropped : r ≡ (raised os_error, record { sock = none }) → Ended allowed r

all_of : (xs more : List ℕ) → length (xs ++ more) ≤ length xs → xs ++ more ≡ xs
all_of xs [] h = append-nil xs
all_of xs (m ∷ more) h = absurd (omega (arith, length-append xs (m ∷ more)))

finish-Ended :
    (allowed : Bool) (v rule_id : ℕ) (s : Stream) (more : List ℕ)
    → v ≡ (if allowed then 1 else 0)
    → flat s ++ more ≡ v ∷ rule_id ∷ []
    → NonEmpty s
    → Ended allowed (finish (recv_exact 2 s))
unfolding finish unpack_response
finish-Ended allowed v rule_id s more is_one e ne = elim (Bool-cases (ltb (length (flat s)) 2)) [
  | inl few ↦ dropped (rw (recv_exact-short 2 s (ground arith)) refl)
  | inr enough ↦
      let reads = recv_exact-Reads 2 s (ground arith) ne in
      let whole : flat s ≡ v ∷ rule_id ∷ [] =
        sym (all_of (flat s) more (ap_length e (ground arith))) ∙ e in
      let result : recv_exact 2 s ≡ got (v ∷ rule_id ∷ []) reads.rest =
        reads.result ∙ ap (λ (l : List ℕ). got (take 2 l) reads.rest) whole in
      let left : flat reads.rest ≡ [] = reads.left ∙ ap (drop 2) whole in
      rw result (
        answered rule_id (ap (λ (b : Bool). verdict b rule_id) (is_allowed_bit is_one)) (record {
          quiet = λ t same. let f : reads.rest ≡ t = cc same in rw (← f) (left, reads.fine);
        }))
]
  where
    ap_length :
        {l : List ℕ} → l ≡ v ∷ rule_id ∷ [] → 2 ≤ length (flat s) → length l ≤ length (flat s)
    ap_length e h = rw e h

    is_allowed_bit : v ≡ (if allowed then 1 else 0) → (v == 1) ≡ allowed
    is_allowed_bit e = ground arith

pub ensure_connected-none :
    (net : Net) (c : Client) → ensure_connected net c ≡ none → c ≡ record { sock = none }
unfolding ensure_connected
ensure_connected-none net c h = elim (Option-cases c.sock) [
  | inl e ↦ ap (λ (o : Option Stream). record { sock = o }) e
  | inr (s, e) ↦ absurd (ground arith)
]

ensure_connected-quiet :
    (h : Header) (net : Net) (c : Client) (s : Stream)
    → Obeys h net
    → Idle c
    → ensure_connected net c ≡ some s
    → (flat s ≡ []) × NonEmpty s
unfolding ensure_connected
ensure_connected-quiet h net c s obeys idle e = elim (Option-cases c.sock) [
  | inl n ↦ obeys.fresh s (ground arith)
  | inr (t, n) ↦ idle.quiet s (ground arith)
]

module _ (raw : RawPolicy) (p : Policy) (h : Header) (loaded : load_policy (some raw) ≡ ok p)
    (rendered : render p.zones p.block_all_ip p.block_icmp ≡ some h) where
  abbrev pub allowed_by : Query → Bool
  allowed_by q =
      firewall_allowed p (zone_for_ip p.zones q.src) (zone_for_ip p.zones q.dst) (q.protocol == 1)

  exchange-Ended :
      (net : Net) (q : Query) (s : Stream)
      → Obeys h net
      → Fits q
      → flat s ≡ []
      → NonEmpty s
      → Ended
          (allowed_by q)
          (exchange net (bytes_of q.src q.dst q.src_port q.dst_port q.protocol) s)
  unfolding exchange
  exchange-Ended net q s obeys fits quiet ne = elim (Bool-cases net.sends) [
    | inr fails ↦ dropped (rw fails refl)
    | inl sends ↦
        let request = bytes_of q.src q.dst q.src_port q.dst_port q.protocol in
        let (more, e, fine) =
          obeys.answers request (policy_response p h q)
            (respond-policy_response raw p h loaded rendered q (fits.src, fits.dst)) in
        let (rest, whole) =
          flat-quiet s (net.answer request) more (policy_response p h q) quiet ne e in
        rw sends (
          finish-Ended (allowed_by q) _ _ (s ++ net.answer request) rest refl whole
            (NonEmpty-append s (net.answer request) ne fine))
  ]

  pub ask-Ended :
      (net : Net) (q : Query) (c : Client)
      → Obeys h net
      → Fits q
      → Idle c
      → Ended (allowed_by q) (ask net q c)
  unfolding is_allowed
  ask-Ended net q c obeys fits idle =
      let packed =
        pack_request-bytes q.src q.dst q.src_port q.dst_port q.protocol fits.src fits.dst
          fits.src_port fits.dst_port fits.protocol in
      rw (packed, is_allowed)
        (elim (Option-cases (ensure_connected net c)) [
          | inl n ↦
              rw (n, is_allowed)
                (dropped
                  (ap (λ (d : Client). (raised os_error, d)) (ensure_connected-none net c n)))
          | inr (s, n) ↦
              let (quiet, ne) = ensure_connected-quiet h net c s obeys idle n in
              rw (n, is_allowed) (exchange-Ended net q s obeys fits quiet ne)
        ])

  pub Ended-Right : (q : Query) (r : Outcome × Client) → Ended (allowed_by q) r → Right p q r.0
  Ended-Right q r (answered rule_id e idle) = inr (rule_id, e)
  Ended-Right q r (dropped e) = inl (ap (λ (s : Outcome × Client). s.0) e)

  Ended-Idle : (q : Query) (r : Outcome × Client) → Ended (allowed_by q) r → Idle r.1
  Ended-Idle q r (answered rule_id e idle) = idle
  Ended-Idle q r (dropped e) =
      let none_left : r.1 ≡ record { sock = none } = ap (λ (s : Outcome × Client). s.1) e in
      rw none_left (record { quiet = λ s h. cc h })

  calls-Right :
      (list : List (Net × Query)) (c : Client)
      → AllObey h list
      → Idle c
      → AllRight p list (calls list c)
  unfolding calls
  calls-Right [] c obey idle = tt
  calls-Right ((net, q) ∷ list) c (obeys, fits, obey) idle =
      let ended = ask-Ended net q c obeys fits idle in
      (
        Ended-Right q (ask net q c) ended,
        calls-Right list (ask net q c).1 obey (Ended-Idle q (ask net q c) ended),
      )

-- With a daemon that is compiled with the header of the loaded policy, each of any number of calls of
-- a new client returns the verdict of `firewall_allowed` for its own query, or raises an OSError:
-- whichever connections cannot be made, whichever requests cannot be sent, and wherever responses are
-- cut short, no call takes what an earlier one left for its own response.
pub calls-AllRight :
    (raw : RawPolicy) (p : Policy) (h : Header) (list : List (Net × Query))
    → load_policy (some raw) ≡ ok p
    → render p.zones p.block_all_ip p.block_icmp ≡ some h
    → AllObey h list
    → AllRight p list (calls list (record { sock = none }))
calls-AllRight raw p h list loaded rendered obey =
    calls-Right raw p h loaded rendered list (record { sock = none }) obey
      (record { quiet = λ s e. cc e })
