-- ===== src/Daemon/Clients.antt =====
-- cpp/firewall_daemon.cpp: every client of a running daemon gets the responses to its requests.
use mininet_zone_segmentatio.Base.{
  ℕ, zero, suc, ◌*◌, ◌≤◌, ◌<◌, ◌≡◌, refl, ◌∙◌, ap, sym, true, false, none, some, List, [], ◌∷◌,
  ◌++◌, map, length, take, All, arith, ok,
}
use mathlib.Core.Path.{ap₂}
use mathlib.Core.List.{append-nil}
use mininet_zone_segmentatio.Policy.{Policy}
use mininet_zone_segmentatio.Policy.Load.{RawPolicy, load_policy}
use mininet_zone_segmentatio.Header.{Header, render}
use mininet_zone_segmentatio.Client.Receive.{flat, NonEmpty}
use mininet_zone_segmentatio.Daemon.Loop.{handle_client}
use mininet_zone_segmentatio.Daemon.Plumbing.{Positive}
use mininet_zone_segmentatio.Daemon.Serving.{
  Query, InRange, requests, responses, handle_client-responses,
}
use mininet_zone_segmentatio.Daemon.Main.{
  Connection, Turn, Action, unlinked, bound, served, closed, stopped, waiting, killed, returned,
  broken_pipe, Progress, waits, ends, dies, Setup, accept_loop, main,
}

-- Whole requests arrive on the connection, and at last less than one; and writes go on taking bytes.
pub record Asks (conn : Connection) (queries : List Query) : Type 0 where
  pub tail : List ℕ
  pub wide : All InRange queries
  pub whole : flat conn.arriving ≡ requests queries ++ tail
  pub short : length tail < 13
  pub pieces : NonEmpty conn.arriving
  pub taken : Positive conn.writes
  pub room : length queries * 2 ≤ length conn.writes

-- Calls of `accept`, without a signal so far, of which some fail, while no thread writes to a closed
-- connection; and what the threads write: the responses to a client that asks, and to any other
-- client, such as one that stops in the middle of a request, what `HandleClient` makes of it.
pub data Turns (p : Policy) (h : Header) : List Turn → List (List ℕ) → Type 0 where
  quiet : Turns p h [] []
  refused :
      {turns : List Turn} {written : List (List ℕ)}
      → Turns p h turns written
      → Turns p h (returned none false ∷ turns) written
  came :
      {conn : Connection} {queries : List Query} {turns : List Turn} {written : List (List ℕ)}
      → Asks conn queries
      → Turns p h turns written
      → Turns p h (returned (some conn) false ∷ turns) (responses p h queries ∷ written)
  other :
      {conn : Connection} {turns : List Turn} {written : List (List ℕ)}
      → Turns p h turns written
      → Turns p h
          (returned (some conn) false ∷ turns)
          (handle_client h conn.arriving conn.writes ∷ written)

-- `accept` returns with an error after a signal.
abbrev pub interrupted : Turn
interrupted = returned none true

module _ (raw : RawPolicy) (p : Policy) (h : Header) (loaded : load_policy (some raw) ≡ ok p)
    (rendered : render p.zones p.block_all_ip p.block_icmp ≡ some h) where
  Asks-responses :
      (conn : Connection) (queries : List Query)
      → Asks conn queries
      → handle_client h conn.arriving conn.writes ≡ responses p h queries
  Asks-responses conn queries a =
      handle_client-responses raw p h queries a.tail conn.arriving conn.writes loaded rendered
        a.wide a.whole a.short a.pieces a.taken a.room

  accept_loop-serves :
      (turns last : List Turn) (progress : Progress) (written : List (List ℕ))
      → accept_loop h last ≡ ([], progress)
      → Turns p h turns written
      → accept_loop h (turns ++ last) ≡ (map served written, progress)
  unfolding accept_loop
  accept_loop-serves _ last progress _ e quiet = e
  accept_loop-serves _ last progress _ e (refused t) = accept_loop-serves _ last progress _ e t
  accept_loop-serves _ last progress _ e (came {conn} {queries} a t) =
      ap₂ (λ (r : List Action × Progress) (bytes : List ℕ). (served bytes ∷ r.0, r.1))
        (accept_loop-serves _ last progress _ e t) (Asks-responses conn queries a)
  accept_loop-serves _ last progress _ e (other {conn} t) =
      ap
        (λ (r : List Action × Progress).
          (served (handle_client h conn.arriving conn.writes) ∷ r.0, r.1))
        (accept_loop-serves _ last progress _ e t)

take_short : (n : ℕ) (l : List ℕ) → length l ≤ n → take n l ≡ l
take_short zero [] h = refl
take_short zero (x ∷ l) h = absurd (omega arith)
take_short (suc n) [] h = refl
take_short (suc n) (x ∷ l) h = ap (λ (m : List ℕ). x ∷ m) (take_short n l (omega arith))

-- What the daemon has done once it serves the clients.
abbrev pub serves : List ℕ → List (List ℕ) → List Action
serves path written = unlinked path ∷ bound path ∷ map served written

abbrev pub ready : Setup
ready = record { has_socket = true; binds = true; listens = true }

main-waiting :
    (h : Header) (path : List ℕ) (turns : List Turn) (actions : List Action)
    → length path < 108
    → accept_loop h turns ≡ (actions, waits)
    → main h path ready turns ≡ waiting (unlinked path ∷ bound path ∷ actions)
unfolding main
main-waiting h path turns actions fits e = rw (e, take_short 107 path (omega arith)) refl

main-stopped :
    (h : Header) (path : List ℕ) (turns : List Turn) (actions : List Action)
    → length path < 108
    → accept_loop h turns ≡ (actions, ends)
    → main h path ready turns
      ≡ stopped ((unlinked path ∷ bound path ∷ actions) ++ (closed ∷ unlinked path ∷ []))
unfolding main
main-stopped h path turns actions fits e = rw (e, take_short 107 path (omega arith)) refl

main-killed :
    (h : Header) (path : List ℕ) (turns : List Turn) (actions : List Action)
    → length path < 108
    → accept_loop h turns ≡ (actions, dies)
    → main h path ready turns ≡ killed (unlinked path ∷ bound path ∷ actions)
unfolding main
main-killed h path turns actions fits e = rw (e, take_short 107 path (omega arith)) refl

-- With the header of the loaded policy, a path that fits the address of a socket, and system calls
-- that set the socket up. As long as no thread writes to a connection that its client has closed:
-- whatever calls of `accept` fail, the daemon goes on, and of its clients each that sends whole
-- requests and takes what is written gets the responses of the policy to its own requests in their
-- order, whatever the other clients send. When a signal interrupts `accept`, the daemon closes the
-- socket, removes its file, which is the one that it bound, and returns 0. But when a thread writes
-- to a connection that its client has closed, the daemon ends: it serves none of the clients that
-- would have come later, and leaves the file of its socket.
pub main-serves :
    (raw : RawPolicy) (p : Policy) (h : Header) (path : List ℕ) (turns more : List Turn)
    (written : List (List ℕ))
    → load_policy (some raw) ≡ ok p
    → render p.zones p.block_all_ip p.block_icmp ≡ some h
    → length path < 108
    → Turns p h turns written
    → (main h path ready turns ≡ waiting (serves path written))
      × (main h path ready (turns ++ (interrupted ∷ []))
          ≡ stopped (serves path written ++ (closed ∷ unlinked path ∷ [])))
      × (main h path ready (turns ++ (broken_pipe ∷ more)) ≡ killed (serves path written))
unfolding accept_loop
main-serves raw p h path turns more written loaded rendered fits t = (
  main-waiting h path turns _ fits (
      ap (accept_loop h) (sym (append-nil turns))
      ∙ accept_loop-serves raw p h loaded rendered turns [] waits written refl t),
  main-stopped h path (turns ++ (interrupted ∷ [])) _ fits
      (accept_loop-serves raw p h loaded rendered turns (interrupted ∷ []) ends written refl t),
  main-killed h path (turns ++ (broken_pipe ∷ more)) _ fits
      (accept_loop-serves raw p h loaded rendered turns (broken_pipe ∷ more) dies written refl t),
)
