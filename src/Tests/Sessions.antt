-- ===== src/Tests/Sessions.antt =====
-- The theorems on the connections between the client and the daemon, at the policy that ships with
-- the program.
use mininet_zone_segmentatio.Base.{
  ℕ, ◌≡◌, refl, ◌∙◌, true, false, Option, none, some, List, [], ◌∷◌, ◌++◌, nat_eq, string_eq, arith,
}
use mathlib.Core.List.{append-nil}
use mininet_zone_segmentatio.Policy.{zone_for_ip, firewall_allowed}
use mininet_zone_segmentatio.Policy.Shipped.{document, policy, load_policy-document}
use mininet_zone_segmentatio.Client.{
  Stream, bytes, broken, Net, raised, os_error, verdict, is_allowed, ensure_connected, pack_request,
}
use mininet_zone_segmentatio.Client.Receive.{flat, NonEmpty}
use mininet_zone_segmentatio.Daemon.{respond}
use mininet_zone_segmentatio.Daemon.Loop.{handle_client, Writes}
use mininet_zone_segmentatio.Daemon.Serving.{Query, requests, responses, handle_client-responses}
use mininet_zone_segmentatio.Daemon.Main.{
  Connection, Turn, unlinked, closed, stopped, waiting, killed, returned, broken_pipe,
  default_socket_path, main,
}
use mininet_zone_segmentatio.Daemon.Clients.{
  Asks, quiet, refused, came, other, interrupted, serves, ready, main-serves,
}
use mininet_zone_segmentatio.Daemon.Session.{Fits, Obeys, ask, calls, AllRight, calls-AllRight}
use mininet_zone_segmentatio.Daemon.Recovery.{ask-recovers}
use mininet_zone_segmentatio.Tests.Daemons.{
  header, render-policy, net, net-Serves, pieces, flat-pieces, NonEmpty-pieces,
}

abbrev ping : Query
ping = record { src = 167838053; dst = 167838409; src_port = 0; dst_port = 0; protocol = 1 }

abbrev web : Query
web = record { src = 167838053; dst = 167838642; src_port = 40000; dst_port = 80; protocol = 6 }

-- Two requests, and the first three bytes of a third, each byte by itself.
abbrev arriving : Stream
arriving = pieces (requests (ping ∷ web ∷ []) ++ (10 ∷ 1 ∷ 1 ∷ []))

abbrev one_by_one : Writes
one_by_one = 1 ∷ 1 ∷ 1 ∷ 1 ∷ []

handle_client-responses_example :
    handle_client header arriving one_by_one ≡ responses policy header (ping ∷ web ∷ [])
handle_client-responses_example =
    handle_client-responses document policy header (ping ∷ web ∷ []) (10 ∷ 1 ∷ 1 ∷ []) arriving
      one_by_one load_policy-document render-policy
      ((omega arith, omega arith), ((omega arith, omega arith), tt)) refl (omega arith)
      (NonEmpty-pieces (requests (ping ∷ web ∷ []) ++ (10 ∷ 1 ∷ 1 ∷ [])))
      (omega arith, (omega arith, (omega arith, (omega arith, tt)))) (omega arith)

-- Two clients, and a call of `accept` that fails between them.
abbrev first_client : Connection
first_client = record { arriving = arriving; writes = one_by_one }

abbrev second_client : Connection
second_client = record { arriving = pieces (requests (web ∷ [])); writes = 2 ∷ 2 ∷ [] }

-- One that stops in its first request.
abbrev rude_client : Connection
rude_client = record { arriving = bytes (10 ∷ 1 ∷ []) ∷ broken ∷ []; writes = [] }

abbrev turns : List Turn
turns =
    returned (some first_client) false
    ∷ returned none false
    ∷ returned (some rude_client) false
    ∷ returned (some second_client) false
    ∷ []

abbrev written : List (List ℕ)
written =
    responses policy header (ping ∷ web ∷ [])
    ∷ handle_client header rude_client.arriving rude_client.writes
    ∷ responses policy header (web ∷ [])
    ∷ []

first_client-Asks : Asks first_client (ping ∷ web ∷ [])
first_client-Asks = record {
  tail = 10 ∷ 1 ∷ 1 ∷ [];
  wide = ((omega arith, omega arith), ((omega arith, omega arith), tt));
  whole = refl;
  short = omega arith;
  pieces = NonEmpty-pieces (requests (ping ∷ web ∷ []) ++ (10 ∷ 1 ∷ 1 ∷ []));
  taken = (omega arith, (omega arith, (omega arith, (omega arith, tt))));
  room = omega arith;
}

second_client-Asks : Asks second_client (web ∷ [])
second_client-Asks = record {
  tail = [];
  wide = ((omega arith, omega arith), tt);
  whole = refl;
  short = omega arith;
  pieces = NonEmpty-pieces (requests (web ∷ []));
  taken = (omega arith, (omega arith, tt));
  room = omega arith;
}

-- The path of the socket when none is given.
main-serves_example :
    (main header default_socket_path ready turns ≡ waiting (serves default_socket_path written))
    × (main header default_socket_path ready (turns ++ (interrupted ∷ []))
        ≡ stopped
            (serves default_socket_path written ++ (closed ∷ unlinked default_socket_path ∷ [])))
    × (main header default_socket_path ready
          (turns ++ (broken_pipe ∷ returned (some first_client) false ∷ []))
        ≡ killed (serves default_socket_path written))
main-serves_example =
    main-serves document policy header default_socket_path turns
      (returned (some first_client) false ∷ []) written load_policy-document render-policy
      (omega arith) (came first_client-Asks (refused (other (came second_client-Asks quiet))))

ping-Fits : Fits ping
ping-Fits = record {
  src = omega arith;
  dst = omega arith;
  src_port = omega arith;
  dst_port = omega arith;
  protocol = omega arith;
}

web-Fits : Fits web
web-Fits = record {
  src = omega arith;
  dst = omega arith;
  src_port = omega arith;
  dst_port = omega arith;
  protocol = omega arith;
}

-- No daemon.
abbrev down : Net
down = record { connects = none; sends = false; answer = λ request. [] }

-- A daemon that stops in the middle of its response.
abbrev cut : Option (List ℕ) → Stream
cut none = []
cut (some resp) = elim resp [ [] ↦ [] | v ∷ _ ↦ bytes (v ∷ []) ∷ broken ∷ [] ]

abbrev stopping : Net
stopping = record {
  connects = some [];
  sends = true;
  answer = λ request. cut (respond header request);
}

nothing_yet : (s : Stream) → ◌≡◌ {A = Option Stream} (some []) (some s) → (flat s ≡ []) × NonEmpty s
nothing_yet s e = let same : ◌≡◌ {A = Stream} [] s = cc e in rw (← same) (refl, tt)

down-Obeys : Obeys header down
down-Obeys = record { fresh = λ s e. cc e; answers = λ request resp e. (resp, refl, tt) }

pub net-Obeys : Obeys header net
net-Obeys = record {
  fresh = nothing_yet;
  answers = λ request resp e.
      rw e ([], append-nil (flat (pieces resp)) ∙ flat-pieces resp, NonEmpty-pieces resp);
}

stopping-Obeys : Obeys header stopping
stopping-Obeys = record { fresh = nothing_yet; answers = λ request resp e. rw e (cut_short resp) }
  where
    cut_short :
        (resp : List ℕ)
        → (more : List ℕ) × (flat (cut (some resp)) ++ more ≡ resp) × NonEmpty (cut (some resp))
    cut_short [] = ([], refl, tt)
    cut_short (v ∷ resp) = (resp, refl, (omega arith, tt))

abbrev history : List (Net × Query)
history = (down, web) ∷ (net, ping) ∷ (stopping, web) ∷ (net, web) ∷ []

calls-AllRight_example : AllRight policy history (calls history (record { sock = none }))
calls-AllRight_example =
    calls-AllRight document policy header history load_policy-document render-policy (
      down-Obeys,
      web-Fits,
      (net-Obeys, ping-Fits, (stopping-Obeys, web-Fits, (net-Obeys, web-Fits, tt))),
    )

ask-down : (ask down web (record { sock = none })).0 ≡ raised os_error
unfolding is_allowed ensure_connected pack_request
ask-down = refl

ask-recovers_example :
    (rule_id : ℕ) × ((ask net ping (ask down web (record { sock = none })).1).0
      ≡ verdict
          (firewall_allowed policy
            (zone_for_ip policy.zones 167838053)
            (zone_for_ip policy.zones 167838409)
            true)
          rule_id)
unfolding nat_eq
ask-recovers_example =
    ask-recovers document policy header down net web ping (record { sock = none })
      load_policy-document render-policy web-Fits ping-Fits ask-down refl net-Serves
