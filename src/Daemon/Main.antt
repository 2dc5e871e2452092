-- ===== src/Daemon/Main.antt =====
-- cpp/firewall_daemon.cpp: `main`, and the threads that it starts.
use mininet_zone_segmentatio.Base.{
  ℕ, Bool, Option, none, some, List, [], ◌∷◌, ◌++◌, take, if◌then◌else◌,
}
use mininet_zone_segmentatio.Text.{codes}
use mininet_zone_segmentatio.Header.{Header}
use mininet_zone_segmentatio.Client.{Stream}
use mininet_zone_segmentatio.Daemon.Loop.{Writes, handle_client}

-- kDefaultSocketPath
abbrev pub default_socket_path : List ℕ
default_socket_path = codes "/tmp/zone_firewall.sock"

-- What comes in on a connection, and what its writes do.
pub record Connection : Type 0 where
  pub arriving : Stream
  pub writes : Writes

-- What happens while `main` waits in `accept`: it returns a connection, or an error, and
-- `g_shutdown_requested` is set then or not; or a thread writes to a connection that its client has
-- closed, and the SIGPIPE, which `main` leaves at its default, ends the process.
pub data Turn : Type 0 where
  returned : (accepted : Option Connection) (signalled : Bool) → Turn
  broken_pipe : Turn

-- `served` is a thread of `HandleClient`, with what it writes if it runs to its end.
pub data Action : Type 0 where
  unlinked : (path : List ℕ) → Action
  bound : (path : List ℕ) → Action
  served : (written : List ℕ) → Action
  closed : Action

-- `main` returns 1 or 0, or it waits in `accept`, or SIGPIPE has ended the process.
pub data Exit : Type 0 where
  failed stopped waiting killed : List Action → Exit

-- The loop over `accept` waits, or has ended, or SIGPIPE has ended the process.
pub data Progress : Type 0 where
  waits ends dies : Progress

-- Whether `socket`, `bind` and `listen` succeed.
pub record Setup : Type 0 where
  pub has_socket : Bool
  pub binds : Bool
  pub listens : Bool

-- The loop over `accept`: the actions, and where it got. A failed call ends it after a signal only; a
-- connection is served all the same.
unfoldable pub accept_loop : Header → List Turn → List Action × Progress
accept_loop h [] = ([], waits)
accept_loop h (broken_pipe ∷ turns) = ([], dies)
accept_loop h (returned none signalled ∷ turns) =
    let rest = accept_loop h turns in if signalled then ([], ends) else rest
accept_loop h (returned (some conn) signalled ∷ turns) =
    let thread = served (handle_client h conn.arriving conn.writes) in
    let (rest, progress) = accept_loop h turns in
    if signalled then (thread ∷ [], ends) else (thread ∷ rest, progress)

-- `strncpy` into `sun_path`, which has 108 bytes with the zero at the end.
abbrev pub sun_path : List ℕ → List ℕ
sun_path path = take 107 path

shut_down : List ℕ → List Action × Progress → Exit
shut_down path (actions, waits) = waiting (unlinked path ∷ bound (sun_path path) ∷ actions)
shut_down path (actions, ends) =
    stopped (unlinked path ∷ bound (sun_path path) ∷ (actions ++ (closed ∷ unlinked path ∷ [])))
shut_down path (actions, dies) = killed (unlinked path ∷ bound (sun_path path) ∷ actions)

unfoldable pub main : Header → List ℕ → Setup → List Turn → Exit
unfolding shut_down
main h socket_path s turns =
    if s.has_socket
    then if s.binds
      then if s.listens
        then shut_down socket_path (accept_loop h turns)
        else failed (unlinked socket_path ∷ bound (sun_path socket_path) ∷ closed ∷ [])
      else failed (unlinked socket_path ∷ closed ∷ [])
    else failed (unlinked socket_path ∷ [])
