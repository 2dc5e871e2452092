-- ===== src/Daemon/Loop.antt =====
-- cpp/firewall_daemon.cpp: the socket plumbing, and the loop over the requests of one client.
use mininet_zone_segmentatio.Base.{
  ℕ, zero, suc, ◌-◌, Bool, true, false, Option, none, some, List, [], ◌∷◌, ◌++◌, nat_eq, length,
  take, drop,
}
use mininet_zone_segmentatio.Client.{Stream, recv}
use mininet_zone_segmentatio.Client.Receive.{flat}
use mininet_zone_segmentatio.Header.{Header}
use mininet_zone_segmentatio.Daemon.{respond}

-- The loop of `ReadFull`: the bytes in the buffer so far are `buf`. `none` is false: the peer closed
-- the connection (0 bytes), or an error; or no fuel was left, which `read_full` rules out.
unfoldable pub read_loop : ℕ → ℕ → List ℕ → Stream → Option (List ℕ × Stream)
read_loop zero remaining buf s = none
read_loop (suc fuel) zero buf s = some (buf, s)
read_loop (suc fuel) (suc n) buf s = elim (recv (suc n) s) [
  | none ↦ none
  | some ([], s') ↦ none
  | some (b ∷ chunk, s') ↦ read_loop fuel (suc n - length (b ∷ chunk)) (buf ++ (b ∷ chunk)) s'
]

-- `ReadFull`: each round reads a byte at least, so `len + 1` rounds are enough.
unfoldable pub read_full : ℕ → Stream → Option (List ℕ × Stream)
read_full len s = read_loop (suc len) len [] s

-- What `write` does: it takes at most that many bytes, or none (an error or 0).
abbrev pub Writes : Type 0
Writes = List ℕ

-- The loop of `WriteFull`: whether it returned true, what was written, and the calls that are left.
-- At the end of the list the socket takes nothing.
unfoldable pub write_full : List ℕ → Writes → Bool × List ℕ × Writes
write_full [] ws = (true, [], ws)
write_full (b ∷ bs) [] = (false, [], [])
write_full (b ∷ bs) (zero ∷ ws) = (false, [], ws)
write_full (b ∷ bs) (suc k ∷ ws) =
    let (done, out, left) = write_full (drop (suc k) (b ∷ bs)) ws in
    (done, take (suc k) (b ∷ bs) ++ out, left)

-- The rounds of the loop of `HandleClient`, and what is written in them before the connection is
-- closed.
unfoldable pub serve : ℕ → Header → Stream → Writes → List ℕ
serve zero h s ws = []
serve (suc fuel) h s ws = elim (read_full 13 s) [
  | none ↦ []
  | some (request, s') ↦ elim (respond h request) [
    | none ↦ []
    | some resp ↦
        let (done, out, left) = write_full resp ws in
        elim done [ true ↦ out ++ serve fuel h s' left | false ↦ out ]
  ]
]

-- `HandleClient`: each round reads 13 bytes, so that a round more than there are bytes is enough.
unfoldable pub handle_client : Header → Stream → Writes → List ℕ
handle_client h s ws = serve (suc (length (flat s))) h s ws
