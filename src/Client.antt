-- ===== src/Client.antt =====
-- firewall_client.py: `FirewallClient`, over a stream socket.
pub mod Receive
pub mod Unbroken
pub mod Addresses
use mininet_zone_segmentatio.Base.{
  ℕ, zero, suc, ◌+◌, ◌-◌, ◌*◌, ◌/◌, ◌%◌, ◌^◌, Bool, true, false, not, ◌&&◌, ◌||◌, Option, none,
  some, List, [], ◌∷◌, ◌++◌, ltb, leb, ◌==◌, nat_eq, length, take, drop, if◌then◌else◌,
}

-- What the other end delivers: bytes, or an error of the connection. At the end of the list the
-- other end has closed the connection.
pub data Arrival : Type 0 where
  bytes : List ℕ → Arrival
  broken : Arrival

abbrev pub Stream : Type 0
Stream = List Arrival

-- What is left of an arrival of which `n` bytes were read.
abbrev pub rest_of : ℕ → List ℕ → Stream → Stream
rest_of n bs s = if leb (length bs) n then s else bytes (drop n bs) ∷ s

-- `sock.recv(n)`: at most `n` of the bytes that came next, none if the connection is closed; `none`
-- is an OSError.
unfoldable pub recv : ℕ → Stream → Option (List ℕ × Stream)
recv n [] = some ([], [])
recv n (broken ∷ s) = none
recv n (bytes bs ∷ s) = some (take n bs, rest_of n bs s)

-- The exceptions of `is_allowed`: an OSError (ConnectionError is one), struct.error, and the loop
-- having no fuel left, which `recv_exact` rules out.
pub data Failure : Type 0 where
  os_error struct_error out_of_fuel : Failure

pub data Received : Type 0 where
  got : List ℕ → Stream → Received
  failed : Failure → Received

-- The loop of `_recv_exact`, with the bytes of `chunks` joined.
unfoldable pub recv_loop : ℕ → ℕ → List ℕ → Stream → Received
recv_loop zero remaining chunks s = failed out_of_fuel
recv_loop (suc fuel) zero chunks s = got chunks s
recv_loop (suc fuel) (suc n) chunks s = elim (recv (suc n) s) [
  | none ↦ failed os_error
  | some ([], s') ↦ failed os_error
  | some (b ∷ chunk, s') ↦ recv_loop fuel (suc n - length (b ∷ chunk)) (chunks ++ (b ∷ chunk)) s'
]

-- `_recv_exact`: each round reads a byte at least, so `n + 1` rounds are enough.
unfoldable pub recv_exact : ℕ → Stream → Received
recv_exact n s = recv_loop (suc n) n [] s

-- The unsigned big-endian fields of `struct.pack`; `none` is struct.error.
unfoldable pub pack_u32 : ℕ → Option (List ℕ)
pack_u32 n =
    if ltb n (2 ^ 32)
    then some (n / 2 ^ 24 ∷ n / 2 ^ 16 % 256 ∷ n / 2 ^ 8 % 256 ∷ n % 256 ∷ [])
    else none

unfoldable pub pack_u16 : ℕ → Option (List ℕ)
pack_u16 n = if ltb n (2 ^ 16) then some (n / 2 ^ 8 ∷ n % 256 ∷ []) else none

unfoldable pub pack_u8 : ℕ → Option (List ℕ)
pack_u8 n = if ltb n 256 then some (n ∷ []) else none

abbrev join : Option (List ℕ) → Option (List ℕ) → Option (List ℕ)
join (some a) (some b) = some (a ++ b)
join _ _ = none

-- `struct.pack("!IIHHB", src, dst, src_port, dst_port, protocol)`
unfoldable pub pack_request : ℕ → ℕ → ℕ → ℕ → ℕ → Option (List ℕ)
unfolding pack_u32 pack_u16 pack_u8
pack_request src dst src_port dst_port protocol =
    join (pack_u32 src)
      (join (pack_u32 dst) (join (pack_u16 src_port) (join (pack_u16 dst_port) (pack_u8 protocol))))

-- `verdict, rule_id = struct.unpack("!BB", response)`, and the tuple that `is_allowed` returns.
unfoldable pub unpack_response : List ℕ → Option (Bool × ℕ)
unpack_response (verdict ∷ rule_id ∷ []) = some (verdict == 1, rule_id)
unpack_response _ = none

-- `_sock`, with what is still to be read from it.
pub record Client : Type 0 where
  pub sock : Option Stream

-- What the system does in a call of `is_allowed`: whether `connect` works and what a new connection
-- then delivers, whether `sendall` works, and what the other end sends when it gets the request.
pub record Net : Type 0 where
  pub connects : Option Stream
  pub sends : Bool
  pub answer : List ℕ → Stream

pub data Outcome : Type 0 where
  verdict : Bool → ℕ → Outcome
  raised : Failure → Outcome

-- `_ensure_connected`; `none` is an OSError, which leaves `_sock` as None.
unfoldable pub ensure_connected : Net → Client → Option Stream
ensure_connected net c = elim c.sock [ some s ↦ some s | none ↦ net.connects ]

-- `socket.error` in the exchange drops the socket, so that the next call connects again.
unfoldable pub finish : Received → Outcome × Client
finish (failed e) = (raised e, record { sock = none })
finish (got response s) = elim (unpack_response response) [
  | none ↦ (raised struct_error, record { sock = some s })
  | some (allowed, rule_id) ↦ (verdict allowed rule_id, record { sock = some s })
]

-- The exchange on a socket: `sendall`, then two bytes.
unfoldable pub exchange : Net → List ℕ → Stream → Outcome × Client
unfolding finish
exchange net request s =
    if net.sends
    then finish (recv_exact 2 (s ++ net.answer request))
    else (raised os_error, record { sock = none })

unfoldable pub is_allowed : Net → ℕ → ℕ → ℕ → ℕ → ℕ → Client → Outcome × Client
unfolding ensure_connected exchange
is_allowed net src_ip dst_ip protocol src_port dst_port c =
    elim (pack_request src_ip dst_ip src_port dst_port protocol) [
      | none ↦ (raised struct_error, c)
      | some request ↦ elim (ensure_connected net c) [
        | none ↦ (raised os_error, c)
        | some s ↦ exchange net request s
      ]
    ]

-- `close`
abbrev pub close : Client → Client
close c = record { sock = none }
