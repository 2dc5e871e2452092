-- ===== src/Daemon/Wire.antt =====
-- firewall_client.py and cpp/firewall_daemon.cpp: what `is_allowed`, given the text of two addresses,
-- puts on the wire, and what the daemon reads there.
use mininet_zone_segmentatio.Base.{
  ℕ, zero, suc, ◌<◌, ◌^◌, ◌≡◌, refl, ap, Option, none, some, List, [], ◌∷◌, nat_eq, inl, inr,
  Option-cases,
}
use mininet_zone_segmentatio.Address.Print.{address_text}
use mininet_zone_segmentatio.Client.{
  Stream, Client, Net, raised, os_error, ensure_connected, exchange, is_allowed,
}
use mininet_zone_segmentatio.Client.Addresses.{
  Answer, outcome, is_allowed_text, is_allowed_text-address_text,
}
use mininet_zone_segmentatio.Daemon.{ntohl}
use mininet_zone_segmentatio.Daemon.Exchange.{bytes_of, pack_request-bytes, ntohl-bytes}

-- The exchange of one request, or the OSError of a connection that cannot be made.
abbrev pub over : Net → List ℕ → Option Stream → Client → Answer × Client
over net request none c = (outcome (raised os_error), c)
over net request (some s) c = let r = exchange net request s in (outcome r.0, r.1)

-- The address in four bytes from the index on, as `ntohl` reads it.
abbrev pub address_at : ℕ → List ℕ → Option ℕ
address_at zero (a ∷ b ∷ c ∷ d ∷ bs) = some (ntohl a b c d)
address_at zero _ = none
address_at (suc n) [] = none
address_at (suc n) (b ∷ bs) = address_at n bs

-- Given the text that two IPv4 addresses print as, and ports and a protocol of their widths,
-- `is_allowed` writes one request of 13 bytes to the socket that it has or opens, and returns what
-- the exchange of these bytes comes to; or it raises the OSError of a connection that cannot be made.
-- The bytes are the source address, the destination address and the two ports, each with its high
-- byte first, and the protocol; the daemon reads the same two addresses in them.
pub is_allowed_text-over :
    (net : Net) (src dst protocol src_port dst_port : ℕ) (c : Client)
    → src < 2 ^ 32
    → dst < 2 ^ 32
    → src_port < 2 ^ 16
    → dst_port < 2 ^ 16
    → protocol < 256
    → (let request = bytes_of src dst src_port dst_port protocol in
        (is_allowed_text net (address_text src) (address_text dst) protocol src_port dst_port c
          ≡ over net request (ensure_connected net c) c)
        × (address_at 0 request ≡ some src)
        × (address_at 4 request ≡ some dst))
unfolding is_allowed
is_allowed_text-over net src dst protocol src_port dst_port c a b sp dp pr = (
  rw (is_allowed_text-address_text net src dst protocol src_port dst_port c a b) (
      rw (pack_request-bytes src dst src_port dst_port protocol a b sp dp pr, is_allowed)
        (elim (Option-cases (ensure_connected net c)) [
          | inl n ↦ rw (n, is_allowed) refl
          | inr (s, n) ↦ rw (n, is_allowed) refl
        ])),
  ap (λ (n : ℕ). some n) (ntohl-bytes src a),
  ap (λ (n : ℕ). some n) (ntohl-bytes dst b),
)
