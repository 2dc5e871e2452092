-- ===== src/Daemon.antt =====
-- cpp/firewall_daemon.cpp: the decisions of the daemon, on the tables of the header that it is
-- compiled with, and the bytes that it reads and writes.
pub mod Agreement
pub mod Exchange
pub mod Loop
pub mod Plumbing
pub mod Serving
pub mod Session
pub mod Recovery
pub mod Main
pub mod Clients
pub mod Wire
use mininet_zone_segmentatio.Base.{
  ℕ, zero, suc, ◌+◌, ◌-◌, ◌*◌, ◌/◌, ◌^◌, String, Bool, true, false, not, ◌&&◌, ◌||◌, Option, none,
  some, List, [], ◌∷◌, ◌==◌, nat_eq, string_eq, if◌then◌else◌,
}
use mininet_zone_segmentatio.Policy.{Pairs}
use mininet_zone_segmentatio.Header.{SubnetZone, PairTable, Header}

-- `Zone::Unknown` is `none`.
abbrev pub ZoneId : Type 0
ZoneId = Option String

-- The loop of `ContainsPair` over the rows that `count` leaves.
unfoldable pub contains_pair : Pairs → ℕ → String → String → Bool
contains_pair table zero src dst = false
contains_pair [] (suc count) src dst = false
contains_pair ((s, d) ∷ table) (suc count) src dst =
    (s == src && d == dst) || contains_pair table count src dst

-- `ip & mask`, for the mask of a prefix length.
unfoldable pub masked : ℕ → ℕ → ℕ
masked ip prefix_len =
    if prefix_len == 0 then 0 else ip / 2 ^ (32 - prefix_len) * 2 ^ (32 - prefix_len)

unfoldable pub classify_zone : List SubnetZone → ℕ → ZoneId
classify_zone [] ip = none
classify_zone (z ∷ zones) ip =
    if masked ip z.prefix_len == masked z.network z.prefix_len
    then some z.zone
    else classify_zone zones ip

pub record FilterResponse : Type 0 where
  pub verdict : ℕ
  pub rule_id : ℕ

unfoldable pub decide_known : Header → String → String → Bool → FilterResponse
decide_known h src dst is_icmp =
    if contains_pair h.block_all_ip.array h.block_all_ip.count src dst
    then record { verdict = 0; rule_id = 1 }
    else if is_icmp && contains_pair h.block_icmp.array h.block_icmp.count src dst
    then record { verdict = 0; rule_id = 2 }
    else record { verdict = 1; rule_id = 0 }

unfoldable pub decide : Header → ZoneId → ZoneId → Bool → FilterResponse
unfolding decide_known
decide h (some src) (some dst) is_icmp = decide_known h src dst is_icmp
decide h _ _ is_icmp = record { verdict = 0; rule_id = 3 }

-- `ntohl` of four bytes.
unfoldable pub ntohl : ℕ → ℕ → ℕ → ℕ → ℕ
ntohl a b c d = ((a * 256 + b) * 256 + c) * 256 + d

-- The body of `HandleClient`, from the 13 bytes of a request to the two of the response. `none` is
-- a request that is not complete, at which the connection is closed.
unfoldable pub respond : Header → List ℕ → Option (List ℕ)
unfolding ntohl
respond h (a ∷ b ∷ c ∷ d ∷ e ∷ f ∷ g ∷ i ∷ _ ∷ _ ∷ _ ∷ _ ∷ protocol ∷ []) =
    let resp =
      decide h (classify_zone h.zones (ntohl a b c d)) (classify_zone h.zones (ntohl e f g i))
        (protocol == 1) in
    some (resp.verdict ∷ resp.rule_id ∷ [])
respond h _ = none
