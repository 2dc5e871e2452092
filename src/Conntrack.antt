-- ===== src/Conntrack.antt =====
-- conntrack.py: connection tracking. Times are clock readings in nanoseconds; a method takes as an
-- argument each reading that it makes of `self._clock`, in the order in which it makes them.
-- Addresses are numbers here and dotted text in the source, which has one text for each number.
pub mod Expiry
pub mod Origin
pub mod Replies
pub mod History
use mininet_zone_segmentatio.Base.{
  ℕ, ◌+◌, ◌*◌, ◌^◌, Bool, true, false, not, ◌&&◌, ◌||◌, Option, none, some, List, [], ◌∷◌, ltb,
  ◌==◌, Eq, nat_eq, ℕ_discrete, Dict, lookup, insert, erase, length, if◌then◌else◌,
}

abbrev pub icmp_protocol : ℕ
icmp_protocol = 1

abbrev pub tcp_protocol : ℕ
tcp_protocol = 6

abbrev pub udp_protocol : ℕ
udp_protocol = 17

abbrev pub icmp_echo_reply : ℕ
icmp_echo_reply = 0

abbrev pub icmp_echo_request : ℕ
icmp_echo_request = 8

-- IDLE_TIMEOUT, 120 seconds.
abbrev pub default_idle_timeout : ℕ
default_idle_timeout = 120 * 10 ^ 9

pub record Flow : Type 0 where
  pub src : ℕ
  pub dst : ℕ
  pub proto : ℕ
  pub sport : ℕ
  pub dport : ℕ

Flow-discrete : Discrete Flow
unfolding ℕ_discrete
Flow-discrete = hlevel ℕ_discrete

instance unfoldable pub flow_eq : Eq Flow
unfolding Flow-discrete
flow_eq = record { dec = Flow-discrete }

unfoldable pub reversed : Flow → Flow
reversed f = record { src = f.dst; dst = f.src; proto = f.proto; sport = f.dport; dport = f.sport }

pub record TrackedPacket : Type 0 where
  pub flow : Flow
  pub may_open : Bool
  pub may_reply : Bool

-- `icmp_type == n`, where the type may be None.
is_type : Option ℕ → ℕ → Bool
unfolding nat_eq
is_type none n = false
is_type (some t) n = t == n

abbrev flow_of : ℕ → ℕ → ℕ → ℕ → ℕ → Flow
flow_of s d p sp dp = record { src = s; dst = d; proto = p; sport = sp; dport = dp }

unfoldable pub tracked_packet : ℕ → ℕ → ℕ → ℕ → ℕ → Option ℕ → ℕ → Option TrackedPacket
unfolding is_type
tracked_packet src dst proto sport dport icmp_type icmp_id =
    if proto == tcp_protocol || proto == udp_protocol
    then some
        (record { flow = flow_of src dst proto sport dport; may_open = true; may_reply = true })
    else if proto == icmp_protocol && is_type icmp_type icmp_echo_request
    then some (record {
      flow = flow_of src dst proto icmp_id icmp_id;
      may_open = true;
      may_reply = false;
    })
    else if proto == icmp_protocol && is_type icmp_type icmp_echo_reply
    then some (record {
      flow = flow_of src dst proto icmp_id icmp_id;
      may_open = false;
      may_reply = true;
    })
    else none

pub record ConnectionTable : Type 0 where
  pub idle_timeout : ℕ
  pub last_seen : Dict Flow ℕ

unfoldable pub new_table : ℕ → ConnectionTable
new_table idle_timeout = record { idle_timeout = idle_timeout; last_seen = [] }

-- `seen is not None and clock() - seen < idle_timeout`; the sum stands for the signed difference.
unfoldable pub is_fresh : ℕ → ℕ → Option ℕ → Bool
is_fresh idle now none = false
is_fresh idle now (some seen) = ltb now (seen + idle)

-- `_alive`
unfoldable pub alive : ℕ → ConnectionTable → Flow → Bool
unfolding is_fresh
alive now t flow = is_fresh t.idle_timeout now (lookup flow t.last_seen)

unfoldable pub track : ℕ → ConnectionTable → Flow → ConnectionTable
track now t flow = record t { last_seen = insert flow now t.last_seen }

-- The clock is read by `_alive`, and once more to refresh the connection.
unfoldable pub is_reply : ℕ → ℕ → ConnectionTable → Flow → Bool × ConnectionTable
is_reply now later t flow =
    if not (alive now t (reversed flow))
    then (false, t)
    else (true, record t { last_seen = insert (reversed flow) later t.last_seen })

-- `[f for f in self._last_seen if not self._alive(f)]`; `at f` is the reading made for `f`.
unfoldable pub stale_flows : (Flow → ℕ) → ConnectionTable → Dict Flow ℕ → List Flow
stale_flows at t [] = []
stale_flows at t ((f, seen) ∷ entries) =
    let rest = stale_flows at t entries in if not (alive (at f) t f) then f ∷ rest else rest

-- `for flow in stale: del self._last_seen[flow]`
unfoldable pub erase_all : List Flow → Dict Flow ℕ → Dict Flow ℕ
erase_all [] entries = entries
erase_all (f ∷ flows) entries = erase_all flows (erase f entries)

unfoldable pub expire : (Flow → ℕ) → ConnectionTable → ℕ × ConnectionTable
expire at t =
    let stale = stale_flows at t t.last_seen in
    (length stale, record t { last_seen = erase_all stale t.last_seen })

-- The results 'new' and 'reply' of `check`; None is `none`.
pub data Verdict : Type 0 where
  new reply : Verdict

-- The branch that the policy allows.
check_allowed : ℕ → ConnectionTable → Option TrackedPacket → Option Verdict × ConnectionTable
check_allowed now t none = (some new, t)
check_allowed now t (some packet) =
    (some new, if packet.may_open then track now t packet.flow else t)

-- The branch that the policy blocks.
check_blocked : ℕ → ℕ → ConnectionTable → Option TrackedPacket → Option Verdict × ConnectionTable
check_blocked now later t none = (none, t)
check_blocked now later t (some packet) =
    if packet.may_reply
    then (let (answers, t') = is_reply now later t packet.flow in
        if answers then (some reply, t') else (none, t'))
    else (none, t)

unfoldable pub check :
    ℕ → ℕ → ConnectionTable → Bool → Option TrackedPacket → Option Verdict × ConnectionTable
unfolding check_allowed check_blocked
check now later t policy_allowed packet =
    if policy_allowed then check_allowed now t packet else check_blocked now later t packet
