-- ===== src/Bench.antt =====
-- bench_firewall.py: the same decisions, timed in Python and through the daemon.
pub mod Sorting
pub mod Percentiles
pub mod Decisions
pub mod Backends
pub mod Main
use mininet_zone_segmentatio.Base.{
  ℕ, zero, suc, ◌+◌, ◌-◌, ◌*◌, ◌/◌, String, Bool, Option, none, some, List, [], ◌∷◌, ◌++◌, map, leb,
  ◌==◌, nat_eq, length, drop, Result, ok, err, ◌>>=◌, if◌then◌else◌,
}
use mininet_zone_segmentatio.Text.{codes}
use mininet_zone_segmentatio.Address.Parse.{ip_address}
use mininet_zone_segmentatio.Policy.{Policy, zone_for_ip, firewall_allowed}
use mininet_zone_segmentatio.Client.{Client, Net, Failure, os_error, verdict, raised, close}
use mininet_zone_segmentatio.Client.Addresses.{
  Answer, address_value_error, outcome, is_allowed_text,
}

pub record Packet : Type 0 where
  pub src_ip : String
  pub dst_ip : String
  pub protocol : ℕ

-- SAMPLE_PACKETS
abbrev pub sample_packets : List Packet
sample_packets =
    record { src_ip = "108.35.24.113"; dst_ip = "10.1.3.178"; protocol = 6 }
    ∷ record { src_ip = "108.35.24.113"; dst_ip = "10.1.1.101"; protocol = 1 }
    ∷ record { src_ip = "192.47.38.109"; dst_ip = "10.1.3.178"; protocol = 6 }
    ∷ record { src_ip = "192.47.38.109"; dst_ip = "10.1.2.201"; protocol = 1 }
    ∷ record { src_ip = "192.47.38.109"; dst_ip = "10.1.1.101"; protocol = 6 }
    ∷ record { src_ip = "10.1.1.101"; dst_ip = "10.1.2.201"; protocol = 1 }
    ∷ record { src_ip = "10.1.1.101"; dst_ip = "10.1.2.201"; protocol = 6 }
    ∷ []

-- ITERATIONS
unfoldable pub iterations : ℕ
iterations = 20000

-- The packets in the order of the two loops.
unfoldable pub workload : ℕ → List Packet
workload zero = []
workload (suc n) = sample_packets ++ workload n

-- What ends a benchmark early: ValueError of an address, or an exception of the client.
pub data Stopped : Type 0 where
  value_error : Stopped
  client_error : Failure → Stopped

-- The readings of `perf_counter` before and after each decision, in nanoseconds. The counter never
-- runs backwards.
abbrev pub Readings : Type 0
Readings = ℕ → ℕ × ℕ

abbrev pub elapsed : ℕ × ℕ → ℕ
elapsed (start, end) = end - start

-- A time, and the verdict that it took, which the source drops.
abbrev pub Sample : Type 0
Sample = ℕ × Bool

-- `zone_for_ip` of a text: the address is parsed first.
unfoldable pub zone_for_text : Policy → String → Result Stopped (Option String)
zone_for_text p ip = elim (ip_address ip) [
  | none ↦ err value_error
  | some addr ↦ ok (zone_for_ip p.zones addr)
]

-- The decision that `bench_python` times.
unfoldable pub decide_python : Policy → Packet → Result Stopped Bool
decide_python p packet = do
  src_zone ← zone_for_text p packet.src_ip
  dst_zone ← zone_for_text p packet.dst_ip
  ok (firewall_allowed p src_zone dst_zone (packet.protocol == 1))

unfoldable pub time_python : Policy → Readings → ℕ → List Packet → Result Stopped (List Sample)
time_python p clock k [] = ok []
time_python p clock k (packet ∷ packets) = do
  allowed ← decide_python p packet
  samples ← time_python p clock (suc k) packets
  ok ((elapsed (clock k), allowed) ∷ samples)

-- `bench_python`, for a number of iterations.
abbrev pub bench_python : Policy → Readings → ℕ → Result Stopped (List Sample)
bench_python p clock n = time_python p clock 0 (workload n)

of_answer : Answer × Client → Result Stopped (Bool × Client)
of_answer (address_value_error, c) = err value_error
of_answer (outcome (verdict allowed rule_id), c) = ok (allowed, c)
of_answer (outcome (raised e), c) = err (client_error e)

-- The call that `bench_cpp` times, with the default ports.
unfoldable pub decide_cpp : Net → Packet → Client → Result Stopped (Bool × Client)
unfolding of_answer
decide_cpp net packet c =
    of_answer
      (is_allowed_text net (codes packet.src_ip) (codes packet.dst_ip) packet.protocol 0 0 c)

unfoldable pub time_cpp :
    (ℕ → Net) → Readings → ℕ → List Packet → Client → Result Stopped (List Sample × Client)
time_cpp nets clock k [] c = ok ([], c)
time_cpp nets clock k (packet ∷ packets) c = do
  (allowed, c') ← decide_cpp (nets k) packet c
  (samples, last) ← time_cpp nets clock (suc k) packets c'
  ok ((elapsed (clock k), allowed) ∷ samples, last)

-- `bench_cpp`: an exception leaves the client as it is.
unfoldable pub bench_cpp : (ℕ → Net) → Readings → ℕ → Result Stopped (List Sample × Client)
bench_cpp nets clock n = do
  (samples, c) ← time_cpp nets clock 0 (workload n) (record { sock = none })
  ok (samples, close c)

-- `sorted(us)`
unfoldable pub insert_sorted : ℕ → List ℕ → List ℕ
insert_sorted x [] = x ∷ []
insert_sorted x (y ∷ ys) = let rest = insert_sorted x ys in if leb x y then x ∷ y ∷ ys else y ∷ rest

unfoldable pub sorted : List ℕ → List ℕ
sorted [] = []
sorted (x ∷ xs) = insert_sorted x (sorted xs)

unfoldable pub sum : List ℕ → ℕ
sum [] = 0
sum (x ∷ xs) = x + sum xs

-- `us[i]`; `none` is IndexError.
abbrev pub get_elem? : ℕ → List ℕ → Option ℕ
get_elem? i [] = none
get_elem? zero (x ∷ xs) = some x
get_elem? (suc i) (x ∷ xs) = get_elem? i xs

-- The numbers of the line that is printed. The mean is `total / count`.
pub record Summary : Type 0 where
  pub total : ℕ
  pub count : ℕ
  pub p50 : ℕ
  pub p99 : ℕ

pub data ReportError : Type 0 where
  statistics_error index_error : ReportError

percentiles : ℕ → ℕ → Option ℕ → Option ℕ → Result ReportError Summary
percentiles total n (some p50) (some p99) =
    ok (record { total = total; count = n; p50 = p50; p99 = p99 })
percentiles total n _ _ = err index_error

-- `report`. `mean` raises on no data. The factor from seconds to microseconds keeps the order; the
-- float `len(us) * 0.99` truncates to `len(us) * 99 // 100` for every list that fits in memory.
unfoldable pub report : List ℕ → Result ReportError Summary
unfolding percentiles
report samples =
    let us = sorted samples in
    let n = length us in
    if n == 0
    then err statistics_error
    else percentiles (sum us) n (get_elem? (n / 2) us) (get_elem? (n * 99 / 100) us)

-- The times of the samples.
abbrev pub times : List Sample → List ℕ
times = map (λ (s : Sample). s.0)

-- How `main` ends. The ratio is that of the first number to the second.
pub data Ending : Type 0 where
  unreachable : Summary → Ending
  compared : Summary → Summary → ℕ → ℕ → Ending
  zero_division : Summary → Summary → Ending
  report_error : ReportError → Ending
  stopped : Stopped → Ending

compare_means : Summary → Summary → Ending
compare_means py cpp =
    if py.total == 0
    then zero_division py cpp
    else compared py cpp (cpp.total * py.count) (py.total * cpp.count)

report_cpp : Summary → Result ReportError Summary → Ending
report_cpp py (err e) = report_error e
report_cpp py (ok cpp) = compare_means py cpp

-- `except OSError`
cpp_part : Summary → Result Stopped (List Sample × Client) → Ending
cpp_part py (err (client_error os_error)) = unreachable py
cpp_part py (err e) = stopped e
cpp_part py (ok (samples, c)) = report_cpp py (report (times samples))

python_part : Result Stopped (List Sample × Client) → Result Stopped (List Sample) → Ending
python_part cpp (err e) = stopped e
python_part cpp (ok samples) = elim (report (times samples)) [
  | err e ↦ report_error e
  | ok py ↦ cpp_part py cpp
]

-- `main`, for a number of iterations.
unfoldable pub run : Policy → Readings → (ℕ → Net) → Readings → ℕ → Ending
unfolding python_part cpp_part report_cpp compare_means
run p python_clock nets cpp_clock n =
    python_part (bench_cpp nets cpp_clock n) (bench_python p python_clock n)

unfoldable pub main : Policy → Readings → (ℕ → Net) → Readings → Ending
main p python_clock nets cpp_clock = run p python_clock nets cpp_clock iterations
