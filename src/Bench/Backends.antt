-- ===== src/Bench/Backends.antt =====
-- bench_firewall.py: both backends take the same decisions.
use mininet_zone_segmentatio.Base.{
  ℕ, zero, suc, ◌*◌, ◌≡◌, refl, ap, ◌∙◌, Bool, none, some, List, [], ◌∷◌, map, nat_eq, length, All,
  All-append, length-append, arith, Result, ok,
}
use mininet_zone_segmentatio.Policy.{Policy}
use mininet_zone_segmentatio.Policy.Load.{RawPolicy, load_policy}
use mininet_zone_segmentatio.Header.{Header, render}
use mininet_zone_segmentatio.Client.{Client, Net}
use mininet_zone_segmentatio.Bench.{
  Packet, sample_packets, workload, Stopped, Readings, elapsed, Sample, time_python, bench_python,
  time_cpp, bench_cpp,
}
use mininet_zone_segmentatio.Bench.Decisions.{
  Reliable, Ready, new, idle, Usable, sample_packets-Usable, allowed_by, decide_python-Usable,
  decide_cpp-Ready,
}

-- The verdicts of the samples.
abbrev pub verdicts : List Sample → List Bool
verdicts = map (λ (s : Sample). s.1)

-- Both ran to the end, with as many samples, and took the same verdicts in the same order; `last` is
-- the client that is left.
pub record Agreed (count : ℕ) (last : Client) (python : Result Stopped (List Sample))
    (cpp : Result Stopped (List Sample × Client)) : Type 0 where
  pub in_process : List Sample
  pub through_daemon : List Sample
  pub ran : python ≡ ok in_process
  pub answered : cpp ≡ ok (through_daemon, last)
  pub in_process_count : length in_process ≡ count
  pub through_daemon_count : length through_daemon ≡ count
  pub same : verdicts in_process ≡ verdicts through_daemon

module _ (raw : RawPolicy) (p : Policy) (h : Header) (loaded : load_policy (some raw) ≡ ok p)
    (rendered : render p.zones p.block_all_ip p.block_icmp ≡ some h) where
  time-Agreed :
      (clock clock' : Readings) (nets : ℕ → Net) (k : ℕ) (packets : List Packet) (c : Client)
      → All Usable packets
      → ((j : ℕ) → Reliable h (nets j))
      → Ready c
      → (last : Client) × Agreed
          (length packets)
          last
          (time_python p clock k packets)
          (time_cpp nets clock' k packets c)
  unfolding time_python time_cpp
  time-Agreed clock clock' nets k [] c us reliable ready = (
    c,
    record {
      in_process = [];
      through_daemon = [];
      ran = refl;
      answered = refl;
      in_process_count = refl;
      through_daemon_count = refl;
      same = refl;
    },
  )
  time-Agreed clock clock' nets k (packet ∷ packets) c (u, us) reliable ready =
      let (last, rest) =
        time-Agreed clock clock' nets (suc k) packets (record { sock = some [] }) us reliable
          idle in
      let allowed = allowed_by p packet u in
      (
        last,
        record {
          in_process = (elapsed (clock k), allowed) ∷ rest.in_process;
          through_daemon = (elapsed (clock' k), allowed) ∷ rest.through_daemon;
          ran = rw (decide_python-Usable p packet u, rest.ran) refl;
          answered =
              rw
                (
                  decide_cpp-Ready raw p h loaded rendered (nets k) packet u c (reliable k) ready,
                  rest.answered,
                )
                refl;
          in_process_count = ap suc rest.in_process_count;
          through_daemon_count = ap suc rest.through_daemon_count;
          same = ap (λ (l : List Bool). allowed ∷ l) rest.same;
        },
      )

pub workload-Usable : (n : ℕ) → All Usable (workload n)
unfolding workload
workload-Usable zero = tt
workload-Usable (suc n) =
    All-append Usable sample_packets (workload n) sample_packets-Usable (workload-Usable n)

pub length-workload : (n : ℕ) → length (workload n) ≡ 7 * n
unfolding workload
length-workload zero = omega arith
length-workload (suc n) =
    omega (arith, length-append sample_packets (workload n), length-workload n)

-- With a daemon that is compiled with the header of the loaded policy and that runs, both benchmarks
-- end for every number of iterations, whatever the clock reads: each with seven samples for an
-- iteration, and with the same verdicts in the same order; and the client is closed.
pub bench-Agreed :
    (raw : RawPolicy) (p : Policy) (h : Header) (clock clock' : Readings) (nets : ℕ → Net) (n : ℕ)
    → load_policy (some raw) ≡ ok p
    → render p.zones p.block_all_ip p.block_icmp ≡ some h
    → ((j : ℕ) → Reliable h (nets j))
    → Agreed (7 * n) (record { sock = none }) (bench_python p clock n) (bench_cpp nets clock' n)
unfolding bench_cpp
bench-Agreed raw p h clock clock' nets n loaded rendered reliable =
    let (last, timed) =
      time-Agreed raw p h loaded rendered clock clock' nets 0 (workload n) (record { sock = none })
        (workload-Usable n) reliable new in
    record {
      in_process = timed.in_process;
      through_daemon = timed.through_daemon;
      ran = timed.ran;
      answered = rw timed.answered refl;
      in_process_count = timed.in_process_count ∙ length-workload n;
      through_daemon_count = timed.through_daemon_count ∙ length-workload n;
      same = timed.same;
    }
