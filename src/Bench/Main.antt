-- ===== src/Bench/Main.antt =====
-- bench_firewall.py: what `main` prints.
use mininet_zone_segmentatio.Base.{
  ℕ, zero, suc, ◌*◌, ◌<◌, ◌≡◌, refl, ap, ◌∙◌, none, some, List, [], ◌∷◌, ◌==◌, nat_eq, length, All,
  arith, Bool-cases, inl, inr, Result, ok, err,
}
use mininet_zone_segmentatio.Policy.{Policy}
use mininet_zone_segmentatio.Policy.Load.{RawPolicy, load_policy}
use mininet_zone_segmentatio.Header.{Header, render}
use mininet_zone_segmentatio.Client.{Client, Net, os_error}
use mininet_zone_segmentatio.Bench.{
  Packet, iterations, workload, Stopped, client_error, Readings, elapsed, Sample, time_python,
  bench_python, time_cpp, bench_cpp, Summary, report, times, Ending, unreachable, zero_division,
  compared, compare_means, report_cpp, cpp_part, python_part, run, main,
}
use mininet_zone_segmentatio.Bench.Percentiles.{Summarises, report-Summarises}
use mininet_zone_segmentatio.Bench.Decisions.{
  Reliable, Usable, sample_packets-Usable, allowed_by, decide_python-Usable, decide_cpp-down,
}
use mininet_zone_segmentatio.Bench.Backends.{Agreed, bench-Agreed, workload-Usable, length-workload}

-- The daemon runs, or it cannot be connected to.
pub data Daemon (h : Header) (nets : ℕ → Net) : Type 0 where
  running : ((j : ℕ) → Reliable h (nets j)) → Daemon h nets
  down : (nets 0).connects ≡ none → Daemon h nets

length-times : (samples : List Sample) → length (times samples) ≡ length samples
length-times [] = refl
length-times (s ∷ samples) = ap suc (length-times samples)

-- A benchmark in Python ends with a sample for each packet.
record Timed (count : ℕ) (python : Result Stopped (List Sample)) : Type 0 where
  samples : List Sample
  ran : python ≡ ok samples
  all : length samples ≡ count

-- What is printed on the samples of the benchmark in Python.
abbrev pub ReportsPython : ℕ → Result Stopped (List Sample) → Summary → Type 0
ReportsPython n python py =
    (samples : List Sample) × (python ≡ ok samples)
    × (length samples ≡ n)
    × Summarises (times samples) py

-- The ratio of the means, or the ZeroDivisionError where the mean in Python is zero.
pub data Compares (n : ℕ) (py cpp : Summary) (ending : Ending) : Type 0 where
  ratio :
      0 < py.total
      → ending ≡ compared py cpp (cpp.total * n) (py.total * n)
      → Compares n py cpp ending
  divides_by_zero : py.total ≡ 0 → ending ≡ zero_division py cpp → Compares n py cpp ending

-- With the daemon, the numbers of both benchmarks and their comparison; without it, no more.
abbrev pub Ends :
    {h : Header} {nets : ℕ → Net}
    → Daemon h nets
    → Result Stopped (List Sample)
    → Result Stopped (List Sample × Client)
    → ℕ
    → Summary
    → Ending
    → Type 0
Ends (down _) python cpp n py ending = ending ≡ unreachable py
Ends (running _) python cpp n py ending =
    (summary : Summary) × (agreed : Agreed n (record { sock = none }) python cpp) × Summarises
      (times agreed.through_daemon) summary
    × Compares n py summary ending

time_python-Timed :
    (p : Policy) (clock : Readings) (k : ℕ) (packets : List Packet)
    → All Usable packets
    → Timed (length packets) (time_python p clock k packets)
unfolding time_python
time_python-Timed p clock k [] us = record { samples = []; ran = refl; all = refl }
time_python-Timed p clock k (packet ∷ packets) (u, us) =
    let rest = time_python-Timed p clock (suc k) packets us in
    record {
      samples = (elapsed (clock k), allowed_by p packet u) ∷ rest.samples;
      ran = rw (decide_python-Usable p packet u, rest.ran) refl;
      all = ap suc rest.all;
    }

bench_cpp-down :
    (nets : ℕ → Net) (clock : Readings) (n : ℕ)
    → 0 < n
    → (nets 0).connects ≡ none
    → bench_cpp nets clock n ≡ err (client_error os_error)
unfolding bench_cpp time_cpp workload
bench_cpp-down nets clock zero h none_ = absurd (omega arith)
bench_cpp-down nets clock (suc n) h none_ =
    rw (decide_cpp-down (nets 0) _ sample_packets-Usable.0 none_) refl

compare_means-Compares :
    (py cpp : Summary) (n : ℕ)
    → py.count ≡ n
    → cpp.count ≡ n
    → Compares n py cpp (compare_means py cpp)
unfolding compare_means
compare_means-Compares py cpp n e f = elim (Bool-cases (py.total == 0)) [
  | inl zero_mean ↦ divides_by_zero (ground arith) (rw zero_mean refl)
  | inr positive ↦ ratio (ground arith) (rw (positive, e, f) refl)
]

run-cpp_part :
    (p : Policy) (clock : Readings) (nets : ℕ → Net) (clock' : Readings) (n : ℕ)
    (samples : List Sample) (py : Summary)
    → bench_python p clock n ≡ ok samples
    → report (times samples) ≡ ok py
    → run p clock nets clock' n ≡ cpp_part py (bench_cpp nets clock' n)
unfolding run python_part
run-cpp_part p clock nets clock' n samples py ran reported = rw (ran, reported, python_part) refl

module _ (raw : RawPolicy) (p : Policy) (h : Header) (loaded : load_policy (some raw) ≡ ok p)
    (rendered : render p.zones p.block_all_ip p.block_icmp ≡ some h) (clock clock' : Readings)
    (nets : ℕ → Net) where
  cpp_part-Ends :
      (n : ℕ) (py : Summary) (daemon : Daemon h nets)
      → 0 < n
      → py.count ≡ 7 * n
      → Ends daemon
          (bench_python p clock n)
          (bench_cpp nets clock' n)
          (7 * n)
          py
          (cpp_part py (bench_cpp nets clock' n))
  unfolding cpp_part report_cpp
  cpp_part-Ends n py (down none_) some_ counted = rw (bench_cpp-down nets clock' n some_ none_) refl
  cpp_part-Ends n py (running reliable) some_ counted =
      let agreed = bench-Agreed raw p h clock clock' nets n loaded rendered reliable in
      let samples = agreed.through_daemon in
      let all : length (times samples) ≡ 7 * n =
        length-times samples ∙ agreed.through_daemon_count in
      let (summary, reported, s) = report-Summarises (times samples) (rw all (omega arith)) in
      (
        summary,
        agreed,
        s,
        rw (agreed.answered, reported)
            (compare_means-Compares py summary (7 * n) counted (s.count ∙ all)),
      )

  run_on-Ends :
      (n : ℕ) (samples : List Sample) (py : Summary) (daemon : Daemon h nets)
      → bench_python p clock n ≡ ok samples
      → report (times samples) ≡ ok py
      → 0 < n
      → py.count ≡ 7 * n
      → Ends daemon
          (bench_python p clock n)
          (bench_cpp nets clock' n)
          (7 * n)
          py
          (run p clock nets clock' n)
  run_on-Ends n samples py daemon ran reported some_ counted =
      rw (run-cpp_part p clock nets clock' n samples py ran reported)
        (cpp_part-Ends n py daemon some_ counted)

  run-Ends :
      (n : ℕ) (daemon : Daemon h nets)
      → 0 < n
      → (py : Summary) × ReportsPython (7 * n) (bench_python p clock n) py
        × Ends daemon
            (bench_python p clock n)
            (bench_cpp nets clock' n)
            (7 * n)
            py
            (run p clock nets clock' n)
  run-Ends n daemon some_ =
      let timed = time_python-Timed p clock 0 (workload n) (workload-Usable n) in
      let all : length timed.samples ≡ 7 * n = timed.all ∙ length-workload n in
      let (py, reported, s) =
        report-Summarises (times timed.samples)
          (rw (length-times timed.samples, all) (omega arith)) in
      let counted : py.count ≡ 7 * n = s.count ∙ length-times timed.samples ∙ all in
      (
        py,
        (timed.samples, timed.ran, all, s),
        run_on-Ends n timed.samples py daemon timed.ran reported some_ counted,
      )

positive_iterations : 0 < iterations
unfolding iterations
positive_iterations = omega arith

-- With a loaded policy, whatever the clock reads (it never runs backwards), `main` prints the numbers of the benchmark in Python,
-- of seven samples for each of its iterations. If a daemon runs that is compiled with the policy's
-- header, it prints the numbers of as many samples with the same verdicts through the daemon, and the
-- ratio of the two means if the times in Python add up to more than zero; if they are all zero, it
-- ends in a ZeroDivisionError instead of the ratio. If the daemon cannot be connected to, it prints
-- how to start it.
pub main-Ends :
    (raw : RawPolicy) (p : Policy) (h : Header) (clock clock' : Readings) (nets : ℕ → Net)
    (daemon : Daemon h nets)
    → load_policy (some raw) ≡ ok p
    → render p.zones p.block_all_ip p.block_icmp ≡ some h
    → (let python = bench_python p clock iterations in
        let cpp = bench_cpp nets clock' iterations in
        (py : Summary) × ReportsPython (7 * iterations) python py
        × Ends daemon python cpp (7 * iterations) py (main p clock nets clock'))
unfolding main
main-Ends raw p h clock clock' nets daemon loaded rendered =
    run-Ends raw p h loaded rendered clock clock' nets iterations daemon positive_iterations
