-- ===== src/Tests/Benchmarks.antt =====
-- The theorems on bench_firewall.py.
use mininet_zone_segmentatio.Base.{
  ℕ, ◌≡◌, refl, none, some, map, Bool, true, false, Option, Result, err, lookup, contains,
  string_eq, pair_eq, List, [], ◌∷◌, arith, ok, nat_eq, ◌+◌, ◌*◌,
}
use mininet_zone_segmentatio.Policy.Shipped.{document, policy, load_policy-document}
use mininet_zone_segmentatio.Client.Unbroken.{Unbroken}
use mininet_zone_segmentatio.Bench.{
  Readings, bench_python, bench_cpp, report, sorted, insert_sorted, sum, Summary, sample_packets,
  decide_python, zone_for_text, Stopped, iterations, main,
}
use mininet_zone_segmentatio.Bench.Percentiles.{Summarises, report-Summarises}
use mininet_zone_segmentatio.Bench.Decisions.{Reliable}
use mininet_zone_segmentatio.Bench.Main.{Daemon, ReportsPython, Ends, running, main-Ends}
use mininet_zone_segmentatio.Address.{in_subnet, num_addresses}
use mininet_zone_segmentatio.Address.Parse.{ip_address, parse_address}
use mininet_zone_segmentatio.Policy.{zone_for_ip, firewall_allowed, is_known, is_blocked}
use mininet_zone_segmentatio.Tests.Daemons.{header, render-policy, net, pieces, flat-pieces}

-- Times of which one is far greater.
abbrev measured : List ℕ
measured = 5200 ∷ 4100 ∷ 4700 ∷ 96000 ∷ 4300 ∷ []

report-Summarises_example : (s : Summary) × (report measured ≡ ok s) × Summarises measured s
report-Summarises_example = report-Summarises measured (omega arith)

report_test : report measured ≡ ok (record { total = 114300; count = 5; p50 = 4700; p99 = 96000 })
unfolding report sorted insert_sorted sum nat_eq
report_test = refl

Unbroken-pieces : (bs : List ℕ) → Unbroken (pieces bs)
Unbroken-pieces [] = tt
Unbroken-pieces (b ∷ bs) = (omega arith, Unbroken-pieces bs)

net-Reliable : Reliable header net
net-Reliable = record {
  connects = refl;
  sends = refl;
  answers = λ request resp e. rw e (flat-pieces resp, Unbroken-pieces resp);
}

-- A decision in Python takes 2000 ns, and one through the daemon 9000.
abbrev python_clock : Readings
python_clock k = (k * 3000, k * 3000 + 2000)

abbrev cpp_clock : Readings
cpp_clock k = (k * 10000, k * 10000 + 9000)

abbrev running_daemon : Daemon header (λ k. net)
running_daemon = running (λ k. net-Reliable)

main-Ends_example :
    (let python = bench_python policy python_clock iterations in
      let cpp = bench_cpp (λ k. net) cpp_clock iterations in
      (py : Summary) × ReportsPython (7 * iterations) python py
      × Ends running_daemon python cpp
          (7 * iterations)
          py
          (main policy python_clock (λ k. net) cpp_clock))
main-Ends_example =
    main-Ends document policy header python_clock cpp_clock (λ k. net) running_daemon
      load_policy-document render-policy

verdict_of : Result Stopped Bool → Option Bool
verdict_of (ok allowed) = some allowed
verdict_of (err e) = none

-- What the comments of SAMPLE_PACKETS say of its packets.
sample_packets_test :
    map (λ packet. verdict_of (decide_python policy packet)) sample_packets
    ≡ some false ∷ some false ∷ some false ∷ some false ∷ some true ∷ some false ∷ some true ∷ []
unfolding verdict_of decide_python zone_for_text ip_address parse_address zone_for_ip
    firewall_allowed in_subnet is_known is_blocked lookup contains string_eq pair_eq nat_eq
    num_addresses
sample_packets_test = refl
