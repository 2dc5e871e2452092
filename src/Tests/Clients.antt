-- ===== src/Tests/Clients.antt =====
-- The theorems on firewall_client.py, at two bytes that arrive one by one.
use mininet_zone_segmentatio.Base.{◌≡◌, refl, [], ◌∷◌, arith}
use mininet_zone_segmentatio.Client.{Stream, bytes, got, recv_exact, recv_loop, recv}
use mininet_zone_segmentatio.Client.Receive.{Reads, recv_exact-Reads}

abbrev two_arrivals : Stream
two_arrivals = bytes (1 ∷ []) ∷ bytes (7 ∷ 1 ∷ []) ∷ []

recv_exact-Reads_example : Reads 2 [] two_arrivals (recv_exact 2 two_arrivals)
recv_exact-Reads_example =
    recv_exact-Reads 2 two_arrivals (omega arith) (omega arith, (omega arith, tt))

recv_exact_test : recv_exact 2 two_arrivals ≡ got (1 ∷ 7 ∷ []) (bytes (1 ∷ []) ∷ [])
unfolding recv_exact recv_loop recv
recv_exact_test = refl
