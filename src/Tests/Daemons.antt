-- ===== src/Tests/Daemons.antt =====
-- The theorems on the daemon, at the policy that ships with the program.
use mininet_zone_segmentatio.Base.{
  ℕ, ◌≡◌, refl, true, Option, none, some, List, [], ◌∷◌, string_eq, nat_eq, arith, ap,
  if◌then◌else◌, keys,
}
use mininet_zone_segmentatio.Text.{is_digit}
use mininet_zone_segmentatio.Policy.{zone_for_ip, firewall_allowed}
use mininet_zone_segmentatio.Policy.Shipped.{document, policy, load_policy-document}
use mininet_zone_segmentatio.Header.{
  Header, usable, all_usable, index, key, before, insert_row, sort_rows, without_keys, declaration,
  pairs, zone_rows, header_of, render,
}
use mininet_zone_segmentatio.Daemon.{respond, decide, classify_zone}
use mininet_zone_segmentatio.Daemon.Agreement.{decide-firewall_allowed}
use mininet_zone_segmentatio.Daemon.Exchange.{bytes_of, Serves, is_allowed-firewall_allowed}
use mininet_zone_segmentatio.Client.{Stream, bytes, Net, verdict, ensure_connected, is_allowed}
use mininet_zone_segmentatio.Client.Addresses.{is_allowed_text}
use mininet_zone_segmentatio.Address.Print.{address_text}
use mininet_zone_segmentatio.Daemon.Wire.{over, address_at, is_allowed_text-over}
use mininet_zone_segmentatio.Client.Receive.{flat, NonEmpty}

abbrev pub header : Header
header = record {
  enumerators = "DeptA" ∷ "DeptB" ∷ "DataCenter" ∷ "Trust" ∷ "Untrust" ∷ [];
  zones =
      record { zone = "DeptA"; network = 167837952; prefix_len = 24 }
      ∷ record { zone = "DeptB"; network = 167838208; prefix_len = 24 }
      ∷ record { zone = "DataCenter"; network = 167838464; prefix_len = 24 }
      ∷ record { zone = "Trust"; network = 3224315392; prefix_len = 24 }
      ∷ record { zone = "Untrust"; network = 1814239232; prefix_len = 24 }
      ∷ [];
  block_all_ip = record {
    array =
        ("DataCenter", "Trust")
        ∷ ("DataCenter", "Untrust")
        ∷ ("Trust", "DataCenter")
        ∷ ("Untrust", "DataCenter")
        ∷ [];
    count = 4;
  };
  block_icmp = record {
    array =
        ("DeptA", "DeptB")
        ∷ ("DeptB", "DeptA")
        ∷ ("Trust", "DeptB")
        ∷ ("Untrust", "DeptA")
        ∷ ("Untrust", "DeptB")
        ∷ ("Untrust", "DataCenter")
        ∷ [];
    count = 6;
  };
}

pub render-policy : render policy.zones policy.block_all_ip policy.block_icmp ≡ some header
unfolding render header_of all_usable usable pairs declaration sort_rows without_keys insert_row
    before key index zone_rows string_eq nat_eq is_digit keys
render-policy = refl

decide-firewall_allowed_example :
    (decide header
      (classify_zone header.zones 167838053)
      (classify_zone header.zones 167838409)
      true).verdict
    ≡ (if firewall_allowed policy
          (zone_for_ip policy.zones 167838053)
          (zone_for_ip policy.zones 167838409)
          true
        then 1
        else 0)
decide-firewall_allowed_example =
    decide-firewall_allowed document policy header 167838053 167838409 true load_policy-document
      render-policy (omega arith) (omega arith)

-- Each byte arrives by itself.
abbrev pub pieces : List ℕ → Stream
pieces [] = []
pieces (b ∷ bs) = bytes (b ∷ []) ∷ pieces bs

pub flat-pieces : (bs : List ℕ) → flat (pieces bs) ≡ bs
flat-pieces [] = refl
flat-pieces (b ∷ bs) = ap (λ (l : List ℕ). b ∷ l) (flat-pieces bs)

pub NonEmpty-pieces : (bs : List ℕ) → NonEmpty (pieces bs)
NonEmpty-pieces [] = tt
NonEmpty-pieces (b ∷ bs) = (omega arith, NonEmpty-pieces bs)

abbrev response_stream : Option (List ℕ) → Stream
response_stream none = []
response_stream (some resp) = pieces resp

abbrev pub net : Net
net = record {
  connects = some [];
  sends = true;
  answer = λ request. response_stream (respond header request);
}

pub net-Serves : Serves header net
net-Serves = record {
  sends = refl;
  answers = λ request resp e. rw e (flat-pieces resp, NonEmpty-pieces resp);
}

is_allowed-firewall_allowed_example :
    (rule_id : ℕ) × ((is_allowed net 167838053 167838409 1 0 0 (record { sock = none })).0
      ≡ verdict
          (firewall_allowed policy
            (zone_for_ip policy.zones 167838053)
            (zone_for_ip policy.zones 167838409)
            true)
          rule_id)
unfolding ensure_connected nat_eq
is_allowed-firewall_allowed_example =
    is_allowed-firewall_allowed document policy header net (record { sock = none }) 167838053
      167838409 1 0 0 load_policy-document render-policy net-Serves refl (omega arith) (omega arith)
      (omega arith) (omega arith) (omega arith)

is_allowed_text-over_example :
    (let request = bytes_of 167838053 167838642 40000 80 6 in
      (is_allowed_text net
          (address_text 167838053)
          (address_text 167838642)
          6
          40000
          80
          (record { sock = none })
        ≡ over net request (some []) (record { sock = none }))
      × (address_at 0 request ≡ some 167838053)
      × (address_at 4 request ≡ some 167838642))
unfolding ensure_connected
is_allowed_text-over_example =
    is_allowed_text-over net 167838053 167838642 6 40000 80 (record { sock = none }) (omega arith)
      (omega arith) (omega arith) (omega arith) (omega arith)
