-- ===== src/Network/Load.antt =====
-- `load_network` of network.py, on the document that `json.load` returns.
use mininet_zone_segmentatio.Base.{
  ℕ, zero, suc, String, Bool, true, false, not, ◌&&◌, ◌||◌, Option, none, some, List, [], ◌∷◌, ◌++◌,
  ◌==◌, nat_eq, string_eq, pair_eq, contains, Dict, has_key, insert, Result, ok, err, ◌>>=◌, ◌>>◌,
  raise_if, if◌then◌else◌,
}
use mininet_zone_segmentatio.Policy.{Zones}
use mininet_zone_segmentatio.Network.{Value, number, boolean, Switch, Uplink}

-- `core` is the truth of `s.get('core')`.
pub record RawSwitch : Type 0 where
  pub dpid : Value
  pub core : Bool
  pub zone : Option String

pub record RawUplink : Type 0 where
  pub leaf : Option String
  pub leaf_port : Value
  pub core_port : Value

pub record RawHost : Type 0 where
  pub ip : Option String
  pub switch : Option String
  pub port : Value

pub record RawNetwork : Type 0 where
  pub switches : Dict String RawSwitch
  pub uplinks : List RawUplink
  pub hosts : Dict String RawHost

-- What a port is used for, in a message.
pub data Plug : Type 0 where
  host uplink_to_core uplink_from : String → Plug

-- The `NetworkError`s by their messages.
pub data NetworkError : Type 0 where
  not_json : NetworkError
  bad_dpid : String → NetworkError
  unknown_zone : String → NetworkError
  core_count : List String → NetworkError
  not_a_leaf : Option String → NetworkError
  second_uplink : String → NetworkError
  leaves_without_uplink : NetworkError
  bad_ip : String → NetworkError
  ip_outside_zones : String → NetworkError
  ip_reserved : String → NetworkError
  ip_used : String → NetworkError
  unknown_switch : String → NetworkError
  wrong_switch : String → NetworkError
  bad_port : Plug → NetworkError
  port_used : String → ℕ → NetworkError

-- What `load_network` raises: a `NetworkError`, or the `KeyError` of `zones[zone]`.
pub data LoadError : Type 0 where
  network_error : NetworkError → LoadError
  key_error : LoadError

abbrev pub Loaded : Type 0 → Type 0
Loaded = Result LoadError

-- `isinstance(v, int) and v > 0`, with the number; a `bool` is an `int`.
unfoldable pub positive : Value → Option ℕ
positive (number zero) = none
positive (number (suc n)) = some (suc n)
positive (boolean true) = some 1
positive _ = none

unfoldable pub or_raise : {A : Type 0} → Option A → LoadError → Loaded A
or_raise none e = err e
or_raise (some a) e = ok a

-- The variables of the loop of `_load_switches`.
pub record SwitchLoop : Type 0 where
  pub switches : Dict String Switch
  pub cores : List String
  pub dpids : List ℕ

-- `zone in zones`, where the zone may be None.
unfoldable pub zone_exists : Zones → Option String → Bool
zone_exists zones none = false
zone_exists zones (some z) = has_key z zones

-- The zone of a switch that is no core.
unfoldable pub leaf_zone : Zones → String → Option String → Loaded (Option String)
leaf_zone zones name zone =
    if zone_exists zones zone then ok zone else err (network_error (unknown_zone name))

unfoldable pub load_switch : Zones → String → RawSwitch → SwitchLoop → Loaded SwitchLoop
unfolding or_raise leaf_zone
load_switch zones name s l = do
  dpid ← or_raise (positive s.dpid) (network_error (bad_dpid name))
  raise_if (contains l.dpids dpid) (network_error (bad_dpid name))
  zone ← if s.core then ok none else leaf_zone zones name s.zone
  ok (record {
    switches = insert name (record { dpid = dpid; zone = zone }) l.switches;
    cores = if s.core then l.cores ++ (name ∷ []) else l.cores;
    dpids = l.dpids ++ (dpid ∷ []);
  })

unfoldable pub switch_loop : Zones → Dict String RawSwitch → SwitchLoop → Loaded SwitchLoop
switch_loop zones [] l = ok l
switch_loop zones ((name, s) ∷ raw) l =
    load_switch zones name s l >>= λ l'. switch_loop zones raw l'

-- `len(cores) != 1`, and `cores[0]`.
unfoldable pub one_core : List String → Loaded String
one_core (core ∷ []) = ok core
one_core cores = err (network_error (core_count cores))

unfoldable pub load_switches : Zones → Dict String RawSwitch → Loaded (String × Dict String Switch)
load_switches zones raw = do
  l ← switch_loop zones raw (record { switches = []; cores = []; dpids = [] })
  core ← one_core l.cores
  ok (core, l.switches)

-- The body of the loop of `_load_uplinks`, for a leaf that is written.
unfoldable pub add_uplink :
    Dict String Switch
    → String
    → RawUplink
    → Option String
    → Dict String Uplink
    → Loaded (Dict String Uplink)
add_uplink switches core link none uplinks = err (network_error (not_a_leaf none))
add_uplink switches core link (some leaf) uplinks =
    if not (has_key leaf switches) || leaf == core
    then err (network_error (not_a_leaf (some leaf)))
    else if has_key leaf uplinks
    then err (network_error (second_uplink leaf))
    else ok
        (insert leaf (record { leaf_port = link.leaf_port; core_port = link.core_port }) uplinks)

unfoldable pub uplink_loop :
    Dict String Switch → String → List RawUplink → Dict String Uplink → Loaded (Dict String Uplink)
uplink_loop switches core [] uplinks = ok uplinks
uplink_loop switches core (link ∷ raw) uplinks =
    add_uplink switches core link link.leaf uplinks >>= λ u. uplink_loop switches core raw u

-- Some switch other than the core has no uplink.
unfoldable pub any_missing : Dict String Switch → String → Dict String Uplink → Bool
any_missing [] core uplinks = false
any_missing ((name, _) ∷ switches) core uplinks =
    (not (name == core) && not (has_key name uplinks)) || any_missing switches core uplinks

unfoldable pub load_uplinks :
    List RawUplink → Dict String Switch → String → Loaded (Dict String Uplink)
load_uplinks raw switches core = do
  uplinks ← uplink_loop switches core raw []
  raise_if (any_missing switches core uplinks) (network_error leaves_without_uplink)
  ok uplinks
