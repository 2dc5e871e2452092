-- ===== src/Router/Start.antt =====
-- controller.py, firewall_rules.py and network.py together: the module globals that the controller
-- starts with, and what they make sure of.
use mininet_zone_segmentatio.Base.{
  ℕ, ◌≡◌, ◌⊎◌, arith, refl, ◌∙◌, ap, Bool, true, Option, none, some, List, nat_eq, string_eq, inl,
  inr, Option-cases, Result, ok, err,
}
use mininet_zone_segmentatio.Policy.{Policy, Zones}
use mininet_zone_segmentatio.Policy.Load.{RawPolicy, PolicyError, load_policy}
use mininet_zone_segmentatio.Network.{PortMaps, Network, port_maps}
use mininet_zone_segmentatio.Network.Load.{
  RawNetwork, NetworkError, LoadError, network_error, key_error,
}
use mininet_zone_segmentatio.Network.Hosts.{load_network}
use mininet_zone_segmentatio.Network.Complete.{load_network-port_maps}
use mininet_zone_segmentatio.Network.Errors.{load_network-ne-key_error}
use mininet_zone_segmentatio.Router.{EthAddr, Ipv4, Config}

-- What POX computes.
pub record Pox : Type 0 where
  pub is_multicast : EthAddr → Bool
  pub pack : Ipv4 → List ℕ
  pub default_ttl : ℕ

-- Why the import of the controller ends in an exception. `missing_key` is a KeyError, of
-- `load_network` or of `port_maps`.
pub data StartError : Type 0 where
  bad_policy : PolicyError → StartError
  bad_network : NetworkError → StartError
  missing_key : StartError

abbrev pub use_cpp_firewall : Bool
use_cpp_firewall = true

unfoldable pub configured : Pox → Policy → Option PortMaps → Result StartError Config
configured pox policy none = err missing_key
configured pox policy (some maps) = ok (record {
  policy = policy;
  maps = maps;
  use_cpp_firewall = use_cpp_firewall;
  is_multicast = pox.is_multicast;
  pack = pox.pack;
  default_ttl = pox.default_ttl;
})

unfoldable pub with_network : Pox → Policy → Result LoadError Network → Result StartError Config
unfolding configured
with_network pox policy (err (network_error e)) = err (bad_network e)
with_network pox policy (err key_error) = err missing_key
with_network pox policy (ok net) = configured pox policy (port_maps net)

unfoldable pub with_policy :
    Pox → Option RawNetwork → Result PolicyError Policy → Result StartError Config
unfolding with_network
with_policy pox network (err e) = err (bad_policy e)
with_policy pox network (ok policy) =
    with_network pox policy (load_network policy.zones policy.zones network)

-- `load_policy()` at the import of firewall_rules.py, and `port_maps(load_network())` at that of the
-- controller. A file that is not JSON is `none`.
unfoldable pub start : Pox → Option RawPolicy → Option RawNetwork → Result StartError Config
unfolding with_policy
start pox policy network = with_policy pox network (load_policy policy)

-- Where a configuration comes from.
pub record Loaded (policy : Option RawPolicy) (network : Option RawNetwork) (c : Config)
    : Type 0 where
  pub raw : RawNetwork
  pub net : Network
  pub given : network ≡ some raw
  pub policy_loaded : load_policy policy ≡ ok c.policy
  pub network_loaded : load_network c.policy.zones c.policy.zones (some raw) ≡ ok net
  pub mapped : port_maps net ≡ some c.maps

Result-cases : {E A : Type 0} (r : Result E A) → ((e : E) × (r ≡ err e)) ⊎ ((a : A) × (r ≡ ok a))
Result-cases (ok a) = inr (a, refl)
Result-cases (err e) = inl (e, refl)

load_network-some :
    (installed zones : Zones) (network : Option RawNetwork) (net : Network)
    → load_network installed zones network ≡ ok net
    → (raw : RawNetwork) × (network ≡ some raw)
unfolding load_network
load_network-some installed zones none net h = cc h
load_network-some installed zones (some raw) net h = (raw, refl)

pub start-Loaded :
    (pox : Pox) (policy : Option RawPolicy) (network : Option RawNetwork) (c : Config)
    → start pox policy network ≡ ok c
    → Loaded policy network c
unfolding start with_policy with_network configured
start-Loaded pox policy network c h = elim (Result-cases (load_policy policy)) [
  | inl (e, pe) ↦ absurd (ground arith)
  | inr (p, pe) ↦ elim (Result-cases (load_network p.zones p.zones network)) [
    | inl (e, ne) ↦ absurd (ground arith)
    | inr (net, ne) ↦ elim (Option-cases (port_maps net)) [
      | inl me ↦ absurd (ground arith)
      | inr (maps, me) ↦
          let same : p ≡ c.policy = ground arith in
          let (raw, given) = load_network-some p.zones p.zones network net ne in
          record {
            raw = raw;
            net = net;
            given = given;
            policy_loaded = pe ∙ ap (λ (q : Policy). ok q) same;
            network_loaded = rw (← same, ← given) ne;
            mapped = me ∙ ground arith;
          }
    ]
  ]
]

-- What the import of the controller comes to.
pub data Outcome (policy : Option RawPolicy) (network : Option RawNetwork)
    (started : Result StartError Config) : Type 0 where
  runs : (c : Config) → started ≡ ok c → Loaded policy network c → Outcome policy network started
  stops_at_policy :
      (e : PolicyError)
      → load_policy policy ≡ err e
      → started ≡ err (bad_policy e)
      → Outcome policy network started
  stops_at_network :
      (p : Policy) (e : NetworkError)
      → load_policy policy ≡ ok p
      → load_network p.zones p.zones network ≡ err (network_error e)
      → started ≡ err (bad_network e)
      → Outcome policy network started

with_network-ok :
    (pox : Pox) (p : Policy) (net : Network) (maps : PortMaps)
    → port_maps net ≡ some maps
    → (c : Config) × (with_network pox p (ok net) ≡ ok c)
unfolding with_network configured
with_network-ok pox p net maps h = rw (h, configured) (_, refl)

-- Whatever the two documents are, the import of the controller returns the configuration that they
-- give, or raises the PolicyError of the policy, or else, with a policy that is accepted, the
-- NetworkError of the layout; it never ends in a KeyError.
pub start-Outcome :
    (pox : Pox) (policy : Option RawPolicy) (network : Option RawNetwork)
    → Outcome policy network (start pox policy network)
unfolding start with_policy with_network
start-Outcome pox policy network = elim (Result-cases (load_policy policy)) [
  | inl (e, pe) ↦ stops_at_policy e pe (rw (pe, with_policy) refl)
  | inr (p, pe) ↦ elim (Result-cases (load_network p.zones p.zones network)) [
    | inl (network_error e, ne) ↦
        stops_at_network p e pe ne (rw (pe, with_policy) (rw (ne, with_network) refl))
    | inl (key_error, ne) ↦ absurd (load_network-ne-key_error p.zones network ne)
    | inr (net, ne) ↦
        let (raw, given) = load_network-some p.zones p.zones network net ne in
        let (maps, me) = load_network-port_maps p.zones p.zones raw net (rw (← given) ne) in
        let (c, ce) = with_network-ok pox p net maps me in
        let started : start pox policy network ≡ ok c =
          rw (pe, with_policy) (rw (ne, with_network) ce) in
        runs c started (start-Loaded pox policy network c started)
  ]
]
