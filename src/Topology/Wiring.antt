-- ===== src/Topology/Wiring.antt =====
-- topology.py builds every layout that `load_network` of network.py accepts.
use mininet_zone_segmentatio.Base.{
  String, ◌≡◌, refl, ap, some, List, [], ◌∷◌, ◌++◌, string_eq, Dict, lookup, ok, inl, inr,
}
use mininet_zone_segmentatio.Policy.{Zone, Zones}
use mininet_zone_segmentatio.Network.{Host, Network}
use mininet_zone_segmentatio.Network.Load.{RawNetwork}
use mininet_zone_segmentatio.Network.Hosts.{load_network}
use mininet_zone_segmentatio.Network.Unique.{In}
use mininet_zone_segmentatio.Network.Placed.{load_network-IsPlaced}
use mininet_zone_segmentatio.Topology.{
  Call, add_controller, add_host, switch_calls, host_calls, host_links, uplink_links, build_network,
  cons, around,
}

In-append_left : {A : Type 0} (x : A) (xs ys : List A) → In x xs → In x (xs ++ ys)
In-append_left x [] ys here = elim here [ ]
In-append_left x (y ∷ xs) ys (inl e) = inl e
In-append_left x (y ∷ xs) ys (inr later) = inr (In-append_left x xs ys later)

In-append_right : {A : Type 0} (x : A) (xs ys : List A) → In x ys → In x (xs ++ ys)
In-append_right x [] ys here = here
In-append_right x (y ∷ xs) ys here = inr (In-append_right x xs ys here)

abbrev Homed : Zones → Dict String Host → Type 0
Homed zones hosts =
    (name : String) (h : Host) → In (name, h) hosts → (z : Zone) × (lookup h.zone zones ≡ some z)

-- The route of a host that is added is the gateway of its zone.
abbrev pub Routed : Zones → Dict String Host → List Call → Type 0
Routed zones hosts calls =
    (name : String) (h : Host) (z : Zone)
    → In (name, h) hosts
    → lookup h.zone zones ≡ some z
    → In (add_host name h.ip h.prefix_len z.gateway) calls

same_call :
    (zones : Zones) (n name : String) (g h : Host) (w z : Zone)
    → ◌≡◌ {A = String × Host} (n, g) (name, h)
    → lookup g.zone zones ≡ some w
    → lookup h.zone zones ≡ some z
    → add_host n g.ip g.prefix_len w.gateway ≡ add_host name h.ip h.prefix_len z.gateway
same_call zones n name g h w z e we ze =
    let en : n ≡ name = ap (λ (q : String × Host). q.0) e in
    let eh : g ≡ h = ap (λ (q : String × Host). q.1) e in
    let ew : w ≡ z = cc (we, ze, eh) in rw (en, eh, ew) refl

host_calls-Routed :
    (zones : Zones) (hosts : Dict String Host)
    → Homed zones hosts
    → (calls : List Call) × (host_calls zones hosts ≡ some calls) × Routed zones hosts calls
unfolding host_calls cons
host_calls-Routed zones [] home = ([], refl, λ name h z here e. elim here [ ])
host_calls-Routed zones ((name, h) ∷ hosts) home =
    let (z, ze) = home name h (inl refl) in
    let (calls, ce, routed) = host_calls-Routed zones hosts (λ n g here. home n g (inr here)) in
    (
      add_host name h.ip h.prefix_len z.gateway ∷ calls,
      rw (ze, ce) refl,
      λ n g w here we. elim here [
        | inl e ↦ inl (same_call zones n name g h w z e we ze)
        | inr later ↦ inr (routed n g w later we)
      ],
    )

-- For every layout that `load_network` accepts with the zones of the policy, `build_network` returns,
-- and each host is added with its own address and prefix length, and with the gateway of its zone as
-- its default route.
pub build_network-Routed :
    (zones : Zones) (raw : RawNetwork) (net : Network)
    → load_network zones zones (some raw) ≡ ok net
    → (calls : List Call) × (build_network zones net ≡ some calls) × Routed zones net.hosts calls
unfolding build_network around
build_network-Routed zones raw net loaded =
    let home : Homed zones net.hosts = λ name h here.
      let p = load_network-IsPlaced zones zones raw net name h loaded here in (p.home, p.known) in
    let (hosts, he, routed) = host_calls-Routed zones net.hosts home in
    let links = host_links net.hosts ++ uplink_links net.core net.uplinks in
    (
      add_controller "c0" "127.0.0.1" 6633 ∷ (switch_calls net.switches ++ (hosts ++ links)),
      rw he refl,
      λ name h z here e. inr (
          In-append_right _ (switch_calls net.switches) (hosts ++ links)
            (In-append_left _ hosts links (routed name h z here e))),
    )
