-- ===== src/Network/Errors.antt =====
-- network.py: `zones[zone]` in `_load_hosts` finds the zone that `zone_for_ip` has named.
use mininet_zone_segmentatio.Base.{
  ℕ, String, Bool, true, false, not, ◌≡◌, ◌≢◌, ◌&&◌, ◌||◌, Option, none, some, List, [], ◌∷◌, ◌++◌,
  arith, ◌==◌, nat_eq, string_eq, pair_eq, contains, Dict, lookup, has_key, insert, inl, inr, refl,
  Option-cases, Bool-cases, ok, err, ◌>>=◌, raise_if, if◌then◌else◌,
}
use mininet_zone_segmentatio.Policy.{Zone, Zones, zone_for_ip}
use mininet_zone_segmentatio.Network.{Switch, Uplink, Host}
use mininet_zone_segmentatio.Network.Load.{
  RawSwitch, RawUplink, RawHost, RawNetwork, NetworkError, network_error, ip_outside_zones,
  ip_reserved, ip_used, wrong_switch, key_error, Loaded, or_raise, positive, SwitchLoop, leaf_zone,
  load_switch, switch_loop, one_core, load_switches, add_uplink, uplink_loop, load_uplinks,
  any_missing,
}
use mininet_zone_segmentatio.Network.Hosts.{
  Attachment, attached, parse_ip, differs, is_reserved, load_host, load_hosts, check_ports,
  check_ports_unique, host_attachments, uplink_attachments, load_network,
}

-- No KeyError.
IsClean : {A : Type 0} → Loaded A → Type 0
IsClean r = r ≢ err key_error

ok-IsClean : {A : Type 0} (a : A) → IsClean (ok a)
unfolding IsClean
ok-IsClean a h = cc h

error-IsClean : (A : Type 0) (e : NetworkError) → IsClean {A = A} (err (network_error e))
unfolding IsClean
error-IsClean A e h = cc h

>>=-IsClean :
    {A B : Type 0} (action : Loaded A) (after : A → Loaded B)
    → IsClean action
    → ((a : A) → action ≡ ok a → IsClean (after a))
    → IsClean (action >>= after)
unfolding IsClean
>>=-IsClean (ok a) after clean next h = next a refl h
>>=-IsClean (err e) after clean next h = clean (cc h)

or_raise-IsClean :
    {A : Type 0} (o : Option A) (e : NetworkError) → IsClean (or_raise o (network_error e))
unfolding IsClean or_raise
or_raise-IsClean none e h = cc h
or_raise-IsClean (some a) e h = cc h

raise_if-IsClean : (b : Bool) (e : NetworkError) → IsClean (raise_if b (network_error e))
unfolding IsClean
raise_if-IsClean true e h = cc h
raise_if-IsClean false e h = cc h

leaf_zone-IsClean :
    (core : Bool) (zones : Zones) (name : String) (z : Option String)
    → IsClean (if core then ok none else leaf_zone zones name z)
unfolding IsClean leaf_zone
leaf_zone-IsClean core zones name z = ground arith

load_switch-IsClean :
    (zones : Zones) (name : String) (s : RawSwitch) (l : SwitchLoop)
    → IsClean (load_switch zones name s l)
unfolding load_switch
load_switch-IsClean zones name s l =
    >>=-IsClean (or_raise (positive s.dpid) _) _ (or_raise-IsClean (positive s.dpid) _) (λ dpid _.
      >>=-IsClean (raise_if (contains l.dpids dpid) _) _ (raise_if-IsClean _ _) (λ _ _.
        >>=-IsClean (if s.core then ok none else leaf_zone zones name s.zone) _
          (leaf_zone-IsClean s.core zones name s.zone) (λ zone _. ok-IsClean _)))

switch_loop-IsClean :
    (zones : Zones) (raw : Dict String RawSwitch) (l : SwitchLoop)
    → IsClean (switch_loop zones raw l)
unfolding switch_loop
switch_loop-IsClean zones [] l = ok-IsClean l
switch_loop-IsClean zones ((name, s) ∷ raw) l =
    >>=-IsClean (load_switch zones name s l) _ (load_switch-IsClean zones name s l)
      (λ next _. switch_loop-IsClean zones raw next)

one_core-IsClean : (cores : List String) → IsClean (one_core cores)
unfolding one_core
one_core-IsClean [] = error-IsClean _ _
one_core-IsClean (core ∷ []) = ok-IsClean core
one_core-IsClean (core ∷ other ∷ cores) = error-IsClean _ _

load_switches-IsClean :
    (zones : Zones) (raw : Dict String RawSwitch) → IsClean (load_switches zones raw)
unfolding load_switches
load_switches-IsClean zones raw =
    >>=-IsClean (switch_loop zones raw _) _ (switch_loop-IsClean zones raw _)
      (λ l _. >>=-IsClean (one_core l.cores) _ (one_core-IsClean l.cores) (λ core _. ok-IsClean _))

add_uplink-IsClean :
    (switches : Dict String Switch) (core : String) (link : RawUplink) (leaf : Option String)
    (uplinks : Dict String Uplink)
    → IsClean (add_uplink switches core link leaf uplinks)
unfolding add_uplink
add_uplink-IsClean switches core link none uplinks = error-IsClean _ _
add_uplink-IsClean switches core link (some leaf) uplinks =
    elim (Bool-cases (not (has_key leaf switches) || leaf == core)) [
      | inl e ↦ rw e (error-IsClean _ _)
      | inr e ↦ elim (Bool-cases (has_key leaf uplinks)) [
        | inl d ↦ rw (e, d) (error-IsClean _ _)
        | inr d ↦ rw (e, d) (ok-IsClean _)
      ]
    ]

uplink_loop-IsClean :
    (switches : Dict String Switch) (core : String) (raw : List RawUplink)
    (uplinks : Dict String Uplink)
    → IsClean (uplink_loop switches core raw uplinks)
unfolding uplink_loop
uplink_loop-IsClean switches core [] uplinks = ok-IsClean uplinks
uplink_loop-IsClean switches core (link ∷ raw) uplinks =
    >>=-IsClean (add_uplink switches core link link.leaf uplinks) _
      (add_uplink-IsClean switches core link link.leaf uplinks)
      (λ more _. uplink_loop-IsClean switches core raw more)

load_uplinks-IsClean :
    (raw : List RawUplink) (switches : Dict String Switch) (core : String)
    → IsClean (load_uplinks raw switches core)
unfolding load_uplinks
load_uplinks-IsClean raw switches core =
    >>=-IsClean (uplink_loop switches core raw []) _ (uplink_loop-IsClean switches core raw [])
      (λ u _.
        >>=-IsClean (raise_if (any_missing switches core u) _) _ (raise_if-IsClean _ _)
          (λ _ _. ok-IsClean u))

attached-IsClean :
    (switches : Dict String Switch) (name : String) (switch : Option String)
    → IsClean (attached switches name switch)
unfolding attached
attached-IsClean switches name none = error-IsClean _ _
attached-IsClean switches name (some switch) =
    >>=-IsClean (or_raise (lookup switch switches) _) _ (or_raise-IsClean _ _)
      (λ s _. ok-IsClean (switch, s))

zone_for_ip-lookup :
    (zones : Zones) (ip : ℕ) (name : String)
    → zone_for_ip zones ip ≡ some name
    → (z : Zone) × (lookup name zones ≡ some z)
unfolding zone_for_ip lookup
zone_for_ip-lookup [] ip name h = cc h
zone_for_ip-lookup ((k, z) ∷ zones) ip name h = elim (string_eq.dec name k) [
  | yes e ↦ (z, ground arith)
  | no ne ↦ let (y, e) = zone_for_ip-lookup zones ip name (ground arith) in (y, ground (arith, e))
]

-- `zones[zone]`, with the zone of `zone_for_ip`.
home-IsClean :
    (zones : Zones) (ip : ℕ) (name zone : String)
    → or_raise (zone_for_ip zones ip) (network_error (ip_outside_zones name)) ≡ ok zone
    → IsClean (or_raise (lookup zone zones) key_error)
unfolding or_raise
home-IsClean zones ip name zone h =
    let (z, e) = zone_for_ip-lookup zones ip zone (ground arith) in rw e (ok-IsClean z)

load_host-IsClean :
    (zones : Zones) (switches : Dict String Switch) (core name : String) (h : RawHost)
    (ips : List ℕ)
    → IsClean (load_host zones zones switches core name h ips)
unfolding load_host
load_host-IsClean zones switches core name h ips =
    >>=-IsClean (or_raise (parse_ip h.ip) _) _ (or_raise-IsClean (parse_ip h.ip) _) (λ ip _.
      >>=-IsClean (or_raise (zone_for_ip zones ip) (network_error (ip_outside_zones name))) _
        (or_raise-IsClean _ _)
        (λ zone named.
          >>=-IsClean (or_raise (lookup zone zones) key_error) _
            (home-IsClean zones ip name zone named) (λ z _. placed-IsClean ip zone z)))
  where
    placed-IsClean :
        (ip : ℕ) (zone : String) (z : Zone)
        → IsClean (
            raise_if (is_reserved ip z) (network_error (ip_reserved name)) >>= λ _.
            raise_if (contains ips ip) (network_error (ip_used name)) >>= λ _.
            attached switches name h.switch >>= λ at.
            raise_if
              (not (at.0 == core) && differs at.1.zone zone)
              (network_error (wrong_switch name))
            >>= λ _.
                let host : Host = record {
                  ip = ip;
                  prefix_len = z.subnet.prefixlen;
                  zone = zone;
                  switch = at.0;
                  port = h.port;
                } in
                ok host)
    placed-IsClean ip zone z =
        >>=-IsClean (raise_if (is_reserved ip z) _) _ (raise_if-IsClean _ _) (λ _ _.
          >>=-IsClean (raise_if (contains ips ip) _) _ (raise_if-IsClean _ _) (λ _ _.
            >>=-IsClean (attached switches name h.switch) _
              (attached-IsClean switches name h.switch)
              (λ at _.
                >>=-IsClean (raise_if (not (at.0 == core) && differs at.1.zone zone) _) _
                  (raise_if-IsClean _ _) (λ _ _. ok-IsClean _))))

load_hosts-IsClean :
    (zones : Zones) (switches : Dict String Switch) (core : String) (raw : Dict String RawHost)
    (ips : List ℕ) (hosts : Dict String Host)
    → IsClean (load_hosts zones zones switches core raw ips hosts)
unfolding load_hosts
load_hosts-IsClean zones switches core [] ips hosts = ok-IsClean hosts
load_hosts-IsClean zones switches core ((name, h) ∷ raw) ips hosts =
    >>=-IsClean (load_host zones zones switches core name h ips) _
      (load_host-IsClean zones switches core name h ips)
      (λ l _. load_hosts-IsClean zones switches core raw (ips ++ (l.ip ∷ [])) (insert name l hosts))

check_ports-IsClean :
    (used : List (String × ℕ)) (attachments : List Attachment)
    → IsClean (check_ports used attachments)
unfolding check_ports
check_ports-IsClean used [] = ok-IsClean tt
check_ports-IsClean used (a ∷ attachments) = elim (Option-cases (positive a.port)) [
  | inl e ↦ rw (e, check_ports) (error-IsClean _ _)
  | inr (port, e) ↦ elim (Bool-cases (contains used (a.switch, port))) [
    | inl d ↦ rw (e, check_ports) (rw d (error-IsClean _ _))
    | inr d ↦ rw (e, check_ports) (rw d (check_ports-IsClean ((a.switch, port) ∷ used) attachments))
  ]
]

-- With one table of zones, `load_network` raises no KeyError.
pub load_network-ne-key_error :
    (zones : Zones) (raw : Option RawNetwork) → load_network zones zones raw ≢ err key_error
unfolding load_network IsClean check_ports_unique
load_network-ne-key_error zones none = error-IsClean _ _
load_network-ne-key_error zones (some raw) =
    >>=-IsClean (load_switches zones raw.switches) _ (load_switches-IsClean zones raw.switches)
      (λ first _.
        >>=-IsClean (load_uplinks raw.uplinks first.1 first.0) _
          (load_uplinks-IsClean raw.uplinks first.1 first.0)
          (λ uplinks _.
            >>=-IsClean (load_hosts zones zones first.1 first.0 raw.hosts [] []) _
              (load_hosts-IsClean zones first.1 first.0 raw.hosts [] [])
              (λ hosts _.
                >>=-IsClean
                  (check_ports [] (host_attachments hosts ++ uplink_attachments first.0 uplinks)) _
                  (check_ports-IsClean []
                    (host_attachments hosts ++ uplink_attachments first.0 uplinks))
                  (λ _ _. ok-IsClean _))))
