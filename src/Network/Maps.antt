-- ===== src/Network/Maps.antt =====
-- network.py: what the dicts that `port_maps` builds hold.
use mininet_zone_segmentatio.Base.{
  ℕ, String, ◌≡◌, refl, ◌∙◌, ap, sym, ◌⊎◌, Option, some, List, [], ◌∷◌, arith, ◌==◌, nat_eq,
  string_eq, Dict, lookup, insert, lookup-insert, if◌then◌else◌, inl, inr, Option-cases, Bool-cases,
}
use mininet_zone_segmentatio.Network.{
  Value, port_number, Switch, Uplink, Host, uplink_zones, host_zones, switch_zones, uplink_ports,
}
use mininet_zone_segmentatio.Network.Hosts.{uplink_attachments}
use mininet_zone_segmentatio.Network.Unique.{
  Unique, In, NoHost, NoUplink, taken-NoUplink, contains-cons,
}

-- Where a port in a dict made by `uplink_ports` comes from.
pub record FromUplink (f : Uplink → Value) (switches : Dict String Switch)
    (uplinks : Dict String Uplink) (d port : ℕ) : Type 0 where
  pub leaf : String
  pub link : Uplink
  pub switch : Switch
  pub plugged : In (leaf, link) uplinks
  pub found : lookup leaf switches ≡ some switch
  pub same_dpid : switch.dpid ≡ d
  pub same_port : port_number (f link) ≡ port

pub lookup-uplink_ports :
    (f : Uplink → Value) (switches : Dict String Switch) (uplinks : Dict String Uplink)
    (ports made : Dict ℕ ℕ) (d port : ℕ)
    → uplink_ports f switches uplinks ports ≡ some made
    → lookup d made ≡ some port
    → (lookup d ports ≡ some port) ⊎ FromUplink f switches uplinks d port
unfolding uplink_ports
lookup-uplink_ports f switches [] ports made d port h found = inl (ground arith)
lookup-uplink_ports f switches ((leaf, link) ∷ uplinks) ports made d port h found =
    elim (Option-cases (lookup leaf switches)) [
      | inl e ↦ absurd (ground arith)
      | inr (s, e) ↦
          elim (lookup-uplink_ports f switches uplinks (insert s.dpid (port_number (f link)) ports)
            made d port (ground arith) found) [
              | inr later ↦ inr (record {
                leaf = later.leaf;
                link = later.link;
                switch = later.switch;
                plugged = inr later.plugged;
                found = later.found;
                same_dpid = later.same_dpid;
                same_port = later.same_port;
              })
              | inl here ↦ elim (nat_eq.dec d s.dpid) [
                | no other ↦
                    inl (ground (arith, lookup-insert d s.dpid (port_number (f link)) ports))
                | yes same ↦ inr (record {
                  leaf = leaf;
                  link = link;
                  switch = s;
                  plugged = inl refl;
                  found = e;
                  same_dpid = sym same;
                  same_port = ground (arith, lookup-insert d s.dpid (port_number (f link)) ports);
                })
              ]
            ]
    ]

-- Where a zone in the dict made by `switch_zones` comes from.
pub record FromSwitch (switches : Dict String Switch) (d : ℕ) (zone : Option String) : Type 0 where
  pub name : String
  pub switch : Switch
  pub member : In (name, switch) switches
  pub same_dpid : switch.dpid ≡ d
  pub same_zone : switch.zone ≡ zone

pub lookup-switch_zones :
    (core : String) (switches : Dict String Switch) (zones : Dict ℕ (Option String)) (d : ℕ)
    (z : Option String)
    → lookup d (switch_zones core switches zones) ≡ some z
    → (lookup d zones ≡ some z) ⊎ FromSwitch switches d z
unfolding switch_zones
lookup-switch_zones core [] zones d z found = inl found
lookup-switch_zones core ((name, s) ∷ switches) zones d z found =
    elim (lookup-switch_zones core switches
      (if name == core then zones else insert s.dpid s.zone zones) d z found) [
        | inr later ↦ inr (record {
          name = later.name;
          switch = later.switch;
          member = inr later.member;
          same_dpid = later.same_dpid;
          same_zone = later.same_zone;
        })
        | inl here ↦ elim (nat_eq.dec d s.dpid) [
          | no other ↦ inl (ground (arith, lookup-insert d s.dpid s.zone zones))
          | yes same ↦ elim (Bool-cases (name == core)) [
            | inl c ↦ inl (ground arith)
            | inr c ↦ inr (record {
              name = name;
              switch = s;
              member = inl refl;
              same_dpid = sym same;
              same_zone = ground (arith, lookup-insert d s.dpid s.zone zones);
            })
          ]
        ]
      ]

-- A port that no later uplink ends at keeps its zone.
uplink_zones-kept :
    (switches : Dict String Switch) (uplinks : Dict String Uplink)
    (ports made : Dict ℕ (Option String)) (n : ℕ)
    → uplink_zones switches uplinks ports ≡ some made
    → NoUplink n uplinks
    → lookup n made ≡ lookup n ports
unfolding uplink_zones
uplink_zones-kept switches [] ports made n h clear = let e : ports ≡ made = cc in rw e refl
uplink_zones-kept switches ((leaf, link) ∷ uplinks) ports made n h (other, clear) =
    elim (Option-cases (lookup leaf switches)) [
      | inl e ↦ absurd (ground arith)
      | inr (s, e) ↦ ground (
        arith,
        uplink_zones-kept switches uplinks (insert (port_number link.core_port) s.zone ports) made
            n,
        lookup-insert n (port_number link.core_port) s.zone ports,
      )
    ]

-- The core's end of an uplink gets the zone of the leaf.
pub lookup-uplink_zones :
    (core leaf : String) (link : Uplink) (s : Switch) (switches : Dict String Switch)
    (uplinks : Dict String Uplink) (ports made : Dict ℕ (Option String)) (used : List (String × ℕ))
    → uplink_zones switches uplinks ports ≡ some made
    → Unique used (uplink_attachments core uplinks)
    → In (leaf, link) uplinks
    → lookup leaf switches ≡ some s
    → lookup (port_number link.core_port) made ≡ some s.zone
unfolding uplink_zones uplink_attachments
lookup-uplink_zones core leaf link s switches [] ports made used h u here found = elim here [ ]
lookup-uplink_zones core leaf link s switches ((l, k) ∷ uplinks) ports made used h
      (free, (taken, u)) (inl e) found =
    let same : link ≡ k = ap (λ (q : String × Uplink). q.1) e in
    let name : leaf ≡ l = ap (λ (q : String × Uplink). q.0) e in
    let n = port_number k.core_port in
    let here : lookup l switches ≡ some s = cc (found, name) in
    let clear =
      taken-NoUplink ((core, n) ∷ (l, port_number k.leaf_port) ∷ used) core n uplinks u
        (ground (arith, contains-cons core core n n ((l, port_number k.leaf_port) ∷ used))) in
    rw same (
      uplink_zones-kept switches uplinks (insert n s.zone ports) made n (ground arith) clear
      ∙ ground (arith, lookup-insert n n s.zone ports))
lookup-uplink_zones core leaf link s switches ((l, k) ∷ uplinks) ports made used h
      (free, (taken, u)) (inr later) found =
    elim (Option-cases (lookup l switches)) [
      | inl e ↦ absurd (ground arith)
      | inr (t, e) ↦
          lookup-uplink_zones core leaf link s switches uplinks
            (insert (port_number k.core_port) t.zone ports) made
            ((core, port_number k.core_port) ∷ (l, port_number k.leaf_port) ∷ used) (ground arith) u
            later found
    ]

pub lookup-host_zones :
    (core : String) (hosts : Dict String Host) (ports : Dict ℕ (Option String)) (n : ℕ)
    → NoHost core n hosts
    → lookup n (host_zones core hosts ports) ≡ lookup n ports
unfolding host_zones
lookup-host_zones core [] ports n clear = refl
lookup-host_zones core ((name, h) ∷ hosts) ports n (other, clear) =
    lookup-host_zones core hosts
      (if h.switch == core then insert (port_number h.port) (some h.zone) ports else ports) n clear
    ∙ ground (arith, lookup-insert n (port_number h.port) (some h.zone) ports)
