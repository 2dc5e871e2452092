-- ===== src/Network/Switches.antt =====
-- network.py: `_load_switches` gives every switch a dpid of its own.
use mininet_zone_segmentatio.Base.{
  ℕ, String, ◌≡◌, refl, ◌∙◌, ap, sym, true, false, ◌||◌, ◌⊎◌, none, some, List, [], ◌∷◌, ◌++◌,
  arith, ◌==◌, nat_eq, string_eq, contains, Dict, lookup, insert, if◌then◌else◌, inl, inr,
  Bool-cases, ok, raise_if, >>=-eq-ok,
}
use mininet_zone_segmentatio.Policy.{Zones}
use mininet_zone_segmentatio.Network.{Switch}
use mininet_zone_segmentatio.Network.Load.{
  RawSwitch, positive, network_error, SwitchLoop, load_switch, switch_loop, one_core, load_switches,
  bad_dpid, or_raise, leaf_zone,
}
use mininet_zone_segmentatio.Network.Unique.{In}

-- Two entries with one dpid are one entry.
pub record OwnDpids (switches : Dict String Switch) : Type 0 where
  pub same :
      (m n : String) (s t : Switch)
      → In (m, s) switches
      → In (n, t) switches
      → s.dpid ≡ t.dpid
      → (m ≡ n) × (s ≡ t)

record LoopFine (l : SwitchLoop) : Type 0 where
  own : OwnDpids l.switches
  listed : (n : String) (s : Switch) → In (n, s) l.switches → contains l.dpids s.dpid ≡ true

pub In-lookup :
    (switches : Dict String Switch) (n : String) {s : Switch}
    → lookup n switches ≡ some s
    → In (n, s) switches
unfolding lookup
In-lookup [] n h = cc
In-lookup ((m, t) ∷ switches) n {s} h = elim (string_eq.dec n m) [
  | yes e ↦ inl (let v : t ≡ s = ground arith in rw (e, v) refl)
  | no ne ↦ inr (In-lookup switches n (ground arith))
]

In-branch :
    {V : Type 0} (k m n : String) (v t s : V) (d later : Dict String V)
    → (In (n, s) later → ((n ≡ k) × (s ≡ v)) ⊎ In (n, s) d)
    → In (n, s) (if k == m then (m, v) ∷ d else (m, t) ∷ later)
    → ((n ≡ k) × (s ≡ v)) ⊎ In (n, s) ((m, t) ∷ d)
In-branch {V} k m n v t s d later ih = elim (Bool-cases (k == m)) [
  | inl same ↦ rw same (λ here. elim here [
    | inl e ↦
        let key : n ≡ m = ap (λ (q : String × V). q.0) e in
        inl (ground arith, ap (λ (q : String × V). q.1) e)
    | inr e ↦ inr (inr e)
  ])
  | inr other ↦ rw other (λ here. elim here [
    | inl e ↦ inr (inl e)
    | inr e ↦ elim (ih e) [ inl new ↦ inl new | inr old ↦ inr (inr old) ]
  ])
]

-- An entry of a dict after `d[k] = v` is the new one, or it was there before.
pub In-insert :
    {V : Type 0} (k n : String) (v s : V) (d : Dict String V)
    → In (n, s) (insert k v d)
    → ((n ≡ k) × (s ≡ v)) ⊎ In (n, s) d
unfolding insert
In-insert {V} k n v s [] (inl e) =
    inl (ap (λ (q : String × V). q.0) e, ap (λ (q : String × V). q.1) e)
In-insert k n v s [] (inr e) = elim e [ ]
In-insert k n v s ((m, t) ∷ d) here =
    In-branch k m n v t s d (insert k v d) (In-insert k n v s d) here

contains-append : (xs : List ℕ) (x y : ℕ) → contains (xs ++ (x ∷ [])) y ≡ (contains xs y || y == x)
unfolding contains
contains-append [] x y = ground arith
contains-append (z ∷ xs) x y = ground (arith, contains-append xs x y)

-- A switch with a dpid that was not used before.
insert-LoopFine :
    (l : SwitchLoop) (name : String) (v : Switch) (cores : List String)
    → LoopFine l
    → contains l.dpids v.dpid ≡ false
    → LoopFine (record {
      switches = insert name v l.switches;
      cores = cores;
      dpids = l.dpids ++ (v.dpid ∷ []);
    })
insert-LoopFine l name v cores fine fresh = record {
  own = record {
    same = λ m n s t hs ht e.
        both m n s t (fine.own.same m n s t) (fine.listed m s) (fine.listed n t) e
          (In-insert name m v s l.switches hs) (In-insert name n v t l.switches ht);
  };
  listed = λ n s here. elim (In-insert name n v s l.switches here) [
    | inl (_, new) ↦ ground (arith, contains-append l.dpids v.dpid s.dpid)
    | inr old ↦ ground (arith, contains-append l.dpids v.dpid s.dpid, fine.listed n s old)
  ];
}
  where
    both :
        {M N : Type 0} (m n : String) (s t : Switch)
        → (M → N → s.dpid ≡ t.dpid → (m ≡ n) × (s ≡ t))
        → (M → contains l.dpids s.dpid ≡ true)
        → (N → contains l.dpids t.dpid ≡ true)
        → s.dpid ≡ t.dpid
        → ((m ≡ name) × (s ≡ v)) ⊎ M
        → ((n ≡ name) × (t ≡ v)) ⊎ N
        → (m ≡ n) × (s ≡ t)
    both m n s t old ls lt e (inl (i, a)) (inl (j, b)) = (i ∙ sym j, a ∙ sym b)
    both m n s t old ls lt e (inl (i, a)) (inr b) = absurd (ground (arith, lt b))
    both m n s t old ls lt e (inr a) (inl (j, b)) = absurd (ground (arith, ls a))
    both m n s t old ls lt e (inr a) (inr b) = old a b e

load_switch-LoopFine :
    (zones : Zones) (name : String) (s : RawSwitch) (l m : SwitchLoop)
    → LoopFine l
    → load_switch zones name s l ≡ ok m
    → LoopFine m
unfolding load_switch
load_switch-LoopFine zones name s l m fine h =
    let (dpid, de, h1) =
      >>=-eq-ok (or_raise (positive s.dpid) (network_error (bad_dpid name))) _ h in
    let (_, fe, h2) =
      >>=-eq-ok (raise_if (contains l.dpids dpid) (network_error (bad_dpid name))) _ h1 in
    let (zone, ze, h3) = >>=-eq-ok (if s.core then ok none else leaf_zone zones name s.zone) _ h2 in
    let fresh : contains l.dpids dpid ≡ false = ground arith in
    let v : Switch = record { dpid = dpid; zone = zone } in
    let made : SwitchLoop = record {
      switches = insert name v l.switches;
      cores = if s.core then l.cores ++ (name ∷ []) else l.cores;
      dpids = l.dpids ++ (dpid ∷ []);
    } in
    let e : made ≡ m = cc h3 in rw (← e) (insert-LoopFine l name v made.cores fine fresh)

switch_loop-LoopFine :
    (zones : Zones) (raw : Dict String RawSwitch) (l m : SwitchLoop)
    → LoopFine l
    → switch_loop zones raw l ≡ ok m
    → LoopFine m
unfolding switch_loop
switch_loop-LoopFine zones [] l m fine h = let e : l ≡ m = cc h in rw (← e) fine
switch_loop-LoopFine zones ((name, s) ∷ raw) l m fine h =
    let (k, ke, rest) = >>=-eq-ok (load_switch zones name s l) (λ k. switch_loop zones raw k) h in
    switch_loop-LoopFine zones raw k m (load_switch-LoopFine zones name s l k fine ke) rest

-- The switches that are loaded have dpids of their own.
pub load_switches-OwnDpids :
    (zones : Zones) (raw : Dict String RawSwitch) (core : String) (switches : Dict String Switch)
    → load_switches zones raw ≡ ok (core, switches)
    → OwnDpids switches
unfolding load_switches
load_switches-OwnDpids zones raw core switches h =
    let start : SwitchLoop = record { switches = []; cores = []; dpids = [] } in
    let (l, le, h1) = >>=-eq-ok (switch_loop zones raw start) _ h in
    let (c, ce, h2) = >>=-eq-ok (one_core l.cores) _ h1 in
    let e : l.switches ≡ switches = ground arith in
    let fine =
      switch_loop-LoopFine zones raw start l
        (record {
          own = record { same = λ m n s t hs ht e. elim hs [ ] };
          listed = λ n s here. elim here [ ];
        })
        le in
    rw (← e) fine.own
