-- ===== src/Daemon/Recovery.antt =====
-- firewall_client.py and cpp/firewall_daemon.cpp: a call that raises is not the end.
use mininet_zone_segmentatio.Base.{
  ℕ, ◌≡◌, refl, none, some, List, [], ◌++◌, ◌==◌, nat_eq, arith, ok, inl, inr, Bool-cases,
  Option-cases,
}
use mininet_zone_segmentatio.Policy.{Policy, zone_for_ip, firewall_allowed}
use mininet_zone_segmentatio.Policy.Load.{RawPolicy, load_policy}
use mininet_zone_segmentatio.Header.{Header, render}
use mininet_zone_segmentatio.Client.{
  Stream, got, failed, recv_exact, unpack_response, Client, Net, verdict, raised, os_error,
  Received, ensure_connected, finish, exchange, is_allowed,
}
use mininet_zone_segmentatio.Daemon.Exchange.{
  pack_request-bytes, Serves, is_allowed-firewall_allowed,
}
use mininet_zone_segmentatio.Daemon.Serving.{Query}
use mininet_zone_segmentatio.Daemon.Session.{Fits, ask, ensure_connected-none}

-- An OSError leaves the client without a socket.
finish-raised :
    (r : Received) → (finish r).0 ≡ raised os_error → (finish r).1 ≡ record { sock = none }
unfolding finish
finish-raised (failed e) h = refl
finish-raised (got response s) h = elim (Option-cases (unpack_response response)) [
  | inl n ↦ absurd (ground arith)
  | inr ((allowed, rule_id), n) ↦ absurd (ground arith)
]

exchange-raised :
    (net : Net) (request : List ℕ) (s : Stream)
    → (exchange net request s).0 ≡ raised os_error
    → (exchange net request s).1 ≡ record { sock = none }
unfolding exchange
exchange-raised net request s h = elim (Bool-cases net.sends) [
  | inl e ↦ rw e (finish-raised (recv_exact 2 (s ++ net.answer request)) (rw e at h))
  | inr e ↦ rw e refl
]

ask-raised :
    (net : Net) (q : Query) (c : Client)
    → Fits q
    → (ask net q c).0 ≡ raised os_error
    → (ask net q c).1 ≡ record { sock = none }
unfolding is_allowed
ask-raised net q c fits =
    let packed =
      pack_request-bytes q.src q.dst q.src_port q.dst_port q.protocol fits.src fits.dst
        fits.src_port fits.dst_port fits.protocol in
    rw (packed, is_allowed)
      (elim (Option-cases (ensure_connected net c)) [
        | inl n ↦ rw (n, is_allowed) (λ h. ensure_connected-none net c n)
        | inr (s, n) ↦ rw (n, is_allowed) (exchange-raised net _ s)
      ])

-- After a call that raised an OSError, whatever state the client was in and whatever the system did,
-- the next call connects anew; where that works, and the daemon serves, it returns the verdict of
-- `firewall_allowed`.
pub ask-recovers :
    (raw : RawPolicy) (p : Policy) (h : Header) (lost net : Net) (first second : Query) (c : Client)
    → load_policy (some raw) ≡ ok p
    → render p.zones p.block_all_ip p.block_icmp ≡ some h
    → Fits first
    → Fits second
    → (ask lost first c).0 ≡ raised os_error
    → net.connects ≡ some []
    → Serves h net
    → (rule_id : ℕ) × ((ask net second (ask lost first c).1).0
        ≡ verdict
            (firewall_allowed p
              (zone_for_ip p.zones second.src)
              (zone_for_ip p.zones second.dst)
              (second.protocol == 1))
            rule_id)
unfolding ensure_connected
ask-recovers raw p h lost net first second c loaded rendered fits fits' failed_call connects
      serves =
    rw (ask-raised lost first c fits failed_call) (
      is_allowed-firewall_allowed raw p h net (record { sock = none }) second.src second.dst
        second.protocol second.src_port second.dst_port loaded rendered serves connects fits'.src
        fits'.dst fits'.src_port fits'.dst_port fits'.protocol)
