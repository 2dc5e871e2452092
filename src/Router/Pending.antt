-- ===== src/Router/Pending.antt =====
-- controller.py: forwarding an IP packet, and the packets that wait for an ARP reply.
use mininet_zone_segmentatio.Base.{
  ℕ, suc, ◌+◌, ◌-◌, String, Option, none, some, List, [], ◌∷◌, ◌++◌, leb, nat_eq, string_eq, lookup,
  insert, erase, if◌then◌else◌,
}
use mininet_zone_segmentatio.Policy.{Zone}
use mininet_zone_segmentatio.Router.{
  EthAddr, Ipv4, ip_next, Ethernet, start_timer, cancel_timer, Router, Config, Queued, Entry,
  icmp_time_exceeded, icmp_code_ttl_exceeded, icmp_dest_unreach, icmp_code_host_unreach,
  arp_retry_interval, arp_max_retries,
}
use mininet_zone_segmentatio.Router.Output.{emit, send_packet, send_arp_probe, send_icmp_error}

-- `ip_pkt.ttl -= 1`. The controller forwards a packet object at most once, so that the change of
-- the object shows in the packet that goes out, and nowhere else.
unfoldable pub routed_packet : Zone → Ipv4 → EthAddr → Ethernet
routed_packet gw ip_pkt dst_mac = record {
  src = gw.gateway_mac;
  dst = dst_mac;
  next = ip_next (record ip_pkt { ttl = ip_pkt.ttl - 1 });
}

module _ (c : Config) where
  -- `_forward_ip`. The zone was returned by `zone_for_ip`, so it is in ZONES.
  unfoldable pub forward_ip : ℕ → ℕ → String → Ethernet → Ipv4 → ℕ → EthAddr → Router → Router
  forward_ip orig_dpid orig_port dst_zone packet ip_pkt out_port dst_mac r =
      if leb ip_pkt.ttl 1
      then send_icmp_error c packet ip_pkt orig_dpid orig_port icmp_time_exceeded
          icmp_code_ttl_exceeded r
      else elim (lookup c.maps.core_dpid r.connections) [
        | none ↦ r
        | some connection ↦ elim (lookup dst_zone c.policy.zones) [
          | none ↦ r
          | some gw ↦ send_packet connection (routed_packet gw ip_pkt dst_mac) out_port r
        ]
      ]

  -- The new entry of `_queue_and_resolve`: it is stored, the probe goes out, and the timer starts.
  unfoldable pub open_entry : ℕ → String → Router → Entry × Router
  open_entry dst_ip dst_zone r =
      let entry : Entry = record { zone = dst_zone; queue = []; retries = 1; timer = none } in
      let stored = record r { pending = insert dst_ip entry r.pending } in
      let probed = send_arp_probe c dst_ip dst_zone stored in
      let timer = probed.timers in
      (
        record entry { timer = some timer },
        emit (start_timer timer arp_retry_interval dst_ip) (record probed { timers = suc timer }),
      )

  -- The entry that waits for the address, or a new one.
  unfoldable pub entry_for : ℕ → String → Router → Entry × Router
  entry_for dst_ip dst_zone r = elim (lookup dst_ip r.pending) [
    | none ↦ open_entry dst_ip dst_zone r
    | some entry ↦ (entry, r)
  ]

  -- `_queue_and_resolve`
  unfoldable pub queue_and_resolve : ℕ → ℕ → Ethernet → Ipv4 → String → Router → Router
  queue_and_resolve orig_dpid orig_port packet ip_pkt dst_zone r =
      let (entry, r') = entry_for ip_pkt.dstip dst_zone r in
      let waiting : Queued = record {
        orig_dpid = orig_dpid;
        orig_port = orig_port;
        packet = packet;
        ip_pkt = ip_pkt;
      } in
      record r' {
        pending =
            insert ip_pkt.dstip (record entry { queue = entry.queue ++ (waiting ∷ []) }) r'.pending;
      }

  -- `for (orig_dpid, orig_port, packet, ip_pkt) in entry['queue']` of `_retry_arp`
  unfoldable pub reject_all : List Queued → Router → Router
  reject_all [] r = r
  reject_all (q ∷ queue) r = reject_all queue (
      send_icmp_error c q.packet q.ip_pkt q.orig_dpid q.orig_port icmp_dest_unreach
        icmp_code_host_unreach r)

  unfoldable pub cancel : Option ℕ → Router → Router
  cancel none r = r
  cancel (some timer) r = emit (cancel_timer timer) r

  -- `_retry_arp`
  unfoldable pub retry_arp : ℕ → Router → Router
  retry_arp dst_ip r = elim (lookup dst_ip r.pending) [
    | none ↦ r
    | some entry ↦
        if leb arp_max_retries entry.retries
        then (let stopped = cancel entry.timer r in
            reject_all entry.queue (record stopped { pending = erase dst_ip stopped.pending }))
        else (let probed = send_arp_probe c dst_ip entry.zone r in
            record probed {
              pending = insert dst_ip (record entry { retries = entry.retries + 1 }) probed.pending;
            })
  ]

  -- `for (orig_dpid, orig_port, packet, ip_pkt) in entry['queue']` of `_resolve_pending`
  unfoldable pub forward_all : String → ℕ → EthAddr → List Queued → Router → Router
  forward_all dst_zone out_port mac [] r = r
  forward_all dst_zone out_port mac (q ∷ queue) r =
      forward_all dst_zone out_port mac queue
        (forward_ip q.orig_dpid q.orig_port dst_zone q.packet q.ip_pkt out_port mac r)

  -- `_resolve_pending`; a missing location is a KeyError, which ends the event.
  unfoldable pub resolve_pending : ℕ → EthAddr → Router → Router
  resolve_pending ip mac r = elim (lookup ip r.pending) [
    | none ↦ r
    | some entry ↦
        let stopped = cancel entry.timer (record r { pending = erase ip r.pending }) in
        elim (lookup ip stopped.ip_to_loc) [
          | none ↦ stopped
          | some loc ↦ forward_all entry.zone loc.core_port mac entry.queue stopped
        ]
  ]
