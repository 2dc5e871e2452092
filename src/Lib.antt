-- ===== src/Lib.antt =====
-- A model of the zone router and firewall of a segmented network, and what is proved of it.
--
-- The program. A POX controller (controller.py) is the router and the firewall between the zones of a
-- small network. policy.json names the zones, each a subnet with a gateway, and the pairs of zones
-- between which traffic is blocked; network.json says which host and which switch is plugged in
-- where. firewall_rules.py loads the policy and decides, network.py loads the layout and derives the
-- port maps that tell the controller the zone of a packet from the port it came in on, and
-- conntrack.py lets replies pass that the policy alone would block. The controller asks a daemon
-- for its decisions, through firewall_client.py, and decides by itself if the daemon cannot be
-- reached.
--
-- The files.
--   * Policy, Policy/Load: firewall_rules.py. The module globals ZONES, BLOCK_ALL_IP and BLOCK_ICMP
--     are the record `Policy`; a PolicyError is a constructor for each message. Policy/Blocks,
--     Policy/Known, Policy/Validity, Policy/Decisions hold proofs; Policy/Shipped is policy.json,
--     Policy/Table the documented table of rules.
--   * Text, Text/Print, Address, Address/Parse, Address/Print: what the program uses of `str`, `re`
--     and `ipaddress`. Address/Overlap holds proofs.
--   * Conntrack: conntrack.py. Conntrack/Expiry, Conntrack/History, Conntrack/Origin and
--     Conntrack/Replies hold proofs.
--   * Network, Network/Load, Network/Hosts: network.py. Network/Shipped is network.json.
--     Network/Unique, Network/Keys, Network/Maps, Network/HostPorts, Network/HostUplinks,
--     Network/Switches, Network/Complete, Network/Errors and Network/Placed hold proofs. Topology: topology.py;
--     Topology/Wiring holds proofs.
--   * Router and the files under it: controller.py. Router holds the packets, the messages and the
--     state; Router/Ports the port maps; Router/Output what is sent and what is learned;
--     Router/Pending the queue of packets that wait for an ARP reply; Router/ArpHandler,
--     Router/IpHandler and Router/Dispatch the handlers. A method is a function from the router to
--     the router, and `run` handles a list of events. Router/Timers says which of the
--     timers run; Router/Frame, Router/Unlearned and the other files hold proofs; Router/Layout and Router/HostZones join the controller to
--     an accepted layout, Router/Start is what it loads when it is imported, and Router/Discovery
--     follows a host from the documents to its location. Router/Passing, Router/Queueing and
--     Router/Deliveries follow a packet from its arrival to its host, and
--     Router/Backends puts the client and the daemon behind the filter.
--   * Client, Client/Addresses: firewall_client.py. Client/Receive and Client/Unbroken hold proofs.
--   * Header: the tables that tools/gen_policy_header.py writes into the header that the daemon is
--     compiled with; Header/Source: the text of that header, and when the tool writes it.
--     Header/Rows and Header/Generated hold proofs. Daemon: the decisions of cpp/firewall_daemon.cpp, and
--     the bytes of its requests and responses; Daemon/Loop: its socket loops; Daemon/Main:
--     its `main`. Daemon/Agreement, Daemon/Exchange, Daemon/Plumbing, Daemon/Serving and
--     Daemon/Clients hold proofs, and so do Daemon/Session and Daemon/Recovery, on many calls of
--     one client, and Daemon/Wire, on the bytes of a request.
--   * Bench: bench_firewall.py. Bench/Sorting, Bench/Percentiles, Bench/Decisions, Bench/Backends and
--     Bench/Main hold proofs.
--   * Base: Python's dicts and lists, equality, exceptions as values, Boolean tests.
--   * Tests: each theorem at a concrete input.
--
-- What stands for what.
--   * An IPv4 address is its number. IPv6 is not modelled; the program's files have none of it.
--   * A JSON document is what `json.load` returns, typed: a key that may be missing is an option, and
--     a value where the source tests for a positive integer is a `Value`. A document whose values
--     have other JSON types than these is not modelled.
--   * A dict is an association list in insertion order, a set a list without repetition.
--   * Times are readings of the clock in nanoseconds. Each method takes as arguments the readings
--     that it makes; a proof assumes of them at most that the clock never runs
--     backwards.
--   * The state of a handler holds what was sent to switches and timers as the list `sent`.
--   * POX is outside. Its packets are records of the fields that the controller uses, an Ethernet
--     address is its text, and `Config` holds what POX computes. A match that POX makes from a
--     packet holds the packet.
--   * The daemon's answer to a packet is part of the event, a failure of the connection included.
--   * A KeyError that a validated document rules out ends the method that raises it.
--   * Logging is left out.
--
-- Loops are structural, except the receive loop of the client and the read loop of the daemon: they
-- run on fuel, and `n + 1` rounds are enough for `n` bytes, since each round reads one at least. So is
-- a round more than there are bytes for the loop over the requests of a connection.
--
-- Not modelled: the schedule of the daemon's threads, so that a thread's write counts as done when it
-- starts, and a SIGPIPE comes at any time; how a C++ compiler reads
-- the header, and Mininet itself; of bench_firewall.py the rounding of floats and the layout of what it
-- prints; argparse; the files of integration and tests, which measure and test.
pub mod Base
mod Text
pub mod Address
pub mod Policy
pub mod Conntrack
pub mod Network
pub mod Router
pub mod Client
pub mod Topology
pub mod Header
pub mod Daemon
pub mod Bench
mod Tests
