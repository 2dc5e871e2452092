-- ===== src/Tests.antt =====
-- Every theorem at a concrete input, and tests of the definitions.
mod Benchmarks
mod Addresses
mod Policies
mod Connections
mod Routers
mod Clients
mod Daemons
mod Networks
mod Queues
mod Deliveries
mod Tracking
mod Start
mod Sessions
mod Backends
mod Headers
