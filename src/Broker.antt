-- ===== src/Broker.antt =====
-- src/broker: the broker's tables and the operations on them.
pub mod State
pub mod Lease
pub mod Rooms
pub mod Mailbox
pub mod Ratelimit
pub mod Policy
pub mod World
pub mod Hello
pub mod Relay
pub mod Routing
pub mod Control
pub mod Leasing
pub mod Dispatch
pub mod Steps
pub mod Samples
