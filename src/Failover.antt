-- ===== src/Failover.antt =====
-- internal/gateway/gateway.go, the target loop of `proxy`: retry within a target, failover to the
-- next one, provider admission around each attempt, and the status when no target answers.
pub mod Retry
pub mod Targets
pub mod Rules
pub mod Passes
pub mod Slots
pub mod Order
pub mod Tally
pub mod Counters
pub mod Ending
pub mod Availability
pub mod Conditions
pub mod Delivery
mod Tests
