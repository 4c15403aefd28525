-- ===== src/Execution.antt =====
-- glassbox/execution: the order ids, the router and the lifecycle of the orders.
pub mod Ids
pub mod Router
pub mod Lifecycle
