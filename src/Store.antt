-- ===== src/Store.antt =====
-- internal/store: the outbox table and every statement that the dispatcher runs on it.
--
-- `Store.Table` is the row and the general update, `Store.Queries` the SQL of queries.go,
-- `Store.Operations` the methods of store.go around it; the other modules prove what they keep.
pub mod Table
pub mod Queries
pub mod Operations
pub mod Partitions
pub mod Migrations
pub mod Batches
pub mod System
pub mod Invariant
pub mod Transitions
pub mod Delivered
pub mod Removal
pub mod Lifecycle
pub mod Leases
pub mod Accounting
pub mod Outcomes
pub mod Budget
pub mod Claims
pub mod Order
pub mod Paging
pub mod WriteBacks
pub mod Unsent
