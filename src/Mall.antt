-- ===== src/Mall.antt =====
-- internal/rpc/mall/domain: the points mall, an exchange of points for goods as a saga over three
-- service-owned databases (orders, inventory, points).
pub mod Sql
pub mod Payload
pub mod Inventory
pub mod Points
pub mod Orders
mod Tests
