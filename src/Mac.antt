-- ===== src/Mac.antt =====
-- src/ieee802154/mac: the MAC layer's tables, queues and services.
pub mod Waker
pub mod PendingTable
pub mod CombinedPendingTable
pub mod DeviceQueue
pub mod DataService
pub mod Management
pub mod Service
