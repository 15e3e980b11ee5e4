-- ===== src/Beacon.antt =====
-- beacon/src/beacon/__main__.py: the process that puts scheduled items on air.
pub mod Reconcile
pub mod Enqueue
pub mod Content
pub mod Transmit
pub mod Monitor
pub mod Due
pub mod Drain
