-- ===== src/Broker.antt =====
-- The broker of a guardian's host, which serves key operations to agents that prove a live grant.
pub mod Lease
pub mod Gate
