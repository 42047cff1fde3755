-- ===== src/LoadBalancer.antt =====
-- The load balancer (internal/loadbalancer).
pub mod Status
pub mod Select
pub mod Balancer
pub mod Registry
pub mod Tracker
