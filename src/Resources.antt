-- ===== src/Resources.antt =====
-- resources/quantity.rs: quantities, and what a pod requests.
pub mod Quantity
pub mod PodRequests
