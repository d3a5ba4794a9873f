-- ===== src/Controllers.antt =====
-- The cluster controllers: controllers/node_filter.rs, controllers/node_capacity.rs and
-- controllers/allocation.rs.
pub mod NodeFilter
pub mod Singleton
pub mod Demand
pub mod Supply
