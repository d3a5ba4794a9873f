-- ===== src/Crd.antt =====
-- The custom resources: crd/allocation.rs and crd/cluster_capacity.rs.
pub mod Allocation
pub mod ClusterCapacity
