-- ===== src/Equalizer.antt =====
-- src/equalizer: the budgets of a fleet of clusters.
pub mod Algorithm
pub mod Resolve
pub mod Reconcile
pub mod Run
