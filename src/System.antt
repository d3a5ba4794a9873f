-- ===== src/System.antt =====
-- How the parts work together: the status that controllers/allocation.rs writes is what
-- webhook/handler.rs decides by.
pub mod Freshness
pub mod Admission
pub mod Interleaving
