-- ===== src/Webhook.antt =====
-- The admission webhook: webhook/error.rs, webhook/admission.rs and webhook/handler.rs.
pub mod Failure
pub mod Admission
pub mod Summary
pub mod Evaluate
pub mod Observe
pub mod Handler
