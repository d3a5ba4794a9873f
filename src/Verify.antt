-- ===== src/Verify.antt =====
-- The verification tool, src/bin/erw-verify.
pub mod EnvFile
pub mod Args
pub mod Scenarios
pub mod Run
pub mod Teardown
pub mod Setup
pub mod Manifests
pub mod Degradation
pub mod Enforcement
