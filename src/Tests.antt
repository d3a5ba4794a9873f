-- ===== src/Tests.antt =====
-- Sample runs of the models, and the theorems at concrete inputs.
mod Samples
mod Budget
mod Decision
mod Servers
mod Control
mod Fleet
mod Whole
mod Tool
mod Degraded
mod Crowded
mod Enforced
mod Installed
