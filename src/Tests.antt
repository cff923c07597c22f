-- ===== src/Tests.antt =====
-- Runs on concrete inputs.
mod Jobs
mod Auth
mod Identity
mod Correlations
mod Execution
mod Findings
mod Api
