-- ===== src/Rules.antt =====
-- The rule layer (src/ai_engineering_os/rules).
mod Examples
pub mod Codes
pub mod Facts
pub mod Context
pub mod Results
pub mod Engine
pub mod Selection
pub mod Authority
pub mod Dependencies
pub mod Planning
pub mod Submission
pub mod Evidence
pub mod Verification
pub mod Acceptance
pub mod Registry
