-- ===== src/Domain.antt =====
-- The pure domain layer (src/ai_engineering_os/domain).
mod Examples
pub mod Enums
pub mod Conditions
pub mod Actor
pub mod Task
pub mod Feature
pub mod Plan
pub mod Qa
pub mod Evidence
pub mod WorkPackage
pub mod Decision
pub mod Event
