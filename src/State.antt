-- ===== src/State.antt =====
-- The lifecycle layer (src/ai_engineering_os/state): which edges exist and who may request them.
mod Examples
pub mod Machine
pub mod FeatureSm
pub mod PlanSm
pub mod TaskSm
pub mod Walk
pub mod WorkPackageSm
