-- ===== src/Core.antt =====
-- The kernel layer (src/ai_engineering_os/core), the only one that mutates state.
pub mod Routing
pub mod ContextLoader
pub mod Rendering
pub mod Runner
pub mod Mutations
pub mod Requests
pub mod Kernel
pub mod Safety
pub mod Record
pub mod Outcome
pub mod Reasons
pub mod Durable
pub mod Eligibility
mod Examples
