-- ===== src/Events.antt =====
-- The notification layer (src/ai_engineering_os/events), on its receiving side.
pub mod Listener
mod Examples
