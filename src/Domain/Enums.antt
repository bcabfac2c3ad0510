-- ===== src/Domain/Enums.antt =====
-- domain/enums.py
mod Status
mod Kinds
mod Actors
pub use Status.*
pub use Kinds.*
pub use Actors.*
