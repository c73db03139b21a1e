-- ===== src/Delivery.antt =====
-- ki_radar/delivery: the Delivery Package, its section reviews and its handover.
pub mod Model
pub mod Handover
pub mod Permissions
pub mod Sections
pub mod Packages
pub mod Readiness
pub mod SourceChange
