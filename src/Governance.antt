-- ===== src/Governance.antt =====
-- ki_radar/governance: the screening of a use case and its formal reviews.
pub mod Model
pub mod Status
pub mod Actions
