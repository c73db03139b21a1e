-- ===== src/Architecture.antt =====
-- ki_radar/architecture: the architecture advisor.
pub mod Advisor
