-- ===== src/Reviews.antt =====
-- ki_radar/reviews: the one write path for lifecycle commands.
pub mod Model
pub mod Services
pub mod Lifecycle
pub mod Gates
pub mod Runs
pub mod Starts
