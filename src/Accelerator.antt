-- ===== src/Accelerator.antt =====
-- ki_radar/accelerator: the adoption of suggested texts.
pub mod Model
pub mod Candidates
pub mod Adoption
pub mod Creation
pub mod Capture
