-- ===== src/UseCases.antt =====
-- ki_radar/use_cases: the use case, its decisions and the policy of its lifecycle.
pub mod Model
pub mod Permissions
pub mod DecisionModel
pub mod TransitionPolicy
pub mod Fields
pub mod Approval
pub mod Decisions
pub mod Checks
pub mod Ideas
pub mod ScaleReadiness
