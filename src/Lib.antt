-- ===== src/Lib.antt =====
-- A model of KI-Radar, a Django application that leads AI use cases from the idea to the end of
-- their operation, and proofs about it.
--
-- The program. A use case (ki_radar/use_cases/models.py) has a lifecycle status and a decision
-- status. Lifecycle commands go through `create_review` (ki_radar/reviews/services.py), which asks
-- the policy (ki_radar/use_cases/transition_policy.py), leaves a review row and changes the use case
-- in one transaction. The policy reads the decision status, which the decisions
-- (ki_radar/use_cases/services.py) set, the screening and the formal reviews (ki_radar/governance),
-- and the handover of the current Delivery Package (ki_radar/delivery). Go-live also asks for the
-- scale readiness (ki_radar/use_cases/scale_readiness.py), and a handover counts while the readiness
-- rules (ki_radar/delivery/readiness.py) report no blocker. The accelerator (ki_radar/accelerator)
-- writes what a language model proposed for a text field into the field, once a user adopts it. The
-- architecture advisor (ki_radar/architecture/architecture_advisor.py) stands alone.
--
-- The files.
--   Common           Python's values: Boolean tests, lists, texts as code points, decimals as
--                    integers, exceptions as the type Result
--   Clock            the current time and the local day of a time
--   Accounts         ki_radar/accounts/models.py and permissions.py
--   UseCases         ki_radar/use_cases: Model and DecisionModel (models.py), Permissions
--                    (permissions.py), TransitionPolicy (transition_policy.py), Fields, Approval,
--                    Decisions and Checks (services.py), Ideas (idea_models.py, idea_views.py and
--                    intake_views.py), and ScaleReadiness (scale_readiness.py): Evidence, Findings,
--                    Rules and Snapshot follow its parts
--   Governance       ki_radar/governance: Model (models.py), Status (services.py), Actions
--                    (services.py and views.py)
--   Delivery         ki_radar/delivery: Model (models.py), Handover (handover.py), Permissions
--                    (permissions.py), Sections (services.py), Packages (services.py and
--                    lean_services.py), Readiness (readiness.py and the current package of
--                    services.py): Content, Patterns, Findings, Semantics, Latency, Retention and
--                    Rules follow its parts; SourceChange (services.py), the decision on a changed
--                    technical owner
--   Accelerator      ki_radar/accelerator: Model (models.py), Candidates (candidate_state.py,
--                    candidate_snapshot.py and adoption_policy.py), Adoption (adoption_service.py and
--                    adoption_audit.py), Creation (candidate_snapshot.py), Capture (services.py,
--                    catalogs.py, retention.py and retention_policy.py)
--   Reviews          ki_radar/reviews: Model (models.py) and Services (services.py); Lifecycle, Gates,
--                    Runs and Starts hold its properties
--   Architecture     ki_radar/architecture/architecture_advisor.py
--   CaseFile         a use case with all rows that point to it
--   Samples          concrete cases
-- A function of the model has the name of the function that it models, without a leading underscore.
-- A child module of a component holds its properties and is named for what they are about.
--
-- The code and the documents. Three gates ask for less than docs/DECISION_METHOD.md,
-- docs/DISCOVERY_ARCHITECTURE.md, docs/SCALE_READINESS.md and docs/OUTCOME_WORKSPACE.md say: the
-- positive approval and the pilot start do not ask for the metric, and the go-live does not ask for
-- most of the scale readiness. docs/planning/LEAN_WORKFLOW_TARGET_POLICY.md describes what the code
-- does. The model follows the code.
--
-- State. A case is a `CaseFile`: the use case and the lists of its rows, which stand for the reverse
-- relations. A handler takes a case and gives the new one or an exception; since the handlers run in
-- `transaction.atomic`, an exception leaves the case as it was. `first()` on an ordered query is
-- `first_by` with the order. `next_pk` is the key of the next row. Rows that a handler changes are
-- found by their key. Sequences of requests are lists, run one after the other. Handlers that overlap
-- in time are not modelled: `create_review`, the handover and the dismissal of an idea lock their row,
-- the decisions do not.
--
-- Values. Times and days are natural numbers, and the clock gives the day of a time. Foreign keys are
-- natural numbers. Choice fields are data types, messages are named by constructors, and texts are
-- lists of code points. The metric's decimals are integers in units of their last place. Evidence
-- values are absent, flags or texts. No definition needs fuel: all recursion is on lists.
--
-- Parameters. The readiness rules ask an `Engine` of its regular expressions (`search`, `sub`,
-- the starts and groups of the matches), of `re.split`, of `casefold` and of the whitespace of
-- `strip`; a time is the whole number of milliseconds that `float` reads. The adoption asks a
-- `Contract` of the normal form NFC, of the hash and of the current versions of the catalogs;
-- what the form of the target makes of a text is a function `clean`. A capture session asks a
-- table `catalogs` for its questions and a `setting` for the days that a completed one is kept. A
-- decimal of the scale readiness is a whole number of hundredths, and a text that is none is told
-- apart.
--
-- Not modelled: forms beyond what they require of ideas, views beyond those of governance and of
-- ideas, templates, reports and exports; how a new package is filled from its sources and
-- refreshed; the steps of the intake; of the accelerator the questions of the catalogs, the
-- analyses and the calls of language models and the adoption of groups; the solution options, and
-- the read-only presentation of the state. The mark as ready and the handover read their findings
-- (`enforcement_findings`) from the section reviews, since of all findings of the readiness rules
-- they keep only the blocked sections. The order of the second approvers by name is left out,
-- since only membership is read. From Django the model takes the meaning of queries, of
-- `full_clean` on the two required fields of a decision, and of `timezone.localdate`.
pub mod Common
pub mod Clock
pub mod Accounts
pub mod Architecture
pub mod Accelerator
pub mod UseCases
pub mod Governance
pub mod Delivery
pub mod Reviews
pub mod CaseFile
pub mod Samples
