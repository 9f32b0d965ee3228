-- ===== src/AuthorSession.antt =====
-- authorsession/session.go: the protocol of one authenticated, goal-directed authoring process.
pub mod Types
pub mod Origins
pub mod Vocabulary
pub mod Goal
pub mod Server
pub mod Contexts
pub mod Reduce
pub mod Actions
pub mod Start
pub mod Observing
pub mod HumanInput
pub mod Execution
pub mod Outputs
pub mod Finish
pub mod Serve
pub mod Rules
pub mod Approvals
pub mod Evidence
