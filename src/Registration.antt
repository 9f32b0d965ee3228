-- ===== src/Registration.antt =====
-- The no-submit registration author session: package registrationauthorsession.
pub mod Types
pub mod Profile
pub mod Origins
pub mod Bounds
pub mod Control
pub mod Verification
pub mod Server
pub mod Reduce
pub mod Actions
pub mod Handlers
pub mod Review
pub mod Evidence
pub mod Binding
pub mod Session
pub mod Serve
pub mod Rules
pub mod Lifecycle
pub mod Completion
pub mod Sent
