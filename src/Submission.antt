-- ===== src/Submission.antt =====
-- What a runner submits under its lease: drafts/candidate_validation.py, drafts/candidate_intake.py
-- and the submission of drafts/agent_drafts.py.
pub mod Model
pub mod Payload
pub mod Intake
pub mod Store
pub mod Checks
pub mod Candidates
pub mod Accounts
pub mod Requests
pub mod Agent
pub mod Events
mod Tests
