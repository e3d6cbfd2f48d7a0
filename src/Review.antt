-- ===== src/Review.antt =====
-- The review of drafts: drafts/services.py over `EventDraft` of drafts/models.py.
pub mod Model
pub mod Drafts
mod Machine
mod Tests
