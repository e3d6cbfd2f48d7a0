-- ===== src/Translation.antt =====
-- The queue of translations: events/translation_queue.py, with the parts of
-- events/content_translation.py that it stands on.
pub mod Model
pub mod Rules
pub mod Queue
pub mod Quarantine
mod Tests
