-- ===== src/Extraction.antt =====
-- The extraction of event fields by a language model: drafts/llm_extraction.py.
pub mod Delimiters
mod Tests
