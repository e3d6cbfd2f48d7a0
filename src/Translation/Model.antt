-- ===== src/Translation/Model.antt =====
-- The rows and the values of events/translation_queue.py and events/content_translation.py: what
-- `Event.text_translations` of events/models.py holds, and what a runner submits.
use takulife.Common.{ℕ, String, Bool, Option, List, Text}

-- `TARGET_LANGUAGES`
pub data Language : Type 0 where
  en ja zh_hans : Language

-- A dictionary with the target languages as its keys.
pub record PerLanguage (A : Type 0) : Type 0 where
  pub in_en : A
  pub in_ja : A
  pub in_zh_hans : A

-- `TRANSLATED_FIELDS`
pub record Fields : Type 0 where
  pub title : Text
  pub work_title : Text
  pub location_name : Text
  pub summary : Text

-- What the column holds: a value of a language is absent, or has all fields; the hash is absent where
-- the staff wrote the column without one.
pub record Stored : Type 0 where
  pub source_hash : Option ℕ
  pub manual : Bool
  pub languages : PerLanguage (Option Fields)

-- The columns of an event that the queue reads; the translations are absent where the column holds
-- no dictionary, or an empty one.
pub record Event : Type 0 where
  pub pk : ℕ
  pub is_published : Bool
  pub fields : Fields
  pub text_translations : Option Stored

-- What JSON gives for a submission: the values of a language, the languages, and the whole.
pub data Value : Type 0 where
  str : Text → Value
  not_str : Value

pub data LanguageValue : Type 0 where
  dict : List (String × Value) → LanguageValue
  not_dict : LanguageValue

pub data Translations : Type 0 where
  dict : List (String × LanguageValue) → Translations
  not_dict : Translations

-- The codes of `SubmissionRejectedError`
pub data Error : Type 0 where
  schema nul not_found manual_locked stale_source : Error

-- `SubmissionOutcome`, with the reason of each language that was quarantined
pub data Outcome : Type 0 where
  already_current : Outcome
  saved : List Language → PerLanguage (Option String) → Outcome

-- The hash of the fields, the normal form of a text, and the reason for which the translation of
-- the fields to a language is quarantined.
pub record Rules : Type 0 where
  pub source_hash : Fields → ℕ
  pub normalize : Text → Text
  pub quarantine_reason : Language → Fields → Fields → Option String
