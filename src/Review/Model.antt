-- ===== src/Review/Model.antt =====
-- `EventDraft` of drafts/models.py, the exceptions of drafts/services.py, and the stored state:
-- the drafts beside the events. Dates are days, times are seconds; the confidence, which the
-- services pass on, and the stamps that Django sets by itself are left out.
use takulife.Common.{ℕ, String, Bool, Option, List, Text}
use takulife.Publishing.Model as Publishing

pub data ReviewStatus : Type 0 where
  pending approved rejected : ReviewStatus

pub data Origin : Type 0 where
  collected user_report : Origin

pub data ExtractionMethod : Type 0 where
  heuristic llm : ExtractionMethod

-- What a caller gives for a new draft: `DraftPayload` with the source's name, or the arguments of
-- `create_draft_from_fields`.
pub record Payload : Type 0 where
  pub source_url : Text
  pub source_name : Text
  pub raw_title : Text
  pub raw_text : Text
  pub extracted_title : Text
  pub extracted_category : String
  pub extracted_work_title : Text
  pub extracted_location_name : Text
  pub extracted_region : String
  pub extracted_start_date : Option ℕ
  pub extracted_end_date : Option ℕ
  pub extracted_summary : Text
  pub extraction_method : ExtractionMethod
  pub origin : Origin
  pub intake_note : Text
  pub discovery_run : Option ℕ

pub record Draft : Type 0 where
  pub pk : ℕ
  pub payload : Payload
  pub review_status : ReviewStatus
  pub reviewed_by : Option ℕ
  pub approved_at : Option ℕ
  pub rejected_at : Option ℕ
  pub rejection_reason : Text
  pub reopened_at : Option ℕ

pub record Db : Type 0 where
  pub site : Publishing.Db
  pub drafts : List Draft
  pub next_draft : ℕ

-- `uncaught` is an exception that no clause of the function names.
pub data Error : Type 0 where
  draft_state draft_immutable_field draft_vocab draft_not_found : Error
  draft_publication_duplicate draft_publication_missing_official_url : Error
  draft_publication draft_publication_title draft_creation_duplicate : Error
  uncaught : Publishing.Error → Error

-- An entry of `updates`; `other` is a name outside `mutable_fields`.
pub data Update : Type 0 where
  source_name extracted_title extracted_work_title : Text → Update
  extracted_location_name extracted_summary : Text → Update
  extracted_category extracted_region : String → Update
  extracted_start_date extracted_end_date : Option ℕ → Update
  other : String → Update

-- What is taken from Python and from the database: the platform of the publisher, and which
-- drafts fit the widths of their columns.
pub record Platform : Type 0 where
  pub publisher : Publishing.Platform
  pub draft_fits : Payload → Bool
