-- ===== src/Submission/Model.antt =====
-- `DraftSource` and `SourceCandidate` of drafts/models.py, and the stored state in which runs,
-- candidates, sources and drafts stand together.
use takulife.Common.{ℕ, String, Bool, Option, List, map, Text}
use takulife.Discovery.Model as Discovery
use takulife.Discovery.Model.{Run, RunStatus, RunnerStatus, CandidateStatus, RunEvent}
use takulife.Review.Model as Review
use takulife.Review.Model.{Draft, Payload}

pub data SourceType : Type 0 where
  rss sitemap html instagram x : SourceType

pub record Source : Type 0 where
  pub pk : ℕ
  pub name : Text
  pub url : Text
  pub source_type : SourceType
  pub enabled : Bool
  pub link_selector : Text

-- `SourceCandidate.FailureStage`
pub data Stage : Type 0 where
  schema duplicate url_safety robots robots_fetch_failed fetch listing_extraction : Stage
  sample_canary sample_mismatch not_domestic : Stage

-- The columns `status`, `failure_stage`, `failure_reason` (with the class of an exception, beside
-- the message of the stage) and `promoted_source`.
pub data Decision : Type 0 where
  failed : Stage → Option String → Decision
  promoted : ℕ → Decision

-- What `validate_payload` makes of a payload; `source_type` is absent where the text is empty.
pub record Cleaned : Type 0 where
  pub name : Text
  pub url : Text
  pub source_type : Option SourceType
  pub link_selector : Text
  pub sample_url : Text
  pub official_basis : Text
  pub note : Text

pub record Candidate : Type 0 where
  pub pk : ℕ
  pub run : ℕ
  pub fields : Cleaned
  pub decision : Decision
  pub created_at : ℕ

pub record Db : Type 0 where
  pub runs : List Run
  pub next_run : ℕ
  pub runner : Option RunnerStatus
  pub candidates : List Candidate
  pub sources : List Source
  pub next_id : ℕ
  pub review : Review.Db

abbrev pub status_of : Decision → CandidateStatus
status_of (failed stage reason) = CandidateStatus.failed
status_of (promoted source) = CandidateStatus.promoted

-- The rows as drafts/discovery_runs.py reads them.
abbrev pub columns : Candidate → Discovery.Candidate
columns c = record { run = c.run; status = status_of c.decision }

abbrev pub event_columns : Draft → RunEvent
event_columns d = record { run = d.payload.discovery_run; source_url = d.payload.source_url }

abbrev pub discovery : Db → Discovery.Db
discovery db = record {
  runs = db.runs;
  next_run = db.next_run;
  runner = db.runner;
  candidates = map columns db.candidates;
  events = map event_columns db.review.drafts;
}

-- `AgentDraftExcludedError.reason`
pub data Exclusion : Type 0 where
  overseas ended : Exclusion

-- `lease` wraps the exceptions of drafts/discovery_runs.py, `draft` those of drafts/services.py;
-- `integrity` is the database's, where no clause names it, and the last line has Python's own and
-- those of the network.
pub data Error : Type 0 where
  lease : Discovery.Error → Error
  draft : Review.Error → Error
  excluded : Exclusion → Error
  candidate_limit event_limit agent_draft_schema integrity : Error
  value_error type_error attribute_error unsafe_url fetch_error : Error
