-- ===== src/Discovery/Model.antt =====
-- The rows of drafts/models.py that the discovery works on, and the exceptions of
-- drafts/discovery_runs.py. Times are seconds; a foreign key is the number of a row.
use takulife.Common.{ℕ, String, Bool, true, false, Option, List, Text}

pub data RunStatus : Type 0 where
  pending claimed succeeded partially_failed failed expired : RunStatus

abbrev pub is_pending : RunStatus → Bool
is_pending RunStatus.pending = true
is_pending _ = false

abbrev pub is_claimed : RunStatus → Bool
is_claimed RunStatus.claimed = true
is_claimed _ = false

-- `status__in=[PENDING, CLAIMED]`
abbrev pub is_active : RunStatus → Bool
is_active RunStatus.pending = true
is_active RunStatus.claimed = true
is_active _ = false

-- One entry of `event_outcomes`.
pub record EventOutcome : Type 0 where
  pub url : Text
  pub outcome : String
  pub reason : String

pub record Run : Type 0 where
  pub id : ℕ
  pub requested_by : Option ℕ
  pub status : RunStatus
  pub provider : String
  pub query : String
  pub lease_token : String
  pub lease_expires_at : Option ℕ
  pub lease_count : ℕ
  pub events_attempted : ℕ
  pub events_failed : ℕ
  pub events_excluded : ℕ
  pub event_outcomes : List EventOutcome
  pub error_summary : String
  pub created_at : ℕ
  pub started_at : Option ℕ
  pub finished_at : Option ℕ

-- `SourceCandidate.Status`, blank until the candidate is decided.
pub data CandidateStatus : Type 0 where
  undecided promoted failed : CandidateStatus

pub record Candidate : Type 0 where
  pub run : ℕ
  pub status : CandidateStatus

-- The columns of `EventDraft` that a run reads through `run.events`.
pub record RunEvent : Type 0 where
  pub run : Option ℕ
  pub source_url : Text

pub data Phase : Type 0 where
  idle exploring reading submitting completing : Phase

-- `DiscoveryRunnerStatus`, the one row with pk 1.
pub record RunnerStatus : Type 0 where
  pub last_heartbeat_at : ℕ
  pub provider : String
  pub phase : Phase
  pub phase_detail : Text
  pub phase_updated_at : Option ℕ
  pub current_run : Option ℕ
  pub offline_at : Option ℕ

pub record Db : Type 0 where
  pub runs : List Run
  pub next_run : ℕ
  pub runner : Option RunnerStatus
  pub candidates : List Candidate
  pub events : List RunEvent

-- `RunnerOfflineError`, `DiscoveryRunActiveError`, `LeaseInvalidError`, `DoesNotExist`, and
-- what Python raises for an unhashable key and for a text that is no URL.
pub data Error : Type 0 where
  runner_offline run_active lease_invalid does_not_exist type_error value_error : Error
