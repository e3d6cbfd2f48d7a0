-- ===== src/Submission/Tests.antt =====
-- A run that submits candidates and drafts, for the tests: drafts/candidate_validation.py.
use takulife.Common.{
  Bool, ◌+◌, ◌≤◌, arith, String, true, false, some, none, Option, List, [], ◌∷◌, ◌≡◌, refl, codes,
  first, text_in, count, exists, map, Text,
}
use takulife.Common.Exec.{Result, ok}
use takulife.Discovery.Model.{Run, RunStatus}
use takulife.Discovery.Runs.{locked_run_with_valid_lease}
use takulife.Discovery.Outcomes.{sanitize_text}
use takulife.Review.Model as Review
use takulife.Review.Model.{Draft}
use takulife.Review.Drafts.{new_draft}
use takulife.Submission.Model.{
  Stage, Source, SourceType, failed, promoted, Candidate, Db, Error, discovery,
}
use takulife.Submission.Payload.{str, Payload, text_at, is_domestic, validate_payload}
use takulife.Submission.Intake.{Robots, listed, raw, Prepared, Web, initial_drafts}
use takulife.Submission.Intake.Capped.{drafts, initial_drafts-Capped}
use takulife.Submission.Store.Limited.{IsLimited}
use takulife.Submission.Candidates.{submit_candidate}
use takulife.Submission.Candidates.Answers.{url_of, submit_candidate_again}
use takulife.Submission.Candidates.Passed.{Passed, submit_candidate_promotes}
use takulife.Submission.Candidates.Promotion.{
  IsOpen, with_promoted, promoted_candidate, submit_candidate_done,
}
use takulife.Submission.Checks.{newest_failure}
use takulife.Submission.Checks.Needs.{IsNew, Verified}
use takulife.Submission.Store.{on_url, renewed, source_exists}
use takulife.Submission.Requests.{Request, candidate, account, event, handle_all}
use takulife.Submission.Requests.Within.{handle_all-IsWithin}
use takulife.Submission.Accounts.{register_account_source}
use takulife.Submission.Accounts.Stored.{IsAccount, register_account_source-Leaves}
use takulife.Submission.Store.Kept.{Leaves}
use takulife.Submission.Agent.{Json, text, number, null, plain, object, AgentPayload, Python}
use takulife.Submission.Events.{submit_agent_draft}
use takulife.Submission.Events.Few.{IsWithin}
use takulife.Submission.Events.Accepted.{IsAccepted, submit_agent_draft-IsAccepted}
mod Candidates
mod Requests

abbrev pub env : Review.Platform
env = record {
  publisher = record { netloc_is_valid = λ t. true; fits = λ f. true };
  draft_fits = λ p. true;
}

abbrev pub draft : Text → Review.Payload
draft url = record {
  source_url = url;
  source_name = [];
  raw_title = 44032 ∷ [];
  raw_text = [];
  extracted_title = [];
  extracted_category = "";
  extracted_work_title = [];
  extracted_location_name = [];
  extracted_region = "";
  extracted_start_date = none;
  extracted_end_date = none;
  extracted_summary = [];
  extraction_method = Review.heuristic;
  origin = Review.collected;
  intake_note = [];
  discovery_run = none;
}

-- A listing of one page.
abbrev pub web : Web
web = record {
  unsafe = λ t. none;
  robots = λ t. Robots.allowed;
  listing = λ c. listed (codes "https://a.kr/1" ∷ []);
  sample = λ t. raw (codes "Live") [];
  prepare = λ t. Prepared.page (draft t);
  mentioned = λ t. [];
}

-- The one page is closed to robots.
abbrev pub closed : Web
closed = record web { robots = λ t. Robots.disallowed }

abbrev pub run : Run
run = record {
  id = 1;
  requested_by = none;
  status = RunStatus.claimed;
  provider = "";
  query = "";
  lease_token = "t";
  lease_expires_at = some 2000;
  lease_count = 1;
  events_attempted = 0;
  events_failed = 0;
  events_excluded = 0;
  event_outcomes = [];
  error_summary = "";
  created_at = 0;
  started_at = some 200;
  finished_at = none;
}

abbrev pub empty : Db
empty = record {
  runs = run ∷ [];
  next_run = 2;
  runner = none;
  candidates = [];
  sources = [];
  next_id = 1;
  review = record {
    site = record { events = []; categories = []; next_id = 1; action_log = [] };
    drafts = [];
    next_draft = 1;
  };
}

abbrev pub payload : String → String → Payload
payload type url =
    ("name", str (codes "A"))
    ∷ ("url", str (codes url))
    ∷ ("source_type", str (codes type))
    ∷ ("sample_url", str (codes "https://a.kr/1"))
    ∷ ("source_country", str (codes "kr"))
    ∷ []

abbrev pub list_payload : Payload
list_payload = payload "html" "https://a.kr/"

pub empty-IsLimited : IsLimited empty
unfolding count
empty-IsLimited = record {
  room = λ r. omega arith;
  once = λ r u. omega arith;
  sources_once = λ u. omega arith;
  backed = tt;
}
