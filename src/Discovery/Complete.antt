-- ===== src/Discovery/Complete.antt =====
-- The end of a run: `complete_run` of drafts/discovery_runs.py.
pub mod Atomic
use Prim.Native.String.{◌++◌}
use takulife.Common.{
  ℕ, String, Bool, true, false, Option, none, some, List, [], ◌∷◌, map, Text, str_eq, one_of,
  exists, length, select, update, ◌==◌, ◌&&◌, clashes, if◌then◌else◌,
}
use takulife.Common.Exec.{Result, ok, err}
use takulife.Common.Int.{ℤ, clamp}
use takulife.Discovery.Model.{Run, RunStatus, Candidate, RunEvent, EventOutcome, Db, Error}
use takulife.Discovery.Outcomes.{
  Reported, is_promoted, classify_candidate_outcome, classify_event_outcome, combine_outcomes,
  clean_event_outcomes,
}
use takulife.Discovery.Runs.{max_events_per_run, save_run, locked_run_with_valid_lease}

-- The arguments of `complete_run` behind the run and its token; a list that is none is `none`.
pub record Report : Type 0 where
  pub runner_status : String
  pub failure_kind : String
  pub events_attempted : ℤ
  pub events_failed : ℤ
  pub events_excluded : ℤ
  pub event_outcomes : Option (List Reported)

abbrev pub cleaned_attempted : Report → ℕ
cleaned_attempted p = clamp p.events_attempted max_events_per_run

abbrev pub cleaned_failed : Report → ℕ
cleaned_failed p = clamp p.events_failed (cleaned_attempted p)

abbrev pub cleaned_excluded : Report → ℕ
cleaned_excluded p = clamp p.events_excluded max_events_per_run

-- `failure_kind in _ALLOWED_FAILURE_KINDS`
unfoldable pub is_allowed_failure_kind : String → Bool
unfolding one_of
is_allowed_failure_kind kind = one_of kind (
    "agent_error" ∷ "agent_timeout" ∷ "invalid_output" ∷ "exploration_error" ∷ "runner_shutdown"
    ∷ [])

unfoldable pub failure_summary : String → String
unfolding is_allowed_failure_kind
failure_summary kind =
    let summary : String = "러너가 실행 실패를 보고했다" in
    if is_allowed_failure_kind kind then summary ++ " (" ++ kind ++ ")" else summary

-- `run.candidates` and `run.events`
unfoldable pub run_candidates : ℕ → Db → List Candidate
unfolding select
run_candidates id db = select (λ c. c.run == id) db.candidates

unfoldable pub run_events : ℕ → Db → List RunEvent
unfolding select
run_events id db = select (λ e. clashes e.run (some id)) db.events

-- The status and the summary of the two branches.
unfoldable pub final_status : Report → Run → Db → RunStatus × String
unfolding failure_summary run_candidates run_events exists classify_candidate_outcome
    classify_event_outcome combine_outcomes
final_status p run db =
    if str_eq p.runner_status "failed"
    then (
      (if exists (λ c. is_promoted c.status) (run_candidates run.id db)
          then RunStatus.partially_failed
          else RunStatus.failed),
      failure_summary p.failure_kind,
    )
    else (
      combine_outcomes
          (classify_candidate_outcome
            (map (λ (c : Candidate). c.status) (run_candidates run.id db)))
          (classify_event_outcome (cleaned_attempted p) (cleaned_failed p)
            (length (run_events run.id db))),
      run.error_summary,
    )

unfoldable pub finish : Report → RunStatus × String → List EventOutcome → ℕ → Run → Run
finish p (status, summary) outcomes now r = record r {
  status = status;
  error_summary = summary;
  finished_at = some now;
  lease_token = "";
  events_attempted = cleaned_attempted p;
  events_failed = cleaned_failed p;
  events_excluded = cleaned_excluded p;
  event_outcomes = outcomes;
}

-- The stores at the end: nothing is stored if the cleaning of the outcomes raised.
unfoldable pub complete_with :
    Report → ℕ → Run → Db → Result Error (List EventOutcome) → Result Error Run × Db
unfolding final_status finish update
complete_with p now run db (err e) = (err e, db)
complete_with p now run db (ok outcomes) =
    let done = finish p (final_status p run db) outcomes now in
    (ok (done run), save_run run.id done db)

-- `run.events.values_list("source_url")`
abbrev pub created_urls : Run → Db → List Text
created_urls run db = map (λ (e : RunEvent). e.source_url) (run_events run.id db)

module _ (strip : Text → Option Text) where
  unfoldable pub complete_locked : Report → ℕ → Db → Result Error Run → Result Error Run × Db
  unfolding complete_with
  complete_locked p now db (err e) = (err e, db)
  complete_locked p now db (ok run) =
      complete_with p now run db (clean_event_outcomes strip (created_urls run db) p.event_outcomes)

  unfoldable pub complete_run : ℕ → String → Report → ℕ → Db → Result Error Run × Db
  unfolding locked_run_with_valid_lease complete_locked
  complete_run id token p now db =
      complete_locked p now db (locked_run_with_valid_lease id token now db)
