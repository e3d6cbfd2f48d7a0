-- ===== src/Submission/Candidates.antt =====
-- `submit_candidate` of drafts/candidate_validation.py. The clock is read as `now` before the network
-- is used and as `later` after it; `rival` is what other requests commit meanwhile.
use takulife.Common.{
  ℕ, is_some, String, true, not, ◌&&◌, Option, none, some, List, count, exists, first, select, Text,
}
use takulife.Common.Exec.{Exec, pure, gets, modify, raise_if, atomic, ◌>>=◌, ◌>>◌}
use takulife.Discovery.Model.{Run}
use takulife.Review.Model as Review
use takulife.Review.Drafts.{has_source}
use takulife.Submission.Model.{
  Source, SourceType, Stage, Cleaned, Candidate, Db, Error, candidate_limit,
}
use takulife.Submission.Payload.{Payload, text_at, cleaned_text, validate_payload, max_url_length}
use takulife.Submission.Intake.{Web, initial_drafts}
use takulife.Submission.Store.{on_url, leased_run, is_full, save_failed_candidate, promote}
use takulife.Submission.Checks.{Finding, fails, passes, find}
pub mod Answers
pub mod Passed
pub mod Promotion

-- The candidate of the run that is there for the URL; else the run has room.
unfoldable pub answered_before : Text → Run → Exec Db Error (Option Candidate)
unfolding first count
answered_before url run = do
  existing ← gets (λ (db : Db). first (on_url run.id url) db.candidates)
  full ← gets (is_full run.id)
  raise_if (not (is_some existing) && full) candidate_limit
  pure existing

unfoldable pub early_answer : ℕ → String → ℕ → Text → Exec Db Error (Option Candidate)
unfolding leased_run answered_before
early_answer id token now url = atomic (do run ← leased_run id token now; answered_before url run)

module _ (env : Review.Platform) (web : Web) (today budget : ℕ) where
  -- The drafts of a source that was stored.
  unfoldable pub make_drafts : Option Source → List Text → Exec Db Error (Unit {0})
  unfolding initial_drafts
  make_drafts none found = pure tt
  make_drafts (some source) found = modify (λ (db : Db).
      initial_drafts env web today source budget
        (select (λ url. exists (has_source url) db.review.drafts) found) 0 0 found db)

  unfoldable pub promote_with :
      ℕ → String → ℕ → Cleaned → List Text → Option SourceType → Exec Db Error Candidate
  unfolding promote make_drafts save_failed_candidate
  promote_with id token later cleaned found none =
      save_failed_candidate id token later cleaned Stage.schema none
  promote_with id token later cleaned found (some source_type) = do
    stored ← promote id token later cleaned source_type true
    make_drafts stored.1 found
    pure stored.0

  unfoldable pub conclude : ℕ → String → ℕ → Cleaned → Finding → Exec Db Error Candidate
  unfolding promote_with save_failed_candidate
  conclude id token later cleaned (fails stage reason) =
      save_failed_candidate id token later cleaned stage reason
  conclude id token later cleaned (passes found) =
      promote_with id token later cleaned found cleaned.source_type

  module _ (rival : Db → Db) where
    unfoldable pub submit_new : ℕ → String → Payload → ℕ → ℕ → Exec Db Error Candidate
    unfolding conclude find validate_payload
    submit_new id token p now later db =
        conclude id token later (validate_payload p).0 (find web p now db) (rival db)

    unfoldable pub answer_or_submit :
        ℕ → String → Payload → ℕ → ℕ → Option Candidate → Exec Db Error Candidate
    unfolding submit_new
    answer_or_submit id token p now later (some c) = pure c
    answer_or_submit id token p now later none = submit_new id token p now later

    unfoldable pub submit_candidate : ℕ → String → Payload → ℕ → ℕ → Exec Db Error Candidate
    unfolding early_answer answer_or_submit text_at
    submit_candidate id token p now later = do
      existing ← early_answer id token now (cleaned_text max_url_length (text_at "url" p))
      answer_or_submit id token p now later existing
