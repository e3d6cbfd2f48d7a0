-- ===== src/Submission/Tests/Candidates.antt =====
-- The theorems on candidates, at a page: drafts/candidate_validation.py.
use takulife.Common.{
  ◌+◌, ◌≤◌, arith, true, false, some, none, [], ◌∷◌, ◌≡◌, refl, codes, first, text_in, count,
  exists,
}
use takulife.Common.Exec.{ok}
use takulife.Discovery.Model.{Run}
use takulife.Discovery.Runs.{locked_run_with_valid_lease}
use takulife.Discovery.Outcomes.{sanitize_text}
use takulife.Review.Model as Review
use takulife.Review.Model.{Draft}
use takulife.Submission.Model.{Source, SourceType, Candidate, Db, discovery}
use takulife.Submission.Payload.{text_at, is_domestic, validate_payload}
use takulife.Submission.Intake.{initial_drafts}
use takulife.Submission.Intake.Capped.{drafts, initial_drafts-Capped}
use takulife.Submission.Candidates.{submit_candidate}
use takulife.Submission.Candidates.Answers.{url_of, submit_candidate_again}
use takulife.Submission.Candidates.Passed.{Passed, submit_candidate_promotes}
use takulife.Submission.Candidates.Promotion.{
  IsOpen, with_promoted, promoted_candidate, submit_candidate_done,
}
use takulife.Submission.Checks.{newest_failure}
use takulife.Submission.Checks.Needs.{IsNew, Verified}
use takulife.Submission.Store.{on_url, renewed, source_exists}
use takulife.Submission.Tests.{env, web, closed, run, empty, payload, list_payload, empty-IsLimited}

-- The state after the page was promoted.
abbrev first_done : Db
first_done = (submit_candidate env web 0 30 (λ s. s) 1 "t" list_payload 300 310 empty).1

abbrev page : Candidate
page = promoted_candidate 1 310 (validate_payload list_payload).0 SourceType.html true empty

first_run :
    submit_candidate env web 0 30 (λ s. s) 1 "t" list_payload 300 310 empty ≡ (ok page, first_done)
unfolding submit_candidate renewed validate_payload
first_run = refl

abbrev renewed_run : Run
renewed_run = record run { lease_expires_at = some 2110 }

first_lease : locked_run_with_valid_lease 1 "t" 400 (discovery first_done) ≡ ok renewed_run
unfolding submit_candidate locked_run_with_valid_lease renewed
first_lease = refl

same_address : url_of (payload "rss" "https://a.kr/") ≡ url_of list_payload
unfolding text_at sanitize_text
same_address = refl

-- Another request for the same address, when the pages have closed.
submit_candidate_again_example :
    submit_candidate env closed 1 0
      (λ s. s)
      1
      "t"
      (payload "rss" "https://a.kr/")
      400
      410
      first_done
    ≡ (ok page, first_done)
submit_candidate_again_example =
    submit_candidate_again env env web closed 0 1 30 0 (λ s. s) (λ s. s) 1 "t" "t" list_payload
      (payload "rss" "https://a.kr/") 300 310 400 410 empty first_done page renewed_run
      empty-IsLimited empty-IsLimited first_run first_lease same_address

absent : first (on_url 1 (url_of list_payload)) empty.candidates ≡ none
unfolding first
absent = refl

-- Of the page that was promoted, the checks are known to have passed.
submit_candidate_promotes_example : Passed web list_payload 300 empty
submit_candidate_promotes_example =
    submit_candidate_promotes env web 0 30 (λ s. s) 1 "t" list_payload 300 310 1 empty first_done
      page absent absent first_run refl

page-IsNew : IsNew list_payload 300 empty
unfolding validate_payload exists newest_failure is_domestic
page-IsNew = record { valid = refl; unknown = refl; not_failed = refl; domestic = refl }

page-Verified : Verified web (validate_payload list_payload).0 (codes "https://a.kr/1" ∷ [])
unfolding validate_payload text_in
page-Verified = record {
  safe = refl;
  sample_safe = refl;
  robots = refl;
  sample_robots = refl;
  listing = refl;
  sample_listed = refl;
  sample_text = (codes "Live", [], refl, refl);
}

page-IsOpen : IsOpen 1 "t" 300 (url_of list_payload) empty
unfolding locked_run_with_valid_lease count first
page-IsOpen = record { run = run; lease = refl; room = refl; absent = refl }

page_later-IsOpen : IsOpen 1 "t" 310 (url_of list_payload) empty
unfolding locked_run_with_valid_lease count first
page_later-IsOpen = record { run = run; lease = refl; room = refl; absent = refl }

unknown : source_exists (url_of list_payload) empty ≡ false
unfolding exists
unknown = refl

submit_candidate_done_example :
    (t : SourceType) × (r : Review.Db) × ((validate_payload list_payload).0.source_type ≡ some t)
    × (submit_candidate env web 0 30 (λ s. s) 1 "t" list_payload 300 310 empty ≡ (
      ok (promoted_candidate 1 310 (validate_payload list_payload).0 t true empty),
      record (with_promoted 1 310 (validate_payload list_payload).0 t true empty) { review = r },
    ))
submit_candidate_done_example =
    submit_candidate_done env web 0 30 (λ s. s) 1 "t" list_payload 300 310
      (codes "https://a.kr/1" ∷ []) empty page-IsNew page-Verified page-IsOpen page_later-IsOpen
      unknown

abbrev source : Source
source = record {
  pk = 1;
  name = codes "A";
  url = codes "https://a.kr/";
  source_type = SourceType.html;
  enabled = true;
  link_selector = [];
}

-- One page of the listing is a draft already.
initial_drafts-Capped_example :
    (initial_drafts env web 0 source 30 (codes "b" ∷ []) 0 0 (codes "a" ∷ codes "b" ∷ []) empty
      ≡ record empty {
        review =
            (initial_drafts env web 0 source 30
              (codes "b" ∷ [])
              0
              0
              (codes "a" ∷ codes "b" ∷ [])
              empty).review;
      })
    × (drafts (
            initial_drafts env web 0 source 30
              (codes "b" ∷ [])
              0
              0
              (codes "a" ∷ codes "b" ∷ [])
              empty)
          + 0
        ≤ drafts empty + 5)
initial_drafts-Capped_example =
    initial_drafts-Capped env web 0 source 30 (codes "b" ∷ []) 0 0 (codes "a" ∷ codes "b" ∷ [])
      empty (omega arith)
