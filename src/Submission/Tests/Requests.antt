-- ===== src/Submission/Tests/Requests.antt =====
-- The theorems on accounts, events and sequences of requests, at one of each:
-- drafts/candidate_validation.py and drafts/agent_drafts.py.
use takulife.Common.{
  Bool, arith, true, false, some, none, Option, List, [], ◌∷◌, ◌≡◌, refl, codes, count, map, Text,
}
use takulife.Common.Exec.{Result, ok}
use takulife.Review.Model as Review
use takulife.Review.Model.{Draft}
use takulife.Review.Drafts.{new_draft}
use takulife.Submission.Model.{Stage, failed, promoted, Candidate, Db, Error}
use takulife.Submission.Payload.{Payload}
use takulife.Submission.Candidates.{submit_candidate}
use takulife.Submission.Requests.{Request, candidate, account, event, handle_all}
use takulife.Submission.Requests.Within.{handle_all-IsWithin}
use takulife.Submission.Accounts.{register_account_source}
use takulife.Submission.Accounts.Stored.{IsAccount, register_account_source-Leaves}
use takulife.Submission.Store.Kept.{Leaves}
use takulife.Submission.Agent.{Json, text, number, null, plain, object, AgentPayload, Python}
use takulife.Submission.Events.{submit_agent_draft}
use takulife.Submission.Events.Few.{IsWithin}
use takulife.Submission.Events.Accepted.{IsAccepted, submit_agent_draft-IsAccepted}
use takulife.Submission.Tests.{
  env, draft, web, closed, empty, payload, list_payload, empty-IsLimited,
}

abbrev split : Text → Option (Text × Text)
split t = some (codes "x.com", codes "/Club/")

empty-IsWithin : IsWithin empty
unfolding count
empty-IsWithin = record {
  limited = empty-IsLimited;
  few = record { room = λ r. omega arith; once = λ u. omega arith };
}

-- A day that can be read, and a page on a site that is not read again.
abbrev python : Python
python = record {
  str = λ m. "None";
  truth = λ t. true;
  in_unit = λ t. true;
  fromisoformat = λ t. some 10;
  strip_tracking_params = λ t. some t;
  hostname = λ t. some (codes "x.com");
}

abbrev found : Json → AgentPayload
found title =
    ("source_url", plain (text "https://x.com/club/1"))
    ∷ ("raw_title", plain (text "Live"))
    ∷ ("raw_text", plain (text ""))
    ∷ (
      "fields",
      object (
          ("title", title) ∷ ("category", text "unknown") ∷ ("start_date", text "2026-05-01") ∷ []),
    )
    ∷ ("confidence", plain (number "0.5"))
    ∷ ("note", plain (text ""))
    ∷ ("platform", plain (text "x"))
    ∷ ("judgment", plain (text "unofficial"))
    ∷ ("official_basis", plain (text "fan"))
    ∷ ("source_name", plain (text "club"))
    ∷ []

abbrev requests : List Request
requests =
    candidate env web 0 30 (λ s. s) 1 "t" list_payload 300 310
    ∷ candidate env closed 0 30 (λ s. s) 1 "t" (payload "html" "https://b.kr/") 320 330
    ∷ candidate env web 0 30 (λ s. s) 1 "t" list_payload 340 350
    ∷ account split 1 "t" (payload "x" "https://x.com/Club/") 360
    ∷ event python env (λ t. none) (λ s. s) 5 1 "t" (found (text "Live")) 370 380
    ∷ []

handle_all-IsWithin_example : IsWithin (handle_all requests empty)
handle_all-IsWithin_example =
    handle_all-IsWithin requests empty
      ((λ s v. v), ((λ s v. v), ((λ s v. v), (tt, ((λ s v. v), tt))))) empty-IsWithin

abbrev club : Payload
club = payload "x" "https://x.com/Club/"

register_account_source-Leaves_example :
    Leaves (IsAccount split club) empty (register_account_source split 1 "t" club 360 empty)
register_account_source-Leaves_example = register_account_source-Leaves split 1 "t" 360 club empty

-- A candidate that is promoted, one that fails, and an account.
requests_run :
    map (λ (c : Candidate). c.decision) (handle_all requests empty).candidates
    ≡ promoted 1 ∷ failed Stage.robots none ∷ promoted 4 ∷ []
unfolding handle_all submit_candidate
requests_run = refl

abbrev event_done : Result Error (Option Draft × Bool) × Db
event_done =
    submit_agent_draft python env (λ t. none) (λ s. s) 5 1 "t" (found (text "Live")) 370 380 empty

abbrev event_draft : Draft
event_draft = record (new_draft (draft (codes "https://x.com/club/1")) empty.review) {
  payload = record (draft (codes "https://x.com/club/1")) {
    source_name = codes "club";
    raw_title = codes "Live";
    extracted_title = codes "Live";
    extracted_start_date = some 10;
    extraction_method = Review.llm;
    intake_note = codes "판단: 비공식 — fan\n카테고리 값 불일치(원값 unknown)";
    discovery_run = some 1;
  };
}

event_run : event_done ≡ (ok (some event_draft, true), event_done.1)
unfolding submit_agent_draft
event_run = refl

submit_agent_draft-IsAccepted_example :
    IsAccepted python (found (text "Live")) 1 5 empty.review.site empty event_draft
submit_agent_draft-IsAccepted_example =
    submit_agent_draft-IsAccepted python env (λ t. none) (λ s. s) 5 1 "t" (found (text "Live")) 370
      380 empty event_done.1 event_draft event_run

-- A title that is null is answered as a draft that is there, and there is none.
null_title_run :
    (submit_agent_draft python env (λ t. none) (λ s. s) 5 1 "t" (found null) 370 380 empty).0
    ≡ ok (none, false)
unfolding submit_agent_draft
null_title_run = refl
