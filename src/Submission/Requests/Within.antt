-- ===== src/Submission/Requests/Within.antt =====
-- The limits on candidates, sources and drafts hold after every request of the runner.
use takulife.Common.{
  ℕ, String, Bool, true, false, ◌&&◌, Option, none, some, List, [], ◌∷◌, map, refl, All, Text,
  text_in, if◌then◌else◌,
}
use takulife.Common.Exec.{Result, Exec, pure, ◌>>=◌}
use takulife.Publishing.Urls.{lower}
use takulife.Review.Model as Review
use takulife.Submission.Model.{Source, SourceType, Stage, Cleaned, Candidate, Db, Error}
use takulife.Submission.Payload.{Payload, is_domestic, validate_payload, clean_account_payload}
use takulife.Submission.Intake.{Web}
use takulife.Submission.Store.{save_failed_candidate, source_exists, promote}
use takulife.Submission.Store.Settled.{save_failed-Settled, promote-Settled, then_pure}
use takulife.Submission.Checks.{find}
use takulife.Submission.Candidates.{submit_new, answer_or_submit, submit_candidate}
use takulife.Submission.Candidates.Answers.{url_of, early_answer_then, submit_candidate-Settled}
use takulife.Submission.Accounts.{
  allowed_hosts, is_handle_path, normalize_account_source_url, with_url, register_checked,
  register_split, register_typed, register_account_source,
}
use takulife.Submission.Events.Few.{AreFew, IsWithin, After, submit_agent_draft-IsWithin}
use takulife.Submission.Requests.{Request, candidate, account, event, handle, handle_all}
use takulife.Submission.Requests.Drafts.{kept, conclude-AreFew}
use takulife.Submission.Store.Kept.{NoMatter, then-Leaves, save_failed-Leaves, promote-Leaves}

-- What the other requests commit during this one keeps the limits.
abbrev pub IsFair : Request → Type 0
IsFair (candidate env web today budget rival id token p now later) =
    (s : Db) → IsWithin s → IsWithin (rival s)
IsFair (account split id token p now) = Unit {0}
IsFair (event py env recheck rival today id token p now later) =
    (s : Db) → IsWithin s → IsWithin (rival s)

submit_candidate-AreFew :
    (env : Review.Platform) (web : Web) (today budget : ℕ) (rival : Db → Db) (id : ℕ)
    (token : String) (p : Payload) (now later : ℕ) (db : Db)
    → AreFew db.review.drafts
    → AreFew (rival db).review.drafts
    → AreFew (submit_candidate env web today budget rival id token p now later db).1.review.drafts
unfolding submit_candidate answer_or_submit submit_new
submit_candidate-AreFew env web today budget rival id token p now later db v w =
    early_answer_then (λ (x : Result Error Candidate × Db). AreFew x.1.review.drafts) id token now
      (url_of p) (answer_or_submit env web today budget rival id token p now later) db (λ e. v)
      (λ o h. answered o)
  where
    answered :
        (o : Option Candidate)
        → AreFew
            (answer_or_submit env web today budget rival id token p now later o db).1.review.drafts
    answered (some c) = v
    answered none =
        conclude-AreFew env web today budget id token later (validate_payload p).0
          (find web p now db) (rival db) w

by_test :
    (b : Bool) (x y : Result Error Candidate × Db) → After x → After y → After (if b then x else y)
by_test true x y v w = v
by_test false x y v w = w

module _ (id : ℕ) (token : String) (now : ℕ) where
  save_failed-IsWithin :
      (cleaned : Cleaned) (stage : Stage) (db : Db)
      → IsWithin db
      → After (save_failed_candidate id token now cleaned stage none db)
  save_failed-IsWithin cleaned stage db v = record {
    limited = (save_failed-Settled id token now cleaned stage none db v.limited).0;
    few = kept v.few (save_failed-Leaves NoMatter id token now cleaned stage none db).0;
  }

  promote-IsWithin :
      (cleaned : Cleaned) (t : SourceType) (db : Db)
      → IsWithin db
      → After ((promote id token now cleaned t false >>= λ stored. pure stored.0) db)
  promote-IsWithin cleaned t db v = record {
    limited =
        (then_pure (λ (a : Candidate × Option Source). a.0) (λ c. c) id cleaned.url
          (promote id token now cleaned t false) (λ a. a.0) db (λ a. refl)
          (promote-Settled id token now cleaned t false db v.limited)).0;
    few =
        kept v.few
          (then-Leaves NoMatter (promote id token now cleaned t false) (λ a. a.0) db
            (promote-Leaves NoMatter id token now cleaned t false db tt)).0;
  }

  register_checked-IsWithin :
      (cleaned : Cleaned) (t : SourceType) (db : Db)
      → IsWithin db
      → After (register_checked id token now cleaned t db)
  unfolding register_checked
  register_checked-IsWithin cleaned t db v =
      by_test (source_exists cleaned.url db)
        (save_failed_candidate id token now cleaned Stage.duplicate none db)
        ((promote id token now cleaned t false >>= λ stored. pure stored.0) db)
        (save_failed-IsWithin cleaned Stage.duplicate db v) (promote-IsWithin cleaned t db v)

  register_split-IsWithin :
      (cleaned : Cleaned) (t : SourceType) (parts : Option (Text × Text)) (db : Db)
      → IsWithin db
      → After (register_split id token now cleaned t parts db)
  unfolding register_split
  register_split-IsWithin cleaned t none db v = v
  register_split-IsWithin cleaned t (some (hostname, path)) db v =
      let at = with_url (normalize_account_source_url (map lower hostname) path) cleaned in
      by_if (text_in (map lower hostname) allowed_hosts && is_handle_path path)
        (register_checked id token now at t)
        (save_failed_candidate id token now cleaned Stage.schema none) db
        (register_checked-IsWithin at t db v) (save_failed-IsWithin cleaned Stage.schema db v)
    where
      by_if :
          (b : Bool) (m n : Exec Db Error Candidate) (s : Db)
          → After (m s)
          → After (n s)
          → After ((if b then m else n) s)
      by_if true m n s v w = v
      by_if false m n s v w = w

  register_typed-IsWithin :
      (split : Text → Option (Text × Text)) (p : Payload) (cleaned : Cleaned)
      (t : Option SourceType) (db : Db)
      → IsWithin db
      → After (register_typed split id token now p cleaned t db)
  unfolding register_typed
  register_typed-IsWithin split p cleaned none db v = save_failed-IsWithin cleaned Stage.schema db v
  register_typed-IsWithin split p cleaned (some t) db v = by_country (is_domestic p)
    where
      by_country :
          (b : Bool)
          → After (
              (if b
                  then register_split id token now cleaned t (split cleaned.url)
                  else save_failed_candidate id token now cleaned Stage.not_domestic none)
                db)
      by_country true = register_split-IsWithin cleaned t (split cleaned.url) db v
      by_country false = save_failed-IsWithin cleaned Stage.not_domestic db v

handle-IsWithin : (r : Request) (db : Db) → IsFair r → IsWithin db → IsWithin (handle r db)
unfolding handle register_account_source
handle-IsWithin (candidate env web today budget rival id token p now later) db fair v =
    let w = fair db v in
    record {
      limited =
          (submit_candidate-Settled env web today budget rival id token p now later db v.limited
            w.limited).0;
      few = submit_candidate-AreFew env web today budget rival id token p now later db v.few w.few;
    }
handle-IsWithin (account split id token p now) db fair v =
    let cleaned = clean_account_payload p in
    register_typed-IsWithin id token now split p cleaned cleaned.source_type db v
handle-IsWithin (event py env recheck rival today id token p now later) db fair v =
    submit_agent_draft-IsWithin py env recheck rival today id token p now later db v (fair db v)

-- Whatever the runner submits, in any order, and whatever other requests commit meanwhile that keeps
-- the limits: a run has at most ten candidates, at most one for an address, and at most twenty
-- drafts; no two sources share an address, and no two drafts; and the source that a promoted
-- candidate names is there under the candidate's address.
pub handle_all-IsWithin :
    (rs : List Request) (db : Db) → All IsFair rs → IsWithin db → IsWithin (handle_all rs db)
unfolding handle_all
handle_all-IsWithin [] db fair v = v
handle_all-IsWithin (r ∷ rs) db (fair, rest) v =
    handle_all-IsWithin rs (handle r db) rest (handle-IsWithin r db fair v)
