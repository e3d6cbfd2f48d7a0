-- ===== src/Submission/Candidates/Passed.antt =====
-- What `submit_candidate` of drafts/candidate_validation.py stores of what its checks found.
use takulife.Common.{ℕ, Option, none, some, List, ◌≡◌, refl, sym, subst, String, first, Text}
use takulife.Common.Exec.{Answered, atomic-Answered, Result, ok, err, ◌>>=◌}
use takulife.Review.Model as Review
use takulife.Submission.Model.{Stage, Decision, failed, promoted, Cleaned, Candidate, Db, Error}
use takulife.Submission.Payload.{Payload, validate_payload}
use takulife.Submission.Intake.{Web}
use takulife.Submission.Store.{
  on_url, renewed, run_with_room, create_or_first, append_candidate, save_failed_candidate,
}
use takulife.Submission.Store.Rows.{room_then}
use takulife.Submission.Checks.{Finding, fails, passes, find}
use takulife.Submission.Checks.Needs.{IsNew, Verified, find_then}
use takulife.Submission.Candidates.{
  promote_with, conclude, submit_new, answer_or_submit, submit_candidate,
}
use takulife.Submission.Candidates.Answers.{url_of, url_of_cleaned, early_answer_then}

-- No row of the run is there for the address.
abbrev IsAbsent : ℕ → Text → Db → Type 0
IsAbsent id url db = first (on_url id url) db.candidates ≡ none

create_or_first_decision :
    (run : ℕ) (cleaned : Cleaned) (d : Decision) (now : ℕ) (db : Db)
    → IsAbsent run cleaned.url db
    → Answered (λ (c : Candidate). c.decision ≡ d) (create_or_first run cleaned d now db)
unfolding create_or_first
create_or_first_decision run cleaned d now db h =
    subst
      (λ o.
        Answered (λ (c : Candidate). c.decision ≡ d)
          (elim o as (λ x. Result Error Candidate × Db) [
            | some c ↦ (ok c, db)
            | none ↦ append_candidate run cleaned d now db
          ]))
      (sym h) refl

-- Where no row is there for the address, a failure is stored at its stage.
save_failed_decision :
    (id : ℕ) (token : String) (now : ℕ) (cleaned : Cleaned) (stage : Stage) (reason : Option String)
    (db : Db)
    → IsAbsent id cleaned.url db
    → Answered
        (λ (c : Candidate). c.decision ≡ failed stage reason)
        (save_failed_candidate id token now cleaned stage reason db)
unfolding save_failed_candidate renewed
save_failed_decision id token now cleaned stage reason db h =
    let Q = λ (c : Candidate). c.decision ≡ failed stage reason in
    atomic-Answered Q
      (run_with_room id token now >>= λ run.
        create_or_first run.id cleaned (failed stage reason) now)
      db
      (room_then (Answered Q) id token now
        (λ run. create_or_first run.id cleaned (failed stage reason) now) db (λ e. tt) (λ e i. tt)
        (λ run same full.
          create_or_first_decision run.id cleaned (failed stage reason) now (renewed run.id now db)
            (subst (λ i. IsAbsent i cleaned.url db) (sym same) h)))

-- What the checks found of a candidate that is promoted.
abbrev pub Passed : Web → Payload → ℕ → Db → Type 0
Passed web p now db =
    (found : List Text) × (IsNew p now db × Verified web (validate_payload p).0 found)

abbrev OnlyIf : Type 0 → Candidate → Type 0
OnlyIf P c = (pk : ℕ) → c.decision ≡ promoted pk → P

module _ (env : Review.Platform) (web : Web) (today budget : ℕ) (rival : Db → Db) where
  conclude-Passed :
      (id : ℕ) (token : String) (p : Payload) (now later : ℕ) (db s : Db) (f : Finding)
      → find web p now db ≡ f
      → IsAbsent id (validate_payload p).0.url s
      → Answered
          (OnlyIf (Passed web p now db))
          (conclude env web today budget id token later (validate_payload p).0 f s)
  unfolding conclude
  conclude-Passed id token p now later db s (passes found) h absent = always (
      promote_with env web today budget id token later (validate_payload p).0 found
        (validate_payload p).0.source_type s)
    where
      always : (x : Result Error Candidate × Db) → Answered (OnlyIf (Passed web p now db)) x
      always (ok c, t) = λ pk e. (found, find_then web p now db found h)
      always (err e, t) = tt
  conclude-Passed id token p now later db s (fails stage reason) h absent =
      never (save_failed_candidate id token later (validate_payload p).0 stage reason s)
        (save_failed_decision id token later (validate_payload p).0 stage reason s absent)
    where
      never :
          (x : Result Error Candidate × Db)
          → Answered (λ (c : Candidate). c.decision ≡ failed stage reason) x
          → Answered (OnlyIf (Passed web p now db)) x
      never (ok c, t) q = λ pk e. cc
      never (err e, t) q = tt

  submit_candidate-Passed :
      (id : ℕ) (token : String) (p : Payload) (now later : ℕ) (db : Db)
      → IsAbsent id (url_of p) db
      → IsAbsent id (url_of p) (rival db)
      → Answered
          (OnlyIf (Passed web p now db))
          (submit_candidate env web today budget rival id token p now later db)
  unfolding submit_candidate answer_or_submit submit_new
  submit_candidate-Passed id token p now later db absent absent_then =
      early_answer_then (Answered (OnlyIf (Passed web p now db))) id token now (url_of p)
        (answer_or_submit env web today budget rival id token p now later) db (λ e. tt) answered
    where
      answered :
          (o : Option Candidate)
          → first (on_url id (url_of p)) db.candidates ≡ o
          → Answered
              (OnlyIf (Passed web p now db))
              (answer_or_submit env web today budget rival id token p now later o db)
      answered (some c) e = λ pk q. cc
      answered none e =
          conclude-Passed id token p now later db (rival db) (find web p now db) refl
            (subst (λ u. IsAbsent id u (rival db)) (sym (url_of_cleaned p)) absent_then)

  -- Where no candidate of the run was there for the address, before the request nor when it stores,
  -- a promoted candidate means that the payload was valid, domestic, of no known source and without
  -- a recent failure, that both addresses were safe and open to robots, that the sample was in the
  -- listing, and that its page had a title or a text.
  pub submit_candidate_promotes :
      (id : ℕ) (token : String) (p : Payload) (now later pk : ℕ) (db db' : Db) (c : Candidate)
      → first (on_url id (url_of p)) db.candidates ≡ none
      → first (on_url id (url_of p)) (rival db).candidates ≡ none
      → submit_candidate env web today budget rival id token p now later db ≡ (ok c, db')
      → c.decision ≡ promoted pk
      → Passed web p now db
  submit_candidate_promotes id token p now later pk db db' c absent absent_then h e =
      subst (Answered (OnlyIf (Passed web p now db))) h
        (submit_candidate-Passed id token p now later db absent absent_then) pk e
