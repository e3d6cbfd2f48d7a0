-- ===== src/Submission/Candidates/Answers.antt =====
-- What `submit_candidate` of drafts/candidate_validation.py answers, and that it answers the same
-- again.
use takulife.Common.{
  ℕ, true, not, ◌&&◌, Option, none, some, List, ◌≡◌, refl, sym, subst, ap, ◌∙◌, arith, String,
  first, exists, select, Text, is_some,
}
use takulife.Common.Exec.{
  Result, ok, err, Exec, pure, raise_if, atomic, post-bind, bind_ok, atomic_ok, continue,
  post-raise_if, ◌>>=◌, ◌>>◌,
}
use takulife.Discovery.Model.{Run}
use takulife.Discovery.Runs.{locked_run_with_valid_lease}
use takulife.Review.Model as Review
use takulife.Review.Drafts.{has_source}
use takulife.Submission.Model.{
  Source, SourceType, Stage, Cleaned, Candidate, Db, discovery, Error, candidate_limit,
}
use takulife.Submission.Payload.{
  Payload, text_at, cleaned_text, cleaned_with, validate_payload, max_url_length,
}
use takulife.Submission.Intake.{Web, initial_drafts}
use takulife.Submission.Intake.Capped.{initial_drafts-Capped}
use takulife.Submission.Store.{on_url, leased, leased_run, is_full, promote}
use takulife.Submission.Store.Limited.{IsLimited, rows_kept}
use takulife.Submission.Store.Rows.{Settled, leased_then, locked-id}
use takulife.Submission.Store.Settled.{save_failed-Settled, promote-Settled}
use takulife.Submission.Checks.{Finding, fails, passes, find}
use takulife.Submission.Candidates.{
  answered_before, early_answer, make_drafts, promote_with, conclude, submit_new, answer_or_submit,
  submit_candidate,
}

-- The address under which the run's candidate stands.
abbrev pub url_of : Payload → Text
unfolding text_at
url_of p = cleaned_text max_url_length (text_at "url" p)

pub url_of_cleaned : (p : Payload) → (validate_payload p).0.url ≡ url_of p
unfolding validate_payload cleaned_with
url_of_cleaned p = refl

module _ (env : Review.Platform) (web : Web) (today budget : ℕ) where
  -- Making drafts leaves the candidates alone.
  drafts_then :
      (id : ℕ) (url : Text) (o : Option Source) (found : List Text) (c : Candidate) (db : Db)
      → Settled (λ c. c) id url (ok c, db)
      → Settled (λ c. c) id url ((make_drafts env web today budget o found >> pure c) db)
  unfolding make_drafts
  drafts_then id url none found c db h = h
  drafts_then id url (some source) found c db h =
      let existing = select (λ u. exists (has_source u) db.review.drafts) found in
      let (same, few) =
        initial_drafts-Capped env web today source budget existing 0 0 found db (omega arith) in
      subst (λ (s : Db). Settled (λ c. c) id url (ok c, s)) (sym same)
        (
          rows_kept db (initial_drafts env web today source budget existing 0 0 found db).review
              h.0,
          h.1,
        )

  promote_with-Settled :
      (id : ℕ) (token : String) (later : ℕ) (cleaned : Cleaned) (found : List Text)
      (t : Option SourceType) (db : Db)
      → IsLimited db
      → Settled
          (λ c. c)
          id
          cleaned.url
          (promote_with env web today budget id token later cleaned found t db)
  unfolding promote_with
  promote_with-Settled id token later cleaned found none db v =
      save_failed-Settled id token later cleaned Stage.schema none db v
  promote_with-Settled id token later cleaned found (some t) db v =
      let h = promote-Settled id token later cleaned t true db v in
      let answer = λ (a : Candidate × Option Source). a.0 in
      post-bind (Settled (λ c. c) id cleaned.url) (promote id token later cleaned t true)
        (λ stored. make_drafts env web today budget stored.1 found >> pure stored.0) db
        (λ e s q. ((subst (Settled answer id cleaned.url) q h).0, tt))
        (λ a s q.
          drafts_then id cleaned.url a.1 found a.0 s (subst (Settled answer id cleaned.url) q h))

  conclude-Settled :
      (id : ℕ) (token : String) (later : ℕ) (cleaned : Cleaned) (f : Finding) (db : Db)
      → IsLimited db
      → Settled (λ c. c) id cleaned.url (conclude env web today budget id token later cleaned f db)
  unfolding conclude
  conclude-Settled id token later cleaned (fails stage reason) db v =
      save_failed-Settled id token later cleaned stage reason db v
  conclude-Settled id token later cleaned (passes found) db v =
      promote_with-Settled id token later cleaned found cleaned.source_type db v

-- The answer before the checks: the run's candidate for the address, or the block raises; nothing
-- is changed.
pub early_answer_then {κ} :
    {A : Type 0} (P : Result Error A × Db → Type κ) (id : ℕ) (token : String) (now : ℕ) (url : Text)
    (f : Option Candidate → Exec Db Error A) (db : Db)
    → ((e : Error) → P (err e, db))
    → ((o : Option Candidate) → first (on_url id url) db.candidates ≡ o → P (f o db))
    → P ((early_answer id token now url >>= f) db)
unfolding early_answer answered_before
early_answer_then {A} P id token now url f db refused answers =
    leased_then (λ x. P (continue (early_answer id token now url) f (atomic (λ (s : Db). x) db))) id
      token now (answered_before url) db refused
      (λ run h same. with_row (first (on_url run.id url) db.candidates) run same refl)
  where
    with_row :
        (o : Option Candidate) (run : Run)
        → run.id ≡ id
        → first (on_url run.id url) db.candidates ≡ o
        → P (
            continue (early_answer id token now url) f (
              atomic
                (λ (s : Db).
                  (raise_if (not (is_some o) && is_full run.id s) candidate_limit >> pure o) s)
                db))
    with_row o run same e =
        post-raise_if
          (λ x. P (continue (early_answer id token now url) f (atomic (λ (s : Db). x) db)))
          (not (is_some o) && is_full run.id db) candidate_limit (pure o) db
          (λ full. refused candidate_limit)
          (λ room. answers o (subst (λ i. first (on_url i url) db.candidates ≡ o) same e))

-- A live lease and a candidate that is there: the answer is that candidate.
early_answer_found :
    (id : ℕ) (token : String) (now : ℕ) (url : Text) (run : Run) (c : Candidate) (db : Db)
    → locked_run_with_valid_lease id token now (discovery db) ≡ ok run
    → first (on_url id url) db.candidates ≡ some c
    → early_answer id token now url db ≡ (ok (some c), db)
unfolding early_answer leased_run answered_before
early_answer_found id token now url run c db h e =
    atomic_ok (leased_run id token now >>= answered_before url) (
      bind_ok (leased_run id token now) (answered_before url) (ap (leased db) h)
      ∙ with_row (first (on_url run.id url) db.candidates) (at_run e))
  where
    at_run :
        first (on_url id url) db.candidates ≡ some c
        → first (on_url run.id url) db.candidates ≡ some c
    at_run e =
        subst (λ i. first (on_url i url) db.candidates ≡ some c)
          (sym (locked-id id token now db run h)) e

    with_row :
        (o : Option Candidate)
        → o ≡ some c
        → (raise_if (not (is_some o) && is_full run.id db) candidate_limit >> pure o) db
          ≡ (ok (some c), db)
    with_row (some d) q = ap (λ x. (ok x, db)) q
    with_row none q = cc

module _ (env : Review.Platform) (web : Web) (today budget : ℕ) (rival : Db → Db) where
  pub submit_candidate-Settled :
      (id : ℕ) (token : String) (p : Payload) (now later : ℕ) (db : Db)
      → IsLimited db
      → IsLimited (rival db)
      → Settled
          (λ c. c)
          id
          (url_of p)
          (submit_candidate env web today budget rival id token p now later db)
  unfolding submit_candidate answer_or_submit submit_new
  submit_candidate-Settled id token p now later db v w =
      early_answer_then (Settled (λ c. c) id (url_of p)) id token now (url_of p)
        (answer_or_submit env web today budget rival id token p now later) db (λ e. (v, tt))
        answered
    where
      answered :
          (o : Option Candidate)
          → first (on_url id (url_of p)) db.candidates ≡ o
          → Settled
              (λ c. c)
              id
              (url_of p)
              (answer_or_submit env web today budget rival id token p now later o db)
      answered (some c) e = (v, e)
      answered none e =
          subst
            (λ u.
              Settled (λ c. c) id u (submit_new env web today budget rival id token p now later db))
            (url_of_cleaned p)
            (conclude-Settled env web today budget id token later (validate_payload p).0
              (find web p now db) (rival db) w)

-- A candidate that was answered is answered again, as long as the run has a live lease, to every
-- request of the run for the same address, whatever the pages say by then, and nothing is stored.
-- What other requests commit meanwhile keeps the limits.
pub submit_candidate_again :
    (env env' : Review.Platform) (web web' : Web) (today today' budget budget' : ℕ)
    (rival rival' : Db → Db) (id : ℕ) (token token' : String) (p p' : Payload)
    (now later now' later' : ℕ) (db db' : Db) (c : Candidate) (run : Run)
    → IsLimited db
    → IsLimited (rival db)
    → submit_candidate env web today budget rival id token p now later db ≡ (ok c, db')
    → locked_run_with_valid_lease id token' now' (discovery db') ≡ ok run
    → url_of p' ≡ url_of p
    → submit_candidate env' web' today' budget' rival' id token' p' now' later' db' ≡ (ok c, db')
unfolding submit_candidate answer_or_submit
submit_candidate_again env env' web web' today today' budget budget' rival rival' id token token' p
      p' now later now' later' db db' c run v fair h lease same =
    let settled =
      submit_candidate-Settled env web today budget rival id token p now later db v fair in
    let found = (subst (Settled (λ c. c) id (url_of p)) h settled).1 in
    bind_ok (early_answer id token' now' (url_of p'))
      (answer_or_submit env' web' today' budget' rival' id token' p' now' later')
      (early_answer_found id token' now' (url_of p') run c db' lease
        (subst (λ u. first (on_url id u) db'.candidates ≡ some c) (sym same) found))
