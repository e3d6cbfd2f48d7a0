-- ===== src/Submission/Candidates/Promotion.antt =====
-- That `submit_candidate` of drafts/candidate_validation.py promotes what passes its checks.
use takulife.Common.{
  ℕ, Bool, true, false, not, ◌&&◌, Option, none, some, List, ◌≡◌, refl, sym, subst, ap, ◌∙◌, arith,
  String, first, exists, exists_of_none, select, Text, is_some, if◌then◌else◌,
}
use takulife.Common.Exec.{Result, ok, pure, atomic_ok, raise_if, bind_ok, ◌>>=◌, ◌>>◌}
use takulife.Discovery.Model.{Run}
use takulife.Discovery.Runs.{locked_run_with_valid_lease}
use takulife.Review.Model as Review
use takulife.Review.Drafts.{has_source}
use takulife.Submission.Model.{
  Source, SourceType, promoted, Cleaned, Candidate, Db, discovery, Error, candidate_limit,
  integrity,
}
use takulife.Submission.Payload.{Payload, listed_type, validate_payload, cleaned_with}
use takulife.Submission.Intake.{Web, initial_drafts}
use takulife.Submission.Intake.Capped.{initial_drafts-Capped}
use takulife.Submission.Store.{
  on_url, is_full, leased, leased_run, renewed, renew_with_room, run_with_room, append_candidate,
  new_candidate, added, fail_duplicate, source_exists, new_source, with_source, create_candidate,
  promote_source, promote_locked, promote,
}
use takulife.Submission.Store.Rows.{locked-id}
use takulife.Submission.Checks.Needs.{IsNew, Verified, find_passes}
use takulife.Submission.Candidates.{
  answered_before, early_answer, make_drafts, promote_with, conclude, submit_new, answer_or_submit,
  submit_candidate,
}
use takulife.Submission.Candidates.Answers.{url_of, url_of_cleaned}

-- The run can store a candidate for the address.
pub record IsOpen (id : ℕ) (token : String) (now : ℕ) (url : Text) (db : Db) : Type 0 where
  pub run : Run
  pub lease : locked_run_with_valid_lease id token now (discovery db) ≡ ok run
  pub room : is_full id db ≡ false
  pub absent : first (on_url id url) db.candidates ≡ none

-- The state with the source and its candidate.
abbrev pub with_promoted : ℕ → ℕ → Cleaned → SourceType → Bool → Db → Db
with_promoted id now cleaned t enabled db =
    let s = with_source (new_source cleaned t enabled db) (renewed id now db) in
    added (new_candidate id cleaned (promoted db.next_id) now s) s

abbrev pub promoted_candidate : ℕ → ℕ → Cleaned → SourceType → Bool → Db → Candidate
promoted_candidate id now cleaned t enabled db =
    new_candidate id cleaned (promoted db.next_id) now
      (with_source (new_source cleaned t enabled db) (renewed id now db))

module _ (id : ℕ) (token : String) (now : ℕ) (db : Db) where
  room_ok :
      (run : Run)
      → locked_run_with_valid_lease id token now (discovery db) ≡ ok run
      → is_full id db ≡ false
      → run_with_room id token now db ≡ (ok run, renewed run.id now db)
  unfolding run_with_room renew_with_room leased_run renewed
  room_ok run h full =
      bind_ok (leased_run id token now) (renew_with_room now) (ap (leased db) h)
      ∙ ap (λ b. (raise_if b candidate_limit >> pure run) (renewed run.id now db))
          (subst (λ i. is_full i db ≡ false) (sym (locked-id id token now db run h)) full)

  abbrev promotion : Cleaned → SourceType → Bool → ℕ → Result Error (Candidate × Option Source) × Db
  promotion cleaned t enabled i = (
    ok (promoted_candidate i now cleaned t enabled db, some (new_source cleaned t enabled db)),
    with_promoted i now cleaned t enabled db,
  )

  promote_locked_ok :
      (cleaned : Cleaned) (t : SourceType) (enabled : Bool) (run : Run)
      → exists (on_url run.id cleaned.url) db.candidates ≡ false
      → source_exists cleaned.url db ≡ false
      → promote_locked id token now cleaned t enabled run (renewed run.id now db)
        ≡ promotion cleaned t enabled run.id
  unfolding promote_locked promote_source create_candidate renewed
  promote_locked_ok cleaned t enabled run absent unknown =
      let s = renewed run.id now db in
      let new = new_source cleaned t enabled db in
      ap
        (λ b.
          if b
          then fail_duplicate id token now cleaned s
          else promote_source run.id cleaned now new s)
        unknown
      ∙ ap
          (λ b.
            ((raise_if b integrity >> append_candidate run.id cleaned (promoted new.pk) now)
                >>= λ c. pure (c, some new))
              (with_source new s))
          absent

  promote_ok :
      (cleaned : Cleaned) (t : SourceType) (enabled : Bool)
      → IsOpen id token now cleaned.url db
      → source_exists cleaned.url db ≡ false
      → promote id token now cleaned t enabled db ≡ promotion cleaned t enabled id
  unfolding promote
  promote_ok cleaned t enabled o unknown =
      let same = locked-id id token now db o.run o.lease in
      let absent = exists_of_none (on_url id cleaned.url) db.candidates o.absent in
      atomic_ok (run_with_room id token now >>= promote_locked id token now cleaned t enabled) (
        bind_ok (run_with_room id token now) (promote_locked id token now cleaned t enabled)
          (room_ok o.run o.lease o.room)
        ∙ promote_locked_ok cleaned t enabled o.run
            (subst (λ i. exists (on_url i cleaned.url) db.candidates ≡ false) (sym same) absent)
            unknown
        ∙ ap (promotion cleaned t enabled) same)

  early_answer_open :
      (url : Text) → IsOpen id token now url db → early_answer id token now url db ≡ (ok none, db)
  unfolding early_answer answered_before leased_run
  early_answer_open url o =
      let at_run =
        subst (λ i. (first (on_url i url) db.candidates ≡ none) × (is_full i db ≡ false))
          (sym (locked-id id token now db o.run o.lease)) (o.absent, o.room) in
      atomic_ok (leased_run id token now >>= answered_before url) (
        bind_ok (leased_run id token now) (answered_before url) (ap (leased db) o.lease)
        ∙ with_row (first (on_url o.run.id url) db.candidates) (is_full o.run.id db) at_run.0
            at_run.1)
    where
      with_row :
          (c : Option Candidate) (full : Bool)
          → c ≡ none
          → full ≡ false
          → (raise_if (not (is_some c) && full) candidate_limit >> pure c) db ≡ (ok none, db)
      with_row none false p q = refl
      with_row none true p q = cc
      with_row (some c) full p q = cc

-- A payload that keeps the contract names a type.
typed :
    (p : Payload)
    → (validate_payload p).1 ≡ true
    → (t : SourceType) × ((validate_payload p).0.source_type ≡ some t)
unfolding validate_payload cleaned_with
typed p h = by_case (listed_type p) refl
  where
    by_case : (o : Option SourceType) → listed_type p ≡ o → (t : SourceType) × (o ≡ some t)
    by_case (some t) e = (t, refl)
    by_case none e = ground (arith, e, h)

module _ (env : Review.Platform) (web : Web) (today budget : ℕ) where
  -- The drafts of the source change nothing but the rows of the review.
  drafts_done :
      (o : Option Source) (found : List Text) (c : Candidate) (db : Db)
      → (r : Review.Db) × ((make_drafts env web today budget o found >> pure c) db
          ≡ (ok c, record db { review = r }))
  unfolding make_drafts
  drafts_done none found c db = (db.review, refl)
  drafts_done (some source) found c db =
      let existing = select (λ u. exists (has_source u) db.review.drafts) found in
      let (same, few) =
        initial_drafts-Capped env web today source budget existing 0 0 found db (omega arith) in
      (
        (initial_drafts env web today source budget existing 0 0 found db).review,
        ap (λ s. (ok c, s)) same,
      )

  promote_with_done :
      (id : ℕ) (token : String) (now : ℕ) (cleaned : Cleaned) (t : SourceType) (found : List Text)
      (db : Db)
      → IsOpen id token now cleaned.url db
      → source_exists cleaned.url db ≡ false
      → (r : Review.Db) × (promote_with env web today budget id token now cleaned found (some t) db
          ≡ (
            ok (promoted_candidate id now cleaned t true db),
            record (with_promoted id now cleaned t true db) { review = r },
          ))
  unfolding promote_with
  promote_with_done id token now cleaned t found db o unknown =
      let c = promoted_candidate id now cleaned t true db in
      let (r, done) =
        drafts_done (some (new_source cleaned t true db)) found c
          (with_promoted id now cleaned t true db) in
      (
        r,
        bind_ok (promote id token now cleaned t true)
              (λ stored. make_drafts env web today budget stored.1 found >> pure stored.0)
              (promote_ok id token now db cleaned t true o unknown)
            ∙ done,
      )

  module _ (rival : Db → Db) where
    -- A candidate whose payload and pages pass every check is promoted, while the run is leased, has
    -- room and has no candidate for the address, both before the checks and when they are done, and
    -- no other request has stored a source of the address meanwhile: the source stands enabled with
    -- the fields of the payload, the candidate names it, the lease is renewed, and the drafts made at
    -- once change nothing but the rows of the review.
    pub submit_candidate_done :
        (id : ℕ) (token : String) (p : Payload) (now later : ℕ) (found : List Text) (db : Db)
        → IsNew p now db
        → Verified web (validate_payload p).0 found
        → IsOpen id token now (url_of p) db
        → IsOpen id token later (url_of p) (rival db)
        → source_exists (url_of p) (rival db) ≡ false
        → (t : SourceType) × (r : Review.Db) × ((validate_payload p).0.source_type ≡ some t)
          × (submit_candidate env web today budget rival id token p now later db ≡ (
            ok (promoted_candidate id later (validate_payload p).0 t true (rival db)),
            record (with_promoted id later (validate_payload p).0 t true (rival db)) { review = r },
          ))
    unfolding submit_candidate answer_or_submit submit_new conclude
    submit_candidate_done id token p now later found db new verified open_now open_later unknown =
        let cleaned = (validate_payload p).0 in
        let (t, type) = typed p new.valid in
        let same = sym (url_of_cleaned p) in
        let (r, done) =
          promote_with_done id token later cleaned t found (rival db)
            (subst (λ u. IsOpen id token later u (rival db)) same open_later)
            (subst (λ u. source_exists u (rival db) ≡ false) same unknown) in
        (
          t,
          r,
          type,
          bind_ok (early_answer id token now (url_of p))
                (answer_or_submit env web today budget rival id token p now later)
                (early_answer_open id token now db (url_of p) open_now)
              ∙ ap (λ f. conclude env web today budget id token later cleaned f (rival db))
                  (find_passes web p now db found new verified)
              ∙ ap
                  (λ o. promote_with env web today budget id token later cleaned found o (rival db))
                  type
              ∙ done,
        )
