-- ===== src/Submission/Intake/Capped.antt =====
-- What the loop over the URLs of a new source leaves: drafts/candidate_validation.py.
use takulife.Common.{
  ℕ, ◌+◌, ◌≤◌, Bool, true, false, not, ◌&&◌, List, [], ◌∷◌, ◌++◌, ◌≡◌, refl, ap, ◌∙◌, arith, ltb,
  leb, length, exists, Text, text_in, if◌then◌else◌,
}
use takulife.Common.Exec.{raise_if, ◌>>◌}
use takulife.Publishing.Model.{data_error}
use takulife.Review.Model as Review
use takulife.Review.Model.{Draft, Payload, draft_creation_duplicate, uncaught}
use takulife.Review.Drafts.{create_draft, insert_unique, append_draft, has_source}
use takulife.Submission.Model.{Source, Db}
use takulife.Submission.Intake.{
  Robots, Prepared, Web, Skip, Outcome, is_created, consumed_fetch_budget, collected, persisted,
  contains_hangul, latest, is_before, create_prepared, create_collected_draft_from_url,
  decide_robots, decide_and_create_candidate, initial_drafts, initial_drafts_per_promoted_source,
  one_if,
}

abbrev pub drafts : Db → ℕ
drafts db = length db.review.drafts

-- Only the drafts are changed, and a draft is added exactly where one was created.
abbrev pub Decided : Db → Outcome × Db → Type 0
Decided db x =
    (x.1 ≡ record db { review = x.1.review }) × (drafts x.1 ≡ drafts db + one_if (is_created x.0))

length-append_one {ℓ} : {A : Type ℓ} (xs : List A) (x : A) → length (xs ++ x ∷ []) ≡ length xs + 1
length-append_one [] x = omega arith
length-append_one (y ∷ xs) x = omega (arith, length-append_one xs x)

module _ (env : Review.Platform) (web : Web) (today : ℕ) (source : Source) where
  persisted-Decided :
      (p : Payload) (db : Db) → Decided db (persisted db (create_draft env p db.review))
  unfolding create_draft insert_unique append_draft
  persisted-Decided p db = checked (env.draft_fits p)
    where
      inserted :
          (taken : Bool)
          → Decided db
              (persisted db ((raise_if taken draft_creation_duplicate >> append_draft p) db.review))
      inserted true = (refl, omega arith)
      inserted false = (refl, length-append_one db.review.drafts _)

      checked :
          (fits : Bool)
          → Decided db (
              persisted db
                ((raise_if (not fits) (uncaught data_error) >> insert_unique p) db.review))
      checked false = (refl, omega arith)
      checked true = inserted (exists (has_source p.source_url) db.review.drafts)

  create_prepared-Decided :
      (url : Text) (r : Prepared) (db : Db)
      → Decided db (create_prepared env web today source url r db)
  unfolding create_prepared
  create_prepared-Decided url Prepared.blank db = (refl, omega arith)
  create_prepared-Decided url Prepared.broken db = (refl, omega arith)
  create_prepared-Decided url (Prepared.page p) db =
      by_case (not (contains_hangul p.raw_title) && not (contains_hangul p.raw_text))
        (is_before today (latest (web.mentioned p.raw_text)))
    where
      by_case :
          (a b : Bool)
          → Decided db (
              if a
              then (Outcome.skipped Skip.excluded_non_korean, db)
              else if b
              then (Outcome.skipped Skip.excluded_ended, db)
              else persisted db (create_draft env (collected source url p) db.review))
      by_case true b = (refl, omega arith)
      by_case false true = (refl, omega arith)
      by_case false false = persisted-Decided (collected source url p) db

  decide_robots-Decided :
      (url : Text) (r : Robots) (db : Db) → Decided db (decide_robots env web today source url r db)
  unfolding decide_robots create_collected_draft_from_url
  decide_robots-Decided url Robots.disallowed db = (refl, omega arith)
  decide_robots-Decided url Robots.unreachable db = (refl, omega arith)
  decide_robots-Decided url Robots.allowed db = create_prepared-Decided url (web.prepare url) db

  -- A decision, and that nothing is created at the cap.
  pub decide-Decided :
      (url : Text) (known room full : Bool) (db : Db)
      → Decided db (decide_and_create_candidate env web today source url known room full db)
        × (full ≡ true
            → is_created (decide_and_create_candidate env web today source url known room full db).0
              ≡ false)
  unfolding decide_and_create_candidate
  decide-Decided url true room full db = ((refl, omega arith), λ e. refl)
  decide-Decided url false room true db = ((refl, omega arith), λ e. refl)
  decide-Decided url false false false db = ((refl, omega arith), λ e. cc)
  decide-Decided url false true false db = (decide_robots-Decided url (web.robots url) db, λ e. cc)

-- Where no more than five drafts were made before, the loop over the listing of a new source changes
-- nothing but the rows of the review, and the drafts that it adds are five at most, with those made
-- before.
pub initial_drafts-Capped :
    (env : Review.Platform) (web : Web) (today : ℕ) (source : Source) (budget : ℕ)
    (existing : List Text) (made fetches : ℕ) (urls : List Text) (db : Db)
    → made ≤ initial_drafts_per_promoted_source
    → (initial_drafts env web today source budget existing made fetches urls db ≡ record db {
      review = (initial_drafts env web today source budget existing made fetches urls db).review;
    })
      × (drafts (initial_drafts env web today source budget existing made fetches urls db) + made
          ≤ drafts db + initial_drafts_per_promoted_source)
unfolding initial_drafts
initial_drafts-Capped env web today source budget existing made fetches [] db h =
    (refl, omega arith)
initial_drafts-Capped env web today source budget existing made fetches (url ∷ urls) db h =
    let full = leb initial_drafts_per_promoted_source made in
    let x =
      decide_and_create_candidate env web today source url (text_in url existing)
        (ltb fetches budget) full db in
    let (step, capped) =
      decide-Decided env web today source url (text_in url existing) (ltb fetches budget) full db in
    let (rest, few) =
      initial_drafts-Capped env web today source budget existing (made + one_if (is_created x.0))
        (fetches + one_if (consumed_fetch_budget x.0)) urls x.1 (ground (arith, h, capped)) in
    (
      rest
          ∙ ap
              (λ (s : Db). record s {
                review =
                    (initial_drafts env web today source budget existing
                      (made + one_if (is_created x.0))
                      (fetches + one_if (consumed_fetch_budget x.0)) urls x.1).review;
              })
              step.0,
      omega (arith, few, step.1),
    )
