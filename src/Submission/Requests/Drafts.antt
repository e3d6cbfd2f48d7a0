-- ===== src/Submission/Requests/Drafts.antt =====
-- What the submission of a candidate does to the drafts: drafts/candidate_validation.py and
-- drafts/candidate_intake.py.
use takulife.Common.{
  ℕ, ◌+◌, String, Bool, true, false, not, ◌&&◌, Option, none, some, List, [], ◌∷◌, ◌≡◌, sym, subst,
  exists, select, ltb, leb, Text, text_in, if◌then◌else◌,
}
use takulife.Common.Exec.{Result, ok, err, pure, post-bind, ◌>>◌}
use takulife.Review.Model as Review
use takulife.Review.Model.{Draft, Payload, draft_creation_duplicate}
use takulife.Review.Drafts.{has_source, create_draft}
use takulife.Submission.Model.{Source, SourceType, Stage, Cleaned, Candidate, Db, Error}
use takulife.Submission.Intake.{
  Robots, Prepared, Web, Skip, Outcome, is_created, consumed_fetch_budget, collected, persisted,
  contains_hangul, latest, is_before, create_prepared, create_collected_draft_from_url,
  decide_robots, decide_and_create_candidate, initial_drafts, initial_drafts_per_promoted_source,
  one_if,
}
use takulife.Submission.Store.{promote}
use takulife.Submission.Store.Kept.{Leaves, NoMatter, save_failed-Leaves, promote-Leaves}
use takulife.Submission.Checks.{Finding, fails, passes}
use takulife.Submission.Candidates.{make_drafts, promote_with, conclude}
use takulife.Submission.Events.Few.{AreFew, create_draft-AreFew}

pub kept : {r s : Review.Db} → AreFew s.drafts → r ≡ s → AreFew r.drafts
kept v h = subst (λ (x : Review.Db). AreFew x.drafts) (sym h) v

module _ (env : Review.Platform) (web : Web) (today : ℕ) (source : Source) where
  persisted-AreFew :
      (url : Text) (p : Payload) (db : Db)
      → AreFew db.review.drafts
      → AreFew (persisted db (create_draft env (collected source url p) db.review)).1.review.drafts
  persisted-AreFew url p db v =
      answered (create_draft env (collected source url p) db.review)
        (create_draft-AreFew env (collected source url p) db.review (λ run e. cc) v)
    where
      answered :
          (x : Result Review.Error Draft × Review.Db)
          → AreFew x.1.drafts
          → AreFew (persisted db x).1.review.drafts
      answered (ok d, review) w = w
      answered (err draft_creation_duplicate, review) w = w
      answered (err e, review) w = w

  decide-AreFew :
      (url : Text) (known room full : Bool) (db : Db)
      → AreFew db.review.drafts
      → AreFew
          (decide_and_create_candidate env web today source url known room full db).1.review.drafts
  unfolding decide_and_create_candidate decide_robots create_collected_draft_from_url
      create_prepared
  decide-AreFew url true room full db v = v
  decide-AreFew url false room true db v = v
  decide-AreFew url false false false db v = v
  decide-AreFew url false true false db v = by_robots (web.robots url)
    where
      by_test :
          (p : Payload) (a b : Bool)
          → AreFew
              (if◌then◌else◌ {A = Outcome × Db} a
                (Outcome.skipped Skip.excluded_non_korean, db)
                (if b
                  then (Outcome.skipped Skip.excluded_ended, db)
                  else persisted db
                      (create_draft env (collected source url p) db.review))).1.review.drafts
      by_test p true b = v
      by_test p false true = v
      by_test p false false = persisted-AreFew url p db v

      prepared :
          (r : Prepared) → AreFew (create_prepared env web today source url r db).1.review.drafts
      prepared Prepared.blank = v
      prepared Prepared.broken = v
      prepared (Prepared.page p) =
          by_test p (not (contains_hangul p.raw_title) && not (contains_hangul p.raw_text))
            (is_before today (latest (web.mentioned p.raw_text)))

      by_robots :
          (r : Robots) → AreFew (decide_robots env web today source url r db).1.review.drafts
      by_robots Robots.disallowed = v
      by_robots Robots.unreachable = v
      by_robots Robots.allowed = prepared (web.prepare url)

  initial_drafts-AreFew :
      (budget : ℕ) (existing : List Text) (made fetches : ℕ) (urls : List Text) (db : Db)
      → AreFew db.review.drafts
      → AreFew
          (initial_drafts env web today source budget existing made fetches urls db).review.drafts
  unfolding initial_drafts
  initial_drafts-AreFew budget existing made fetches [] db v = v
  initial_drafts-AreFew budget existing made fetches (url ∷ urls) db v =
      let full = leb initial_drafts_per_promoted_source made in
      let x =
        decide_and_create_candidate env web today source url (text_in url existing)
          (ltb fetches budget) full db in
      initial_drafts-AreFew budget existing (made + one_if (is_created x.0))
        (fetches + one_if (consumed_fetch_budget x.0)) urls x.1
        (decide-AreFew url (text_in url existing) (ltb fetches budget) full db v)

module _ (env : Review.Platform) (web : Web) (today budget : ℕ) where
  drafts_after :
      (o : Option Source) (found : List Text) (c : Candidate) (db : Db)
      → AreFew db.review.drafts
      → AreFew ((make_drafts env web today budget o found >> pure c) db).1.review.drafts
  unfolding make_drafts
  drafts_after none found c db v = v
  drafts_after (some source) found c db v =
      initial_drafts-AreFew env web today source budget
        (select (λ u. exists (has_source u) db.review.drafts) found) 0 0 found db v

  -- What a candidate leaves of the drafts.
  pub conclude-AreFew :
      (id : ℕ) (token : String) (later : ℕ) (cleaned : Cleaned) (f : Finding) (db : Db)
      → AreFew db.review.drafts
      → AreFew (conclude env web today budget id token later cleaned f db).1.review.drafts
  unfolding conclude promote_with
  conclude-AreFew id token later cleaned (fails stage reason) db v =
      kept v (save_failed-Leaves NoMatter id token later cleaned stage reason db).0
  conclude-AreFew id token later cleaned (passes found) db v = by_type cleaned.source_type
    where
      by_type :
          (t : Option SourceType)
          → AreFew
              (promote_with env web today budget id token later cleaned found t db).1.review.drafts
      by_type none =
          kept v (save_failed-Leaves NoMatter id token later cleaned Stage.schema none db).0
      by_type (some t) =
          let h = promote-Leaves NoMatter id token later cleaned t true db tt in
          post-bind (λ (x : Result Error Candidate × Db). AreFew x.1.review.drafts)
            (promote id token later cleaned t true)
            (λ stored. make_drafts env web today budget stored.1 found >> pure stored.0) db
            (λ e s q. kept v (subst (Leaves NoMatter db) q h).0)
            (λ a s q. drafts_after a.1 found a.0 s (kept v (subst (Leaves NoMatter db) q h).0))
