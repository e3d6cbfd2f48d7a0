-- ===== src/Submission/Intake.antt =====
-- `decide_and_create_candidate` of drafts/candidate_intake.py with
-- `create_collected_draft_from_url` of drafts/services.py, and the loop of `submit_candidate` in
-- drafts/candidate_validation.py that makes the first drafts of a source.
use takulife.Common.{
  ℕ, ◌+◌, String, Bool, true, false, not, ◌&&◌, ◌||◌, Option, none, some, List, [], ◌∷◌, map, ltb,
  leb, max, exists, Text, text_in, if◌then◌else◌,
}
use takulife.Common.Exec.{Result, ok, err}
use takulife.Review.Model as Review
use takulife.Review.Model.{Draft, Payload, Origin, draft_creation_duplicate}
use takulife.Review.Drafts.{create_draft}
use takulife.Submission.Model.{Source, Cleaned, Db}
pub mod Capped

pub data Robots : Type 0 where
  allowed disallowed unreachable : Robots

-- The candidate URLs of a listing; `unread` and `unparsed` carry the class of the exception.
pub data Listing : Type 0 where
  unread unparsed : String → Listing
  listed : List Text → Listing

-- The raw title and text of a page, or what kept the program from them.
pub data Sample : Type 0 where
  unread no_text : String → Sample
  raw : Text → Text → Sample

-- `prepare_draft_from_url`: `blank` is `DraftCreationEmptyExtractionError`, `broken` another one.
pub data Prepared : Type 0 where
  blank broken : Prepared
  page : Payload → Prepared

-- What the network gives: the exception of `validate_fetch_url`, robots.txt, the pages, and the
-- dates that a text mentions.
pub record Web : Type 0 where
  pub unsafe : Text → Option String
  pub robots : Text → Robots
  pub listing : Cleaned → Listing
  pub sample : Text → Sample
  pub prepare : Text → Prepared
  pub mentioned : Text → List ℕ

pub data Skip : Type 0 where
  robots_disallowed robots_fetch_failed duplicate empty excluded_non_korean excluded_ended : Skip

-- `CandidateOutcome`: `known` is the skip of a URL that is a draft already, before any fetch.
pub data Outcome : Type 0 where
  known held_back errored created : Outcome
  skipped : Skip → Outcome

abbrev pub consumed_fetch_budget : Outcome → Bool
consumed_fetch_budget Outcome.known = false
consumed_fetch_budget Outcome.held_back = false
consumed_fetch_budget _ = true

abbrev pub is_created : Outcome → Bool
is_created Outcome.created = true
is_created _ = false

-- `HANGUL_PATTERN`
unfoldable pub contains_hangul : Text → Bool
unfolding exists
contains_hangul t = exists (λ c. (leb 44032 c && leb c 55203) || (leb 12593 c && leb c 12643)) t

-- `max(dates) if dates else None`
unfoldable pub latest : List ℕ → Option ℕ
latest [] = none
latest (d ∷ ds) = elim (latest ds) [ none ↦ some d | some m ↦ some (max d m) ]

abbrev pub is_before : ℕ → Option ℕ → Bool
is_before today none = false
is_before today (some d) = ltb d today

-- The row that `persist_prepared_draft` stores.
abbrev pub collected : Source → Text → Payload → Payload
collected source url p = record p {
  source_url = url;
  source_name = source.name;
  origin = Origin.collected;
  intake_note = [];
  discovery_run = none;
}

abbrev pub persisted : Db → Result Review.Error Draft × Review.Db → Outcome × Db
persisted db (ok d, review) = (Outcome.created, record db { review = review })
persisted db (err draft_creation_duplicate, review) =
    (Outcome.skipped Skip.duplicate, record db { review = review })
persisted db (err e, review) = (Outcome.errored, record db { review = review })

module _ (env : Review.Platform) (web : Web) (today : ℕ) (source : Source) where
  unfoldable pub create_prepared : Text → Prepared → Db → Outcome × Db
  unfolding contains_hangul latest create_draft
  create_prepared url Prepared.blank db = (Outcome.skipped Skip.empty, db)
  create_prepared url Prepared.broken db = (Outcome.errored, db)
  create_prepared url (Prepared.page p) db =
      if not (contains_hangul p.raw_title) && not (contains_hangul p.raw_text)
      then (Outcome.skipped Skip.excluded_non_korean, db)
      else if is_before today (latest (web.mentioned p.raw_text))
      then (Outcome.skipped Skip.excluded_ended, db)
      else persisted db (create_draft env (collected source url p) db.review)

  unfoldable pub create_collected_draft_from_url : Text → Db → Outcome × Db
  unfolding create_prepared
  create_collected_draft_from_url url db = create_prepared url (web.prepare url) db

  unfoldable pub decide_robots : Text → Robots → Db → Outcome × Db
  unfolding create_collected_draft_from_url
  decide_robots url Robots.disallowed db = (Outcome.skipped Skip.robots_disallowed, db)
  decide_robots url Robots.unreachable db = (Outcome.skipped Skip.robots_fetch_failed, db)
  decide_robots url Robots.allowed db = create_collected_draft_from_url url db

  unfoldable pub decide_and_create_candidate : Text → Bool → Bool → Bool → Db → Outcome × Db
  unfolding decide_robots
  decide_and_create_candidate url already_exists budget_available at_creation_cap db =
      if already_exists
      then (Outcome.known, db)
      else if at_creation_cap || not budget_available
      then (Outcome.held_back, db)
      else decide_robots url (web.robots url) db

abbrev pub initial_drafts_per_promoted_source : ℕ
initial_drafts_per_promoted_source = 5

abbrev pub one_if : Bool → ℕ
one_if b = if b then 1 else 0

-- The loop, with the URLs that were drafts before it, and what was created and fetched so far.
unfoldable pub initial_drafts :
    Review.Platform → Web → ℕ → Source → ℕ → List Text → ℕ → ℕ → List Text → Db → Db
unfolding decide_and_create_candidate text_in
initial_drafts env web today source budget existing made fetches [] db = db
initial_drafts env web today source budget existing made fetches (url ∷ urls) db =
    let (o, db') =
      decide_and_create_candidate env web today source url (text_in url existing)
        (ltb fetches budget) (leb initial_drafts_per_promoted_source made) db in
    initial_drafts env web today source budget existing (made + one_if (is_created o))
      (fetches + one_if (consumed_fetch_budget o)) urls db'
