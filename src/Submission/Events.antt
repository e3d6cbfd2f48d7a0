-- ===== src/Submission/Events.antt =====
-- `submit_agent_draft` of drafts/agent_drafts.py. The clock is read as `now` and `later`, before and
-- after the page is read again; `rival` is what other requests commit meanwhile.
use takulife.Common.{
  ℕ, ◌+◌, String, Bool, true, false, not, ◌&&◌, ◌||◌, is_some, or_else, Option, none, some, List,
  [], ◌∷◌, ◌==◌, leb, count, exists, first, Text, text_in, codes, if◌then◌else◌,
}
use takulife.Common.Exec.{
  Result, ok, err, Exec, pure, raise, gets, modify, raise_if, atomic, ◌>>=◌, ◌>>◌,
}
use takulife.Discovery.Model.{Run}
use takulife.Discovery.Runs.{max_events_per_run}
use takulife.Review.Model as Review
use takulife.Review.Model.{Draft, Payload, llm, collected, draft_creation_duplicate}
use takulife.Review.Drafts.{has_source, create_draft}
use takulife.Submission.Model.{Db, Error, draft, excluded, Exclusion, event_limit}
use takulife.Submission.Store.{leased_run, renewed}
use takulife.Submission.Agent.{
  Json, text, null, Member, plain, AgentPayload, Python, look, or_text, or_missing, str_of,
}
use takulife.Submission.Agent.Parse.{
  AgentEvent, exclusion_reason, parse_agent_draft_payload, build_intake_note,
}
pub mod Accepted
pub mod Few

-- `SNS_HOSTNAMES`
abbrev pub sns_hostnames : List Text
sns_hostnames =
    codes "x.com"
    ∷ codes "www.x.com"
    ∷ codes "twitter.com"
    ∷ codes "www.twitter.com"
    ∷ codes "instagram.com"
    ∷ codes "www.instagram.com"
    ∷ []

abbrev pub is_sns : Option Text → Bool
is_sns none = false
is_sns (some host) = text_in host sns_hostnames

abbrev pub is_null : Member → Bool
is_null (plain null) = true
is_null _ = false

-- The columns that the payload fills as it stands.
abbrev pub text_fields : List String
text_fields = "title" ∷ "work_title" ∷ "location_name" ∷ "summary" ∷ []

abbrev pub text_members : List String
text_members = "source_name" ∷ "raw_title" ∷ "raw_text" ∷ []

abbrev pub is_run : ℕ → Option ℕ → Bool
is_run run none = false
is_run run (some r) = r == run

abbrev pub of_events : ℕ → Draft → Bool
of_events run d = is_run run d.payload.discovery_run

abbrev pub events_full : ℕ → Db → Bool
events_full run db = leb max_events_per_run (count (of_events run) db.review.drafts)

module _ (py : Python) where
  abbrev pub field : String → AgentEvent → Text
  field key ev = codes (str_of py (plain (or_text (look key ev.fields))))

  abbrev pub member : String → AgentPayload → Text
  member key p = codes (str_of py (or_missing (look key p)))

  -- The arguments of `create_draft_from_fields`.
  unfoldable pub draft_payload : ℕ → AgentPayload → AgentEvent → Text → Payload
  unfolding look
  draft_payload run p ev note = record {
    source_url = ev.source_url;
    source_name = member "source_name" p;
    raw_title = member "raw_title" p;
    raw_text = member "raw_text" p;
    extracted_title = field "title" ev;
    extracted_category = ev.category;
    extracted_work_title = field "work_title" ev;
    extracted_location_name = field "location_name" ev;
    extracted_region = ev.region;
    extracted_start_date = ev.start_date;
    extracted_end_date = ev.end_date;
    extracted_summary = field "summary" ev;
    extraction_method = llm;
    origin = collected;
    intake_note = note;
    discovery_run = some run;
  }

  unfoldable pub has_null : AgentPayload → AgentEvent → Option Text → Bool
  unfolding look exists
  has_null p ev note =
      exists (λ key. is_null (plain (or_text (look key ev.fields)))) text_fields
      || exists (λ key. is_null (or_missing (look key p))) text_members
      || not (is_some note)

  module _ (env : Review.Platform) where
    -- `create_draft_from_fields`; a null in a column raises `IntegrityError`, as a URL that is taken.
    unfoldable pub create_draft_from_fields : Bool → Payload → Exec Review.Db Review.Error Draft
    unfolding create_draft
    create_draft_from_fields nulls payload db =
        if nulls && env.draft_fits payload
        then (err draft_creation_duplicate, db)
        else create_draft env payload db

    -- The draft, and whether it was made: `except DraftCreationDuplicateError` looks for it again.
    abbrev pub created_or_existing :
        Text → Db → Result Review.Error Draft × Review.Db → Result Error (Option Draft × Bool) × Db
    created_or_existing url db (ok d, review) = (ok (some d, true), record db { review = review })
    created_or_existing url db (err draft_creation_duplicate, review) =
        (ok (first (has_source url) db.review.drafts, false), db)
    created_or_existing url db (err e, review) = (err (draft e), db)

    unfoldable pub create_noted :
        ℕ
        → AgentPayload
        → AgentEvent
        → Result Error (Option Text)
        → Exec Db Error (Option Draft × Bool)
    unfolding create_draft_from_fields has_null draft_payload
    create_noted run p ev (err e) db = (err e, db)
    create_noted run p ev (ok note) db = created_or_existing ev.source_url db (
        create_draft_from_fields (has_null p ev note) (draft_payload run p ev (or_else note []))
          db.review)

    unfoldable pub create_event :
        ℕ → AgentPayload → AgentEvent → Option Draft → Exec Db Error (Option Draft × Bool)
    unfolding create_noted build_intake_note count
    create_event run p ev (some d) = pure (some d, false)
    create_event run p ev none = do
      full ← gets (events_full run)
      raise_if full event_limit
      create_noted run p ev (build_intake_note py p ev.note)

    unfoldable pub store_locked :
        ℕ → AgentPayload → AgentEvent → Run → Exec Db Error (Option Draft × Bool)
    unfolding create_event renewed first
    store_locked later p ev run = do
      modify (renewed run.id later)
      existing ← gets (λ (db : Db). first (has_source ev.source_url) db.review.drafts)
      create_event run.id p ev existing

    unfoldable pub store_event :
        ℕ → String → ℕ → AgentPayload → AgentEvent → Exec Db Error (Option Draft × Bool)
    unfolding leased_run store_locked
    store_event id token later p ev =
        atomic (do run ← leased_run id token later; store_locked later p ev run)

    -- What reading the page again raises: `validate_fetch_url`, robots.txt and `fetch_html`.
    abbrev pub reread : (Text → Option Error) → Text → Option Error
    reread recheck url = if is_sns (py.hostname url) then none else recheck url

    module _ (recheck : Text → Option Error) (rival : Db → Db) where
      unfoldable pub submit_read :
          ℕ
          → String
          → ℕ
          → AgentPayload
          → AgentEvent
          → Option Error
          → Exec Db Error (Option Draft × Bool)
      unfolding store_event
      submit_read id token later p ev (some e) db = (err e, rival db)
      submit_read id token later p ev none db = store_event id token later p ev (rival db)

      unfoldable pub submit_event :
          ℕ
          → String
          → AgentPayload
          → ℕ
          → ℕ
          → AgentEvent
          → Option Exclusion
          → Exec Db Error (Option Draft × Bool)
      unfolding submit_read leased_run text_in
      submit_event id token p now later ev (some reason) = raise (excluded reason)
      submit_event id token p now later ev none = do
        run ← leased_run id token now
        submit_read id token later p ev (reread recheck ev.source_url)

      abbrev pub submit_parsed :
          ℕ
          → ℕ
          → String
          → AgentPayload
          → ℕ
          → ℕ
          → Result Error AgentEvent
          → Exec Db Error (Option Draft × Bool)
      submit_parsed today id token p now later (err e) = raise e
      submit_parsed today id token p now later (ok ev) =
          submit_event id token p now later ev
            (exclusion_reason today (look "venue_country" p) ev.start_date ev.end_date)

      unfoldable pub submit_agent_draft :
          ℕ → ℕ → String → AgentPayload → ℕ → ℕ → Exec Db Error (Option Draft × Bool)
      unfolding submit_event parse_agent_draft_payload exclusion_reason look
      submit_agent_draft today id token p now later db =
          submit_parsed today id token p now later (parse_agent_draft_payload py p db.review.site)
            db
