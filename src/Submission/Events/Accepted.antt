-- ===== src/Submission/Events/Accepted.antt =====
-- The drafts that `submit_agent_draft` of drafts/agent_drafts.py makes.
use takulife.Common.{
  ℕ, String, Bool, true, false, not, ◌&&◌, Option, none, some, [], ◌≡◌, refl, subst, first, exists,
  exists_of_none, or_else, Text, if◌then◌else◌,
}
use takulife.Common.Exec.{
  Result, ok, err, raise_if, Answered, atomic-Answered, post-raise_if, ◌>>=◌, ◌>>◌,
}
use takulife.Discovery.Model.{Run}
use takulife.Publishing.Model as Publishing
use takulife.Publishing.Model.{data_error}
use takulife.Review.Model as Review
use takulife.Review.Model.{Draft, ReviewStatus, Payload, draft_creation_duplicate, uncaught}
use takulife.Review.Drafts.{has_source, new_draft, create_draft, insert_unique, append_draft}
use takulife.Submission.Model.{Db, Error, Exclusion, overseas, event_limit}
use takulife.Submission.Store.{leased_run, renewed}
use takulife.Submission.Store.Rows.{leased_then}
use takulife.Submission.Agent.{Member, AgentPayload, Python, look}
use takulife.Submission.Agent.Parse.{
  AgentEvent, is_not_kr, last_day, ended_before, exclusion_reason, parse_agent_draft_payload,
  build_intake_note,
}
use takulife.Submission.Agent.Cleaned.{IsClean, parse-IsClean}
use takulife.Submission.Events.{
  draft_payload, has_null, create_draft_from_fields, created_or_existing, create_noted,
  create_event, events_full, store_locked, store_event, reread, submit_read, submit_event,
  submit_parsed, submit_agent_draft,
}

-- A draft of an event that keeps the contract, is neither abroad nor over, and has a new address.
pub record IsAccepted (py : Python) (p : AgentPayload) (id today : ℕ) (site : Publishing.Db)
    (before : Db) (d : Draft) : Type 0 where
  pub event : AgentEvent
  pub note : Text
  pub clean : IsClean py p site event
  pub fields : d.payload ≡ draft_payload py id p event note
  pub pending : d.review_status ≡ ReviewStatus.pending
  pub is_new : exists (has_source event.source_url) before.review.drafts ≡ false
  pub in_country : is_not_kr (look "venue_country" p) ≡ false
  pub not_over : ended_before today (last_day event.start_date event.end_date) ≡ none

not_excluded :
    (today : ℕ) (m : Option Member) (start end : Option ℕ)
    → exclusion_reason today m start end ≡ none
    → (is_not_kr m ≡ false) × (ended_before today (last_day start end) ≡ none)
unfolding exclusion_reason
not_excluded today m start end h = by_case (is_not_kr m) refl h
  where
    by_case :
        (b : Bool)
        → is_not_kr m ≡ b
        → (if b then some overseas else ended_before today (last_day start end)) ≡ none
        → (is_not_kr m ≡ false) × (ended_before today (last_day start end) ≡ none)
    by_case true e h = cc
    by_case false e h = (e, h)

made_same : (a b : Draft) → ◌≡◌ {A = Option Draft × Bool} (some a, true) (some b, true) → a ≡ b
made_same a b e = cc

module _ (py : Python) (env : Review.Platform) where
  -- What is said of an answer that a draft was made.
  abbrev Made : (Draft → Type 0) → Option Draft × Bool → Type 0
  Made Q a = (d : Draft) → a ≡ (some d, true) → Q d

  create_noted-Made :
      (Q : Draft → Type 0) (run : ℕ) (p : AgentPayload) (ev : AgentEvent)
      (note : Result Error (Option Text)) (db : Db)
      → ((text : Text) (d : Draft)
          → d.payload ≡ draft_payload py run p ev text
          → d.review_status ≡ ReviewStatus.pending
          → Q d)
      → Answered (Made Q) (create_noted py env run p ev note db)
  unfolding create_noted create_draft_from_fields create_draft insert_unique append_draft
      draft_payload
  create_noted-Made Q run p ev (err e) db made = tt
  create_noted-Made Q run p ev (ok note) db made =
      by_nulls (has_null py p ev note) (env.draft_fits payload)
    where
      payload : Payload
      payload = draft_payload py run p ev (or_else note [])

      inserted :
          (taken : Bool)
          → Answered (Made Q) (
              created_or_existing py env ev.source_url db
                ((raise_if taken draft_creation_duplicate >> append_draft payload) db.review))
      inserted true = λ d e. cc
      inserted false = λ d e.
          subst Q (made_same (new_draft payload db.review) d e)
            (made (or_else note []) (new_draft payload db.review) refl refl)

      by_nulls :
          (nulls fits : Bool)
          → Answered (Made Q) (
              created_or_existing py env ev.source_url db (
                if nulls && fits
                then (err draft_creation_duplicate, db.review)
                else (raise_if (not fits) (uncaught data_error) >> insert_unique payload)
                    db.review))
      by_nulls true true = λ d e. cc
      by_nulls true false = tt
      by_nulls false false = tt
      by_nulls false true = inserted (exists (has_source payload.source_url) db.review.drafts)

  store_locked-Made :
      (Q : Draft → Type 0) (later : ℕ) (p : AgentPayload) (ev : AgentEvent) (run : Run) (db : Db)
      → ((text : Text) (d : Draft)
          → d.payload ≡ draft_payload py run.id p ev text
          → d.review_status ≡ ReviewStatus.pending
          → exists (has_source ev.source_url) db.review.drafts ≡ false
          → Q d)
      → Answered (Made Q) (store_locked py env later p ev run db)
  unfolding store_locked create_event renewed
  store_locked-Made Q later p ev run db made =
      by_case (first (has_source ev.source_url) db.review.drafts) refl
    where
      at : Db
      at = renewed run.id later db

      by_case :
          (o : Option Draft)
          → first (has_source ev.source_url) db.review.drafts ≡ o
          → Answered (Made Q) (create_event py env run.id p ev o at)
      by_case (some d) h = λ d' e. cc
      by_case none h =
          post-raise_if (Answered (Made Q)) (events_full run.id at) event_limit
            (create_noted py env run.id p ev (build_intake_note py p ev.note)) at (λ e. tt)
            (λ e. create_noted-Made Q run.id p ev (build_intake_note py p ev.note) at (λ text d f r.
              made text d f r (exists_of_none (has_source ev.source_url) db.review.drafts h)))

  module _ (recheck : Text → Option Error) (rival : Db → Db) where
    submit_event-Made :
        (Q : Draft → Type 0) (id : ℕ) (token : String) (p : AgentPayload) (now later : ℕ)
        (ev : AgentEvent) (o : Option Exclusion) (db : Db)
        → ((text : Text) (d : Draft)
            → o ≡ none
            → d.payload ≡ draft_payload py id p ev text
            → d.review_status ≡ ReviewStatus.pending
            → exists (has_source ev.source_url) (rival db).review.drafts ≡ false
            → Q d)
        → Answered (Made Q) (submit_event py env recheck rival id token p now later ev o db)
    unfolding submit_event submit_read store_event
    submit_event-Made Q id token p now later ev (some reason) db made = tt
    submit_event-Made Q id token p now later ev none db made =
        leased_then (Answered (Made Q)) id token now
          (λ run.
            submit_read py env recheck rival id token later p ev
              (reread py env recheck ev.source_url))
          db (λ e. tt) (λ run h same. read (reread py env recheck ev.source_url))
      where
        read :
            (e : Option Error)
            → Answered (Made Q) (submit_read py env recheck rival id token later p ev e db)
        read (some e) = tt
        read none =
            atomic-Answered (Made Q) (leased_run id token later >>= store_locked py env later p ev)
              (rival db)
              (leased_then (Answered (Made Q)) id token later (store_locked py env later p ev)
                (rival db) (λ e. tt)
                (λ run h same. store_locked-Made Q later p ev run (rival db) (λ text d f r n.
                  made text d refl (subst (λ i. d.payload ≡ draft_payload py i p ev text) same f) r
                    n)))

    -- A draft that is made is pending and belongs to the run; its address is the one that was
    -- sent, which is http or https and of at most 200 characters, without its tracking parameters;
    -- its category was known when it was sent, or is empty, and so is its region; its start is not
    -- after its end; the country was not given as another one, and neither its last day nor,
    -- without one, its first is past; and no draft had the address when it was stored.
    pub submit_agent_draft-IsAccepted :
        (today id : ℕ) (token : String) (p : AgentPayload) (now later : ℕ) (db db' : Db) (d : Draft)
        → submit_agent_draft py env recheck rival today id token p now later db
          ≡ (ok (some d, true), db')
        → IsAccepted py p id today db.review.site (rival db) d
    unfolding submit_agent_draft
    submit_agent_draft-IsAccepted today id token p now later db db' d h =
        subst (Answered (Made (IsAccepted py p id today db.review.site (rival db)))) h
          (by_case (parse_agent_draft_payload py p db.review.site) refl) d refl
      where
        by_case :
            (r : Result Error AgentEvent)
            → parse_agent_draft_payload py p db.review.site ≡ r
            → Answered
                (Made (IsAccepted py p id today db.review.site (rival db)))
                (submit_parsed py env recheck rival today id token p now later r db)
        by_case (err e) q = tt
        by_case (ok ev) q =
            submit_event-Made (IsAccepted py p id today db.review.site (rival db)) id token p now
              later ev (exclusion_reason today (look "venue_country" p) ev.start_date ev.end_date)
              db
              (λ text d kept f r n.
                let (here, ahead) =
                  not_excluded today (look "venue_country" p) ev.start_date ev.end_date kept in
                record {
                  event = ev;
                  note = text;
                  clean = parse-IsClean py p db.review.site ev q;
                  fields = f;
                  pending = r;
                  is_new = n;
                  in_country = here;
                  not_over = ahead;
                })
