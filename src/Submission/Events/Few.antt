-- ===== src/Submission/Events/Few.antt =====
-- The limit on the drafts of a run in drafts/agent_drafts.py, and the unique address of drafts/models.py.
use takulife.Common.{
  ℕ, ◌+◌, ◌≤◌, String, Bool, true, false, not, ◌&&◌, Option, none, some, List, [], ◌∷◌, ◌++◌, ◌≡◌,
  refl, subst, arith, ==_iff, count, count_of_not_exists, exists, first, or_else, Text, text_eq_iff,
  if◌then◌else◌,
}
use takulife.Common.Exec.{Result, ok, err, raise_if, post-atomic, post-raise_if, ◌>>=◌, ◌>>◌}
use takulife.Discovery.Model.{Run}
use takulife.Discovery.Runs.{max_events_per_run}
use takulife.Publishing.Model.{data_error}
use takulife.Review.Model as Review
use takulife.Review.Model.{Draft, Payload, draft_creation_duplicate, uncaught}
use takulife.Review.Drafts.{has_source, new_draft, create_draft, insert_unique, append_draft}
use takulife.Submission.Model.{Db, Error, Exclusion, event_limit}
use takulife.Submission.Store.{leased_run, renewed}
use takulife.Submission.Store.Limited.{IsLimited, count-added, rows_kept}
use takulife.Submission.Store.Rows.{leased_then, renewed-IsLimited}
use takulife.Submission.Agent.{AgentPayload, Python, look}
use takulife.Submission.Agent.Parse.{
  AgentEvent, exclusion_reason, parse_agent_draft_payload, build_intake_note,
}
use takulife.Submission.Events.{
  is_run, of_events, events_full, draft_payload, has_null, create_draft_from_fields,
  created_or_existing, create_noted, create_event, store_locked, store_event, reread, submit_read,
  submit_event, submit_parsed, submit_agent_draft,
}

pub record AreFew (ds : List Draft) : Type 0 where
  pub room : (run : ℕ) → count (of_events run) ds ≤ max_events_per_run
  pub once : (url : Text) → count (has_source url) ds ≤ 1

-- The run of a draft, if it has one, has room for it.
abbrev pub HasRoom : Option ℕ → List Draft → Type 0
HasRoom o ds = (run : ℕ) → is_run run o ≡ true → count (of_events run) ds + 1 ≤ max_events_per_run

added-AreFew :
    (d : Draft) (ds : List Draft)
    → HasRoom d.payload.discovery_run ds
    → exists (has_source d.payload.source_url) ds ≡ false
    → AreFew ds
    → AreFew (ds ++ d ∷ [])
added-AreFew d ds room absent v = record {
  room = λ run. count-added (of_events run) ds d max_events_per_run (v.room run) (room run);
  once = λ url. count-added (has_source url) ds d 1 (v.once url) (λ e.
      subst (λ u. count (has_source u) ds + 1 ≤ 1) ((text_eq_iff d.payload.source_url url).0 e)
        (omega (arith, count_of_not_exists (has_source d.payload.source_url) ds absent)));
}

pub create_draft-AreFew :
    (env : Review.Platform) (payload : Payload) (review : Review.Db)
    → HasRoom payload.discovery_run review.drafts
    → AreFew review.drafts
    → AreFew (create_draft env payload review).1.drafts
unfolding create_draft insert_unique append_draft
create_draft-AreFew env payload review room v = checked (env.draft_fits payload)
  where
    inserted :
        (taken : Bool)
        → exists (has_source payload.source_url) review.drafts ≡ taken
        → AreFew ((raise_if taken draft_creation_duplicate >> append_draft payload) review).1.drafts
    inserted true e = v
    inserted false e = added-AreFew (new_draft payload review) review.drafts room e v

    checked :
        (fits : Bool)
        → AreFew
            ((raise_if (not fits) (uncaught data_error) >> insert_unique payload) review).1.drafts
    checked false = v
    checked true = inserted (exists (has_source payload.source_url) review.drafts) refl

-- All the limits of a submission.
pub record IsWithin (db : Db) : Type 0 where
  pub limited : IsLimited db
  pub few : AreFew db.review.drafts

-- What holds after an action.
abbrev pub After : {A : Type 0} → Result Error A × Db → Type 0
After x = IsWithin x.1

pub with_drafts :
    (db : Db) (r : Review.Db) → IsWithin db → AreFew r.drafts → IsWithin (record db { review = r })
with_drafts db r v few = record { limited = rows_kept db r v.limited; few = few }

pub renewed-IsWithin : (id now : ℕ) (db : Db) → IsWithin db → IsWithin (renewed id now db)
unfolding renewed
renewed-IsWithin id now db v = record {
  limited = renewed-IsLimited id now db v.limited;
  few = v.few;
}

module _ (py : Python) (env : Review.Platform) where
  not_full : (run : ℕ) (db : Db) → events_full run db ≡ false → HasRoom (some run) db.review.drafts
  not_full run db h r e =
      subst (λ i. count (of_events i) db.review.drafts + 1 ≤ max_events_per_run)
        ((==_iff run r).0 e) (ground (arith, h))

  create_noted-IsWithin :
      (run : ℕ) (p : AgentPayload) (ev : AgentEvent) (note : Result Error (Option Text)) (db : Db)
      → events_full run db ≡ false
      → IsWithin db
      → After (create_noted py env run p ev note db)
  unfolding create_noted create_draft_from_fields draft_payload
  create_noted-IsWithin run p ev (err e) db full v = v
  create_noted-IsWithin run p ev (ok note) db full v =
      answered
        (if has_null py p ev note && env.draft_fits payload
          then (err draft_creation_duplicate, db.review)
          else create_draft env payload db.review)
        (by_test (has_null py p ev note && env.draft_fits payload))
    where
      payload : Payload
      payload = draft_payload py run p ev (or_else note [])

      by_test :
          (b : Bool)
          → AreFew
              (if◌then◌else◌ {A = Result Review.Error Draft × Review.Db} b
                (err draft_creation_duplicate, db.review)
                (create_draft env payload db.review)).1.drafts
      by_test true = v.few
      by_test false = create_draft-AreFew env payload db.review (not_full run db full) v.few

      answered :
          (x : Result Review.Error Draft × Review.Db)
          → AreFew x.1.drafts
          → After (created_or_existing py env ev.source_url db x)
      answered (ok d, review) w = with_drafts db review v w
      answered (err draft_creation_duplicate, review) w = v
      answered (err e, review) w = v

  store_locked-IsWithin :
      (later : ℕ) (p : AgentPayload) (ev : AgentEvent) (run : Run) (db : Db)
      → IsWithin db
      → After (store_locked py env later p ev run db)
  unfolding store_locked create_event renewed
  store_locked-IsWithin later p ev run db v =
      by_case (first (has_source ev.source_url) db.review.drafts)
    where
      at : Db
      at = renewed run.id later db

      by_case : (o : Option Draft) → After (create_event py env run.id p ev o at)
      by_case (some d) = renewed-IsWithin run.id later db v
      by_case none =
          post-raise_if After (events_full run.id at) event_limit
            (create_noted py env run.id p ev (build_intake_note py p ev.note)) at
            (λ e. renewed-IsWithin run.id later db v)
            (λ e.
              create_noted-IsWithin run.id p ev (build_intake_note py p ev.note) at e
                (renewed-IsWithin run.id later db v))

  module _ (recheck : Text → Option Error) (rival : Db → Db) where
    submit_event-IsWithin :
        (id : ℕ) (token : String) (p : AgentPayload) (now later : ℕ) (ev : AgentEvent)
        (o : Option Exclusion) (db : Db)
        → IsWithin db
        → IsWithin (rival db)
        → After (submit_event py env recheck rival id token p now later ev o db)
    unfolding submit_event submit_read store_event
    submit_event-IsWithin id token p now later ev (some reason) db v w = v
    submit_event-IsWithin id token p now later ev none db v w =
        leased_then After id token now
          (λ run.
            submit_read py env recheck rival id token later p ev
              (reread py env recheck ev.source_url))
          db (λ e. v) (λ run h same. read (reread py env recheck ev.source_url))
      where
        stored : After ((leased_run id token later >>= store_locked py env later p ev) (rival db))
        stored =
            leased_then After id token later (store_locked py env later p ev) (rival db) (λ e. w)
              (λ run h same. store_locked-IsWithin later p ev run (rival db) w)

        read :
            (e : Option Error) → After (submit_read py env recheck rival id token later p ev e db)
        read (some e) = w
        read none =
            post-atomic After (leased_run id token later >>= store_locked py env later p ev)
              (rival db) (λ e s q. w) (λ a s q. subst After q stored)

    pub submit_agent_draft-IsWithin :
        (today id : ℕ) (token : String) (p : AgentPayload) (now later : ℕ) (db : Db)
        → IsWithin db
        → IsWithin (rival db)
        → After (submit_agent_draft py env recheck rival today id token p now later db)
    unfolding submit_agent_draft
    submit_agent_draft-IsWithin today id token p now later db v w =
        by_case (parse_agent_draft_payload py p db.review.site)
      where
        by_case :
            (r : Result Error AgentEvent)
            → After (submit_parsed py env recheck rival today id token p now later r db)
        by_case (err e) = v
        by_case (ok ev) =
            submit_event-IsWithin id token p now later ev
              (exclusion_reason today (look "venue_country" p) ev.start_date ev.end_date) db v w
