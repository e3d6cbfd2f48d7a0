-- ===== src/Review/Drafts.antt =====
-- The functions of drafts/services.py that create, update and judge drafts. What fetches and
-- extracts a page before a draft is created is not modelled.
use takulife.Common.{
  ℕ, ◌+◌, Bool, true, false, not, Option, none, some, List, [], ◌∷◌, ◌++◌, ◌==◌, exists, first,
  update, Text, text_eq, is_empty, if◌then◌else◌,
}
use takulife.Common.Exec.{Result, ok, err, Exec, pure, gets, modify, raise_if, atomic, ◌>>=◌, ◌>>◌}
use takulife.Publishing.Model as Publishing
use takulife.Publishing.Model.{
  Fields, Event, duplicate_official_url, missing_official_url, publish_event_title, publish_event,
  invalid_event_period, publish_event_category, publish_event_region,
  publish_event_official_url_scheme, data_error,
}
use takulife.Publishing.Checks.{is_valid_category, is_valid_region}
use takulife.Publishing.Events.{create_published_event}
use takulife.Review.Model.{
  ReviewStatus, pending, approved, rejected, Payload, Draft, Db, Error, draft_state,
  draft_immutable_field, draft_vocab, draft_not_found, draft_publication_duplicate,
  draft_publication_missing_official_url, draft_publication, draft_publication_title,
  draft_creation_duplicate, uncaught, Update, Platform,
}

abbrev pub has_pk : ℕ → Draft → Bool
has_pk pk d = d.pk == pk

abbrev pub has_source : Text → Draft → Bool
has_source url d = text_eq d.payload.source_url url

abbrev pub new_draft : Payload → Db → Draft
new_draft payload db = record {
  pk = db.next_draft;
  payload = payload;
  review_status = pending;
  reviewed_by = none;
  approved_at = none;
  rejected_at = none;
  rejection_reason = [];
  reopened_at = none;
}

abbrev pub added_draft : Draft → Db → Db
added_draft d db = record db { drafts = db.drafts ++ d ∷ []; next_draft = db.next_draft + 1 }

unfoldable pub append_draft : Payload → Exec Db Error Draft
append_draft payload db = let d = new_draft payload db in (ok d, added_draft d db)

-- `EventDraft.objects.create(...)`, with `except IntegrityError`: the source address is unique.
unfoldable pub insert_unique : Payload → Exec Db Error Draft
unfolding append_draft exists
insert_unique payload = do
  taken ← gets (λ (db : Db). exists (has_source payload.source_url) db.drafts)
  raise_if taken draft_creation_duplicate
  append_draft payload

-- `persist_prepared_draft` and `create_draft_from_fields`
unfoldable pub create_draft : Platform → Payload → Exec Db Error Draft
unfolding insert_unique
create_draft env payload = do
  raise_if (not (env.draft_fits payload)) (uncaught data_error)
  insert_unique payload

abbrev pub same_status : ReviewStatus → ReviewStatus → Bool
same_status pending pending = true
same_status approved approved = true
same_status rejected rejected = true
same_status _ _ = false

abbrev pub expected : Bool → Draft → Exec Db Error Draft
expected true d db = (ok d, db)
expected false d db = (err draft_state, db)

abbrev pub expecting : ReviewStatus → Option Draft → Exec Db Error Draft
expecting status none db = (err draft_not_found, db)
expecting status (some d) db = expected (same_status status d.review_status) d db

unfoldable pub get_draft_for_update : ℕ → ReviewStatus → Exec Db Error Draft
unfolding first
get_draft_for_update pk expected_status = do
  row ← gets (λ (db : Db). first (has_pk pk) db.drafts)
  expecting expected_status row

-- `draft.save(update_fields=[...])` of a row that is locked
unfoldable pub save_draft : ℕ → (Draft → Draft) → Exec Db Error (Unit {0})
unfolding update
save_draft pk change =
    modify (λ (db : Db). record db { drafts = update (has_pk pk) change db.drafts })

abbrev pub is_other : Update → Bool
is_other (Update.other name) = true
is_other _ = false

abbrev pub category_invalid : Publishing.Db → Update → Bool
category_invalid site (Update.extracted_category value) = not (is_valid_category value site)
category_invalid site _ = false

abbrev pub region_invalid : Update → Bool
region_invalid (Update.extracted_region value) = not (is_valid_region value)
region_invalid _ = false

unfoldable pub category_update_invalid : List Update → Publishing.Db → Bool
unfolding exists is_valid_category
category_update_invalid updates site = exists (category_invalid site) updates

unfoldable pub region_update_invalid : List Update → Bool
unfolding exists is_valid_region
region_update_invalid updates = exists region_invalid updates

-- `setattr(draft, field, value)`
abbrev pub set_field : Update → Payload → Payload
set_field (Update.source_name value) p = record p { source_name = value }
set_field (Update.extracted_title value) p = record p { extracted_title = value }
set_field (Update.extracted_category value) p = record p { extracted_category = value }
set_field (Update.extracted_work_title value) p = record p { extracted_work_title = value }
set_field (Update.extracted_location_name value) p = record p { extracted_location_name = value }
set_field (Update.extracted_region value) p = record p { extracted_region = value }
set_field (Update.extracted_start_date value) p = record p { extracted_start_date = value }
set_field (Update.extracted_end_date value) p = record p { extracted_end_date = value }
set_field (Update.extracted_summary value) p = record p { extracted_summary = value }
set_field (Update.other name) p = p

unfoldable pub set_fields : List Update → Payload → Payload
set_fields [] p = p
set_fields (u ∷ us) p = set_fields us (set_field u p)

abbrev pub with_payload : Payload → Draft → Draft
with_payload p d = record d { payload = p }

unfoldable pub save_as : (Draft → Draft) → Draft → Exec Db Error Draft
unfolding save_draft
save_as change draft = do save_draft draft.pk change; pure (change draft)

unfoldable pub update_found : Platform → List Update → Draft → Exec Db Error Draft
unfolding set_fields save_as
update_found env updates draft =
    let p = set_fields updates draft.payload in
    raise_if (not (env.draft_fits p)) (uncaught data_error) >> save_as (with_payload p) draft

unfoldable pub update_pending : Platform → ℕ → List Update → Exec Db Error Draft
unfolding get_draft_for_update update_found
update_pending env pk updates = do
  draft ← get_draft_for_update pk pending
  update_found env updates draft

unfoldable pub update_known : Platform → ℕ → List Update → Bool → Exec Db Error Draft
unfolding region_update_invalid update_pending
update_known env pk updates invalid = do
  raise_if invalid draft_vocab
  raise_if (region_update_invalid updates) draft_vocab
  atomic (update_pending env pk updates)

unfoldable pub update_draft : Platform → ℕ → List Update → Exec Db Error Draft
unfolding category_update_invalid update_known exists
update_draft env pk updates = do
  raise_if (exists is_other updates) draft_immutable_field
  invalid ← gets (λ (db : Db). category_update_invalid updates db.site)
  update_known env pk updates invalid

-- `draft.extracted_title or draft.raw_title`
abbrev pub title_of : Payload → Text
title_of p = if is_empty p.extracted_title then p.raw_title else p.extracted_title

-- The arguments of `create_published_event`
abbrev pub fields_of : Payload → Fields
fields_of p = record {
  title = title_of p;
  category = p.extracted_category;
  work_title = p.extracted_work_title;
  location_name = p.extracted_location_name;
  region = p.extracted_region;
  start_date = p.extracted_start_date;
  end_date = p.extracted_end_date;
  official_url = some p.source_url;
  source_name = p.source_name;
  summary = p.extracted_summary;
}

-- The `except` clauses of `approve_draft`, in their order
abbrev pub publication_error : Publishing.Error → Error
publication_error duplicate_official_url = draft_publication_duplicate
publication_error missing_official_url = draft_publication_missing_official_url
publication_error publish_event_title = draft_publication_title
publication_error publish_event = draft_publication
publication_error invalid_event_period = draft_publication
publication_error publish_event_category = draft_publication
publication_error publish_event_region = draft_publication
publication_error publish_event_official_url_scheme = draft_publication
publication_error e = uncaught e

abbrev pub answered :
    {A : Type 0} → Db → Result Publishing.Error A × Publishing.Db → Result Error A × Db
answered db (ok a, site) = (ok a, record db { site = site })
answered db (err e, site) = (err (publication_error e), record db { site = site })

-- A function of the publisher, called with its exceptions mapped
abbrev pub on_site : {A : Type 0} → Exec Publishing.Db Publishing.Error A → Exec Db Error A
on_site m db = answered db (m db.site)

abbrev pub as_approved : ℕ → ℕ → Draft → Draft
as_approved actor now d = record d {
  review_status = approved;
  reviewed_by = some actor;
  approved_at = some now;
}

-- The result: the draft and the number of the event
unfoldable pub mark_approved : ℕ → ℕ → Draft → Event → Exec Db Error (Draft × ℕ)
unfolding save_draft
mark_approved actor now draft event = do
  save_draft draft.pk (as_approved actor now)
  pure (as_approved actor now draft, event.pk)

unfoldable pub approve_found : Platform → ℕ → ℕ → Draft → Exec Db Error (Draft × ℕ)
unfolding mark_approved
approve_found env actor now draft = do
  event ← on_site (create_published_event env.publisher (fields_of draft.payload))
  mark_approved actor now draft event

unfoldable pub approve_draft : Platform → ℕ → ℕ → ℕ → Exec Db Error (Draft × ℕ)
unfolding get_draft_for_update approve_found
approve_draft env pk actor now =
    atomic (do draft ← get_draft_for_update pk pending; approve_found env actor now draft)

abbrev pub as_rejected : ℕ → ℕ → Text → Draft → Draft
as_rejected actor now reason d = record d {
  review_status = rejected;
  reviewed_by = some actor;
  rejected_at = some now;
  rejection_reason = reason;
}

unfoldable pub reject_draft : ℕ → ℕ → ℕ → Text → Exec Db Error Draft
unfolding get_draft_for_update save_as
reject_draft pk actor now reason =
    atomic
      (do draft ← get_draft_for_update pk pending; save_as (as_rejected actor now reason) draft)

-- The account of the rejection is kept.
abbrev pub as_reopened : ℕ → Draft → Draft
as_reopened now d = record d { review_status = pending; reopened_at = some now }

unfoldable pub reopen_draft : ℕ → ℕ → Exec Db Error Draft
unfolding get_draft_for_update save_as
reopen_draft pk now =
    atomic (do draft ← get_draft_for_update pk rejected; save_as (as_reopened now) draft)
