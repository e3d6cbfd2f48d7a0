-- ===== src/Publishing/Events.antt =====
-- The operations on events: events/services.py, and `delete_event` of staff/services.py.
use takulife.Common.{
  ℕ, ◌+◌, Bool, false, not, ◌&&◌, Option, none, some, [], ◌∷◌, ◌++◌, map, ◌==◌, ltb, exists, first,
  select, update, Text, if◌then◌else◌,
}
use takulife.Common.Exec.{Result, ok, err, Exec, pure, gets, modify, raise_if, atomic, ◌>>=◌, ◌>>◌}
use takulife.Publishing.Model.{
  PublishStatus, draft, published, Fields, Event, ActionLog, Target, Db, Error, Platform,
  duplicate_official_url, publish_event, integrity, data_error, database_error, does_not_exist,
  event_has_archive_references,
}
use takulife.Publishing.Checks.{has_url, validate_publish_fields}
use takulife.Publishing.Slots.{reconcile_category_palette_slot}
pub mod Valid
pub mod Stored
pub mod Tidy
pub mod TidyOps
pub mod Created

abbrev pub has_pk : ℕ → Event → Bool
has_pk pk e = e.pk == pk

-- The unique constraint on `official_url`, between a row and an address that may be absent.
abbrev pub same_url : Option Text → Event → Bool
same_url none e = false
same_url (some url) e = has_url url e.fields.official_url

abbrev pub with_url : Text → Fields → Fields
with_url url f = record f { official_url = some url }

-- `Event.objects.create(...)`: the row is written under the unique constraint.
unfoldable pub append_event : Fields → Exec Db Error Event
append_event f = do
  pk ← gets (λ (db : Db). db.next_id)
  let row : Event = record { pk = pk; fields = f; publish_status = published; verified_at = none }
  modify (λ (db : Db). record db { events = db.events ++ row ∷ []; next_id = db.next_id + 1 })
  pure row

abbrev pub url_taken_by_any : Option Text → Db → Bool
url_taken_by_any url db = exists (same_url url) db.events

unfoldable pub insert_unique : Fields → Exec Db Error Event
unfolding append_event
insert_unique f = do
  taken ← gets (url_taken_by_any f.official_url)
  raise_if taken integrity
  append_event f

unfoldable pub insert_event : Platform → Fields → Exec Db Error Event
unfolding insert_unique
insert_event env f = do raise_if (not (env.fits f)) data_error; insert_unique f

-- `event.save(update_fields=[...])` of some columns: it fails where the row is gone.
unfoldable pub save_event : ℕ → (Event → Event) → Exec Db Error (Unit {0})
unfolding exists update
save_event pk change = do
  stored ← gets (λ (db : Db). exists (has_pk pk) db.events)
  raise_if (not stored) database_error
  modify (λ (db : Db). record db { events = update (has_pk pk) change db.events })

abbrev pub url_taken_by_other : ℕ → Option Text → Db → Bool
url_taken_by_other pk url db = exists (λ e. not (has_pk pk e) && same_url url e) db.events

abbrev pub with_fields : Fields → Event → Event
with_fields f e = record e { fields = f }

-- The same for the columns that the form holds, under the constraints.
unfoldable pub save_unique : ℕ → Fields → Exec Db Error (Unit {0})
unfolding save_event
save_unique pk f = do
  taken ← gets (url_taken_by_other pk f.official_url)
  raise_if taken integrity
  save_event pk (with_fields f)

unfoldable pub save_fields : Platform → ℕ → Fields → Exec Db Error (Unit {0})
unfolding save_unique
save_fields env pk f = do raise_if (not (env.fits f)) data_error; save_unique pk f

-- `except IntegrityError` and `except Exception` of the two functions that write the fields
abbrev pub publish_error : Error → Error
publish_error integrity = duplicate_official_url
publish_error e = publish_event

abbrev pub handled : {A : Type 0} → Result Error A × Db → Result Error A × Db
handled x = elim x.0 [ ok a ↦ (ok a, x.1) | err e ↦ (err (publish_error e), x.1) ]

abbrev pub except_publish : {A : Type 0} → Exec Db Error A → Exec Db Error A
except_publish m db = handled (m db)

-- The part after the row is stored, and the whole `try` block.
unfoldable pub reconcile_row : Fields → Event → Exec Db Error Event
reconcile_row f row = do reconcile_category_palette_slot f.category; pure row

unfoldable pub publish_valid : Platform → Fields → Text × Text → Exec Db Error Event
unfolding reconcile_row
publish_valid env f texts =
    except_publish (do row ← atomic (insert_event env (with_url texts.1 f)); reconcile_row f row)

unfoldable pub create_published_event : Platform → Fields → Exec Db Error Event
unfolding publish_valid
create_published_event env f = do
  texts ← validate_publish_fields env f none
  publish_valid env f texts

unfoldable pub update_valid : Platform → Event → Fields → Text × Text → Exec Db Error Event
update_valid env event f texts = do
  except_publish (atomic (save_fields env event.pk (with_url texts.1 f)))
  pure (with_fields (with_url texts.1 f) event)

unfoldable pub update_published_event : Platform → Event → Fields → Exec Db Error Event
unfolding update_valid
update_published_event env event f = do
  texts ← validate_publish_fields env f (some event.pk)
  update_valid env event f texts

abbrev pub with_status : PublishStatus → Event → Event
with_status status e = record e { publish_status = status }

-- `publish_status` is written, and the slot of the category reconciled.
unfoldable pub move_event : Event → PublishStatus → Exec Db Error Event
unfolding reconcile_row
move_event event status = do
  save_event event.pk (with_status status)
  reconcile_row event.fields (with_status status event)

unfoldable pub unpublish_event : Event → Exec Db Error Event
unfolding move_event
unpublish_event event = move_event event draft

unfoldable pub republish_event : Platform → Event → Exec Db Error Event
unfolding move_event
republish_event env event = do
  texts ← validate_publish_fields env event.fields (some event.pk)
  move_event event published

abbrev pub with_verified : ℕ → Event → Event
with_verified now e = record e { verified_at = some now }

unfoldable pub mark_event_verified : Event → ℕ → Exec Db Error Event
mark_event_verified event now = do
  save_event event.pk (with_verified now)
  pure (with_verified now event)

-- `on_delete=SET_NULL` of the action log
abbrev pub forget : ℕ → ActionLog → ActionLog
forget pk a = elim a.target [
  | Target.event k ↦ record a { target = if k == pk then Target.nothing else a.target }
  | Target.category k ↦ a
  | Target.nothing ↦ a
]

-- `event.delete()`
unfoldable pub hard_delete_event : Event → Exec Db Error (Unit {0})
unfolding select
hard_delete_event event = modify (λ (db : Db). record db {
  events = select (λ e. not (has_pk event.pk e)) db.events;
  action_log = map (forget event.pk) db.action_log;
})

-- `event_archive_reference_counts`: the rows of the archive that point at the event
pub record References : Type 0 where
  pub interest : ℕ
  pub status : ℕ
  pub visit : ℕ
  pub collection_item : ℕ

abbrev pub reference_count : References → ℕ
reference_count r = r.interest + r.status + r.visit + r.collection_item

abbrev pub found : Option Event → Exec Db Error Event
found none db = (err does_not_exist, db)
found (some e) db = (ok e, db)

unfoldable pub delete_unreferenced : (ℕ → References) → Event → Exec Db Error (Unit {0})
unfolding hard_delete_event
delete_unreferenced references event = do
  raise_if (ltb 0 (reference_count (references event.pk))) event_has_archive_references
  hard_delete_event event
  reconcile_category_palette_slot event.fields.category

unfoldable pub delete_locked : (ℕ → References) → Option Event → Exec Db Error (Unit {0})
unfolding delete_unreferenced
delete_locked references row = do
  locked_event ← found row
  delete_unreferenced references locked_event

-- `select_for_update().get(pk=...)` and the block of `delete_event`
unfoldable pub delete_event : (ℕ → References) → Event → Exec Db Error (Unit {0})
unfolding first delete_locked
delete_event references event =
    atomic
      (do row ← gets (λ (db : Db). first (has_pk event.pk) db.events); delete_locked references row)
