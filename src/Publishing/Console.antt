-- ===== src/Publishing/Console.antt =====
-- The staff console on events and categories: the views of staff/views/events.py,
-- staff/views/events_actions.py and staff/views/categories.py that change the stored state, with
-- `validate_category_slug` of core/validators.py. A view runs in one transaction and answers with
-- an error where it raises; the pages that are drawn are left out.
use takulife.Common.{
  ℕ, ◌+◌, ◌<◌, String, Bool, true, false, not, ◌&&◌, ◌||◌, Option, none, some, List, [], ◌∷◌, ◌++◌,
  ◌==◌, ltb, leb, length, count, exists, first, select, update, is_some, Text, codes, is_empty,
  str_eq, if◌then◌else◌,
}
use takulife.Common.Exec.{
  Result, ok, err, Exec, pure, raise, gets, modify, raise_if, atomic, ◌>>=◌, ◌>>◌,
}
use takulife.Publishing.Model.{
  PublishStatus, draft, published, Fields, Event, Category, ActionLog, Target, Action, Db, Error,
  Platform, does_not_exist, validation_error, palette_slots_exhausted, integrity,
}
use takulife.Publishing.Slots.{
  is_published, palette_slot_count, create_category, set_active, category_clash,
}
use takulife.Publishing.Slots as Slots
use takulife.Publishing.Events.{
  has_pk, found, create_published_event, update_published_event, unpublish_event, republish_event,
  mark_event_verified, References, reference_count, delete_event,
}
pub mod StoredCategories
pub mod Labels

-- `StaffActionLog.objects.create(...)`
unfoldable pub log_action : Action → Target → Exec Db Error (Unit {0})
log_action action target = modify (λ (db : Db). record db {
  action_log = db.action_log ++ record { action = action; target = target } ∷ [];
})

-- `get_object_or_404(Event.objects.select_for_update(), pk=pk)`
unfoldable pub get_event : ℕ → Exec Db Error Event
unfolding first
get_event pk = do row ← gets (λ (db : Db). first (has_pk pk) db.events); found row

unfoldable pub log_event : Action → Event → Exec Db Error Event
unfolding log_action
log_event action e = do log_action action (Target.event e.pk); pure e

unfoldable pub staff_event_create : Platform → Fields → Exec Db Error Event
staff_event_create env f =
    atomic (do e ← create_published_event env f; log_event Action.event_create e)

unfoldable pub edit_found : Platform → Fields → Event → Exec Db Error Event
edit_found env f row = do e ← update_published_event env row f; log_event Action.event_update e

unfoldable pub staff_event_edit : Platform → ℕ → Fields → Exec Db Error Event
unfolding edit_found
staff_event_edit env pk f = atomic (do row ← get_event pk; edit_found env f row)

-- The change to a status, and its entry in the log.
unfoldable pub move_logged : Platform → PublishStatus → Event → Exec Db Error Event
move_logged env draft row = do e ← unpublish_event row; log_event Action.event_unpublish e
move_logged env published row = do e ← republish_event env row; log_event Action.event_republish e

-- `event.publish_status != publish_status`
abbrev pub has_status : PublishStatus → Event → Bool
has_status draft e = not (is_published e.publish_status)
has_status published e = is_published e.publish_status

unfoldable pub set_found : Platform → PublishStatus → Event → Exec Db Error Event
set_found env status row = if has_status status row then pure row else move_logged env status row

-- `StaffEventPublishStatusView.post`
unfoldable pub set_publish_status : Platform → ℕ → PublishStatus → Exec Db Error Event
unfolding set_found
set_publish_status env pk status = atomic (do row ← get_event pk; set_found env status row)

abbrev pub opposite : Event → PublishStatus
opposite e = if is_published e.publish_status then draft else published

unfoldable pub toggle_found : Platform → Event → Exec Db Error Event
toggle_found env row = move_logged env (opposite row) row

unfoldable pub staff_event_toggle_publish : Platform → ℕ → Exec Db Error Event
unfolding toggle_found
staff_event_toggle_publish env pk = atomic (do row ← get_event pk; toggle_found env row)

unfoldable pub verify_found : ℕ → Event → Exec Db Error Event
verify_found now row = do e ← mark_event_verified row now; log_event Action.event_verify e

unfoldable pub staff_event_verify : ℕ → ℕ → Exec Db Error Event
unfolding verify_found
staff_event_verify pk now = atomic (do row ← get_event pk; verify_found now row)

unfoldable pub unpublish_found : Event → Exec Db Error Event
unpublish_found row =
    if is_published row.publish_status
    then (do e ← unpublish_event row; log_event Action.event_unpublish e)
    else pure row

-- What `_unpublish_one` reports.
pub data Reason : Type 0 where
  not_found unexpected_error : Reason

abbrev pub reason_of : Result Error Event → Option Reason
reason_of (ok e) = none
reason_of (err does_not_exist) = some not_found
reason_of (err e) = some unexpected_error

unfoldable pub unpublish_one : ℕ → Db → Option Reason × Db
unfolding get_event unpublish_found
unpublish_one pk db =
    let (r, db') = atomic (do row ← get_event pk; unpublish_found row) db in (reason_of r, db')

-- The loop of `StaffEventBulkUnpublishView.post`: each number with its reason, and the state
unfoldable pub bulk_unpublish : List ℕ → Db → List (ℕ × Option Reason) × Db
bulk_unpublish [] db = ([], db)
bulk_unpublish (pk ∷ pks) db =
    let (reason, db') = unpublish_one pk db in
    let (rest, db'') = bulk_unpublish pks db' in ((pk, reason) ∷ rest, db'')

abbrev pub max_bulk_event_ids : ℕ
max_bulk_event_ids = 20

-- `_validate_bulk_ids` on a list of numbers
abbrev pub is_bulk : ℕ → List ℕ → Bool
is_bulk max_items ids = ltb 0 (length ids) && leb (length ids) max_items

unfoldable pub delete_found : (ℕ → References) → Event → Exec Db Error (Unit {0})
delete_found references row = do
  log_action Action.event_delete (Target.event row.pk)
  delete_event references row

-- `staff_event_delete` after the confirmation
unfoldable pub staff_event_delete : (ℕ → References) → ℕ → Exec Db Error (Unit {0})
unfolding delete_found
staff_event_delete references pk = atomic (do row ← get_event pk; delete_found references row)

-- `CATEGORY_SLUG_PATTERN`
abbrev pub is_slug_char : ℕ → Bool
is_slug_char c = (leb b'a' c && leb c b'z') || (leb b'0' c && leb c b'9') || c == b'_'

unfoldable pub all_slug_chars : Text → Bool
all_slug_chars [] = true
all_slug_chars (c ∷ cs) = is_slug_char c && all_slug_chars cs

unfoldable pub is_category_slug : String → Bool
unfolding all_slug_chars
is_category_slug slug = not (is_empty (codes slug)) && all_slug_chars (codes slug)

unfoldable pub log_category : Action → Category → Exec Db Error Category
unfolding log_action
log_category action c = do log_action action (Target.category c.pk); pure c

-- The categories that hold a slot.
abbrev pub assigned : Db → ℕ
assigned db = count (λ (c : Category). is_some c.palette_slot) db.categories

unfoldable pub create_locked : String → String → ℕ → Exec Db Error Category
create_locked slug label assigned_slots = do
  raise_if (leb palette_slot_count assigned_slots) palette_slots_exhausted
  c ← atomic (create_category slug label)
  log_category Action.category_create c

unfoldable pub category_create : String → String → Exec Db Error Category
unfolding is_category_slug create_locked
category_create slug label = do
  raise_if (not (is_category_slug slug)) validation_error
  raise_if (str_eq label "") validation_error
  atomic (do n ← gets assigned; create_locked slug label n)

abbrev pub found_category : Option Category → Exec Db Error Category
found_category none db = (err does_not_exist, db)
found_category (some c) db = (ok c, db)

unfoldable pub get_category : ℕ → Exec Db Error Category
unfolding first
get_category pk = do
  row ← gets (λ (db : Db). first (Slots.has_pk pk) db.categories)
  found_category row

abbrev pub toggle_action : Bool → Action
toggle_action true = Action.category_enable
toggle_action false = Action.category_disable

abbrev pub same_bool : Bool → Bool → Bool
same_bool true b = b
same_bool false b = not b

unfoldable pub activate : Bool → Category → Exec Db Error Category
activate enabled row = do set_active row enabled; log_category (toggle_action enabled) row

unfoldable pub activate_found : Bool → Category → Exec Db Error Category
unfolding activate
activate_found enabled row =
    if same_bool row.is_active enabled then pure row else activate enabled row

unfoldable pub category_set_active : ℕ → Bool → Exec Db Error Category
unfolding activate_found
category_set_active pk enabled = atomic (do row ← get_category pk; activate_found enabled row)
