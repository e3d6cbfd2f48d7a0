-- ===== src/Archive/Status.antt =====
-- The status of a user towards an event or a personal entry: the status functions of
-- archive/services.py.
use takulife.Common.{
  ℕ, ◌+◌, String, Bool, true, false, not, ◌&&◌, ◌||◌, Option, none, some, [], ◌∷◌, ◌++◌, ◌==◌,
  exists, select, update, clashes, if◌then◌else◌,
}
use takulife.Common.Exec.{ok, err, Exec, pure, raise, gets, modify, raise_if, atomic, ◌>>=◌, ◌>>◌}
use takulife.Archive.Model.{
  Db, Error, integrity, duplicate_status, visit_record_exists, Kind, Activity, ChangeSummary,
  nothing, to, from_to, Status, planned, visited, missed, StatusRow, VisitRecord, EventName,
}
use takulife.Archive.Store.{
  subject_label, record_activity, record_subject_event, exactly_one, on_target, except_integrity,
}

abbrev pub status_code : Status → ℕ
status_code planned = 0
status_code visited = 1
status_code missed = 2

abbrev pub same_status : Status → Status → Bool
same_status a b = status_code a == status_code b

-- `UserEventStatus.objects.filter(user=user)`, filtered by the target
abbrev pub is_existing : ℕ → Option ℕ → Option ℕ → StatusRow → Bool
is_existing user event personal_entry r =
    r.user == user && on_target event personal_entry r.event r.personal_entry

-- The two conditional unique constraints.
abbrev pub status_clash : StatusRow → StatusRow → Bool
status_clash a b =
    a.user == b.user && (clashes a.event b.event || clashes a.personal_entry b.personal_entry)

-- `UserEventStatus.objects.create`
unfoldable pub insert_status : StatusRow → Exec Db Error StatusRow
unfolding exists
insert_status row db =
    if not (exactly_one row.event row.personal_entry) || exists (status_clash row) db.statuses
    then (err integrity, db)
    else (ok row, record db { statuses = db.statuses ++ row ∷ []; next_id = db.next_id + 1 })

-- `_has_visit_record`
unfoldable pub has_visit_record : ℕ → Option ℕ → Option ℕ → Db → Bool
unfolding exists
has_visit_record user event personal_entry db =
    exists
      (λ (v : VisitRecord).
        v.user == user && on_target event personal_entry v.event v.personal_entry)
      db.visits

abbrev is_open : Status → Bool
is_open planned = true
is_open visited = false
is_open missed = true

abbrev pub status_activity : Kind → ℕ → Option ℕ → ℕ → String → ChangeSummary → Activity
status_activity kind user event now label summary = record {
  user = user;
  kind = kind;
  occurred_at = now;
  event = event;
  visit_record = none;
  collection_item = none;
  subject_label = label;
  change_summary = summary;
  operation_key = none;
}

-- What another request commits between the check and the insertion: nothing, or a row.
abbrev pub commit_rival : Option StatusRow → Db → Db
commit_rival none db = db
commit_rival (some row) db = (insert_status (record row { id = db.next_id }) db).1

abbrev pub duplicate : {A : Type 0} → Exec Db Error A
duplicate = raise duplicate_status

abbrev pub status_row : ℕ → ℕ → Option ℕ → Option ℕ → Status → StatusRow
status_row id user event personal_entry status = record {
  id = id;
  user = user;
  event = event;
  personal_entry = personal_entry;
  status = status;
  missed_overridden = false;
}

unfoldable pub log_status : ℕ → StatusRow → Exec Db Error StatusRow
unfolding subject_label record_activity
log_status now row = do
  label ← subject_label row.event row.personal_entry
  record_activity (status_activity Kind.status_changed row.user row.event now label (to row.status))
  pure row

-- The insertion of the row, and the entry of the log, in the transaction.
unfoldable pub store_status : ℕ → Option ℕ → Option ℕ → Status → ℕ → Exec Db Error StatusRow
unfolding insert_status log_status
store_status user event personal_entry status now = do
  id ← gets (λ (db : Db). db.next_id)
  row ← except_integrity (insert_status (status_row id user event personal_entry status)) duplicate
  log_status now row

-- `_STATUS_ANALYTICS_EVENT_NAME`
abbrev pub record_status_event : Status → ℕ → Option ℕ → Option ℕ → Exec Db Error (Unit {0})
record_status_event planned = record_subject_event EventName.event_planned
record_status_event visited = record_subject_event EventName.event_marked_visited
record_status_event missed = λ user event personal_entry. pure tt

-- The two checks before the insertion.
unfoldable pub check_status : ℕ → Option ℕ → Option ℕ → Status → Exec Db Error (Unit {0})
unfolding exists has_visit_record
check_status user event personal_entry status db =
    if exists (is_existing user event personal_entry) db.statuses
    then (err duplicate_status, db)
    else if is_open status && has_visit_record user event personal_entry db
    then (err visit_record_exists, db)
    else (ok tt, db)

-- The insertion in its transaction, and the event for the analytics.
unfoldable pub add_status :
    Option StatusRow → ℕ → Option ℕ → Option ℕ → Status → ℕ → Exec Db Error StatusRow
unfolding store_status record_subject_event
add_status rival user event personal_entry status now = do
  modify (commit_rival rival)
  row ← atomic (store_status user event personal_entry status now)
  record_status_event status user event personal_entry
  pure row

-- `rival` is what another request commits between the check and the insertion; the checks write
-- nothing, so an abort gives the state that the others left.
unfoldable pub create_user_event_status :
    Option StatusRow → ℕ → Option ℕ → Option ℕ → Status → ℕ → Exec Db Error StatusRow
unfolding check_status add_status
create_user_event_status rival user event personal_entry status now = do
  check_status user event personal_entry status
  add_status rival user event personal_entry status now

-- A change of the status is logged.
unfoldable pub log_switch : Status → StatusRow → ℕ → Exec Db Error (Unit {0})
unfolding subject_label record_activity
log_switch target row now = if same_status row.status target then pure tt else (do
  label ← subject_label row.event row.personal_entry
  record_activity (
      status_activity Kind.status_changed row.user row.event now label (from_to row.status target)))

abbrev pub save_status : ℕ → (StatusRow → StatusRow) → Db → Db
save_status id change db = record db {
  statuses = update (λ (r : StatusRow). r.id == id) change db.statuses;
}

-- What the three switches of a row's status do in their transaction.
unfoldable pub switch_status :
    Status → (StatusRow → StatusRow) → StatusRow → ℕ → Exec Db Error (Unit {0})
unfolding update log_switch
switch_status target change row now = do
  modify (save_status row.id change)
  log_switch target row now

unfoldable pub mark_visited : StatusRow → ℕ → Exec Db Error StatusRow
unfolding switch_status record_subject_event
mark_visited row now = do
  atomic (switch_status visited (λ (r : StatusRow). record r { status = visited }) row now)
  record_subject_event EventName.event_marked_visited row.user row.event row.personal_entry
  pure (record row { status = visited })

unfoldable pub mark_missed : StatusRow → ℕ → Exec Db Error StatusRow
unfolding has_visit_record switch_status
mark_missed row now = do
  recorded ← gets (has_visit_record row.user row.event row.personal_entry)
  raise_if recorded visit_record_exists
  atomic (switch_status missed (λ (r : StatusRow). record r { status = missed }) row now)
  pure (record row { status = missed })

unfoldable pub revert_to_planned : StatusRow → ℕ → Exec Db Error StatusRow
unfolding has_visit_record switch_status
revert_to_planned row now = do
  recorded ← gets (has_visit_record row.user row.event row.personal_entry)
  raise_if recorded visit_record_exists
  atomic (
      switch_status planned
        (λ (r : StatusRow). record r { status = planned; missed_overridden = true }) row now)
  pure (record row { status = planned; missed_overridden = true })

-- The label is read before the row is deleted.
unfoldable pub remove_user_event_status : StatusRow → ℕ → Exec Db Error (Unit {0})
unfolding subject_label select record_activity
remove_user_event_status row now = do
  label ← subject_label row.event row.personal_entry
  atomic (do
    modify (λ (db : Db). record db {
      statuses = select (λ (r : StatusRow). not (r.id == row.id)) db.statuses;
    })
    record_activity (status_activity Kind.status_removed row.user row.event now label nothing))
