-- ===== src/Archive/Store.antt =====
-- The tables with their constraints, the activity log and the analytics: what the services of the
-- archive share. `_record_activity`, `_subject_label` and `_subject_target` of
-- archive/services.py, `record_event` of core/analytics.py.
use takulife.Common.{
  ℕ, String, Bool, true, false, ◌&&◌, Option, none, some, [], ◌∷◌, ◌++◌, ◌==◌, first, exists,
  same_key, clashes, if◌then◌else◌,
}
use takulife.Common.Exec.{Result, ok, err, Exec, raise}
use takulife.Archive.Model.{
  Db, Error, integrity, does_not_exist, attribute_error, Kind, Activity, EventName, PersonalEntry,
}

-- `first(...)`, or `DoesNotExist` as `get(...)` raises it
abbrev pub found : {A : Type 0} → Option A → Result Error A
found none = err does_not_exist
found (some a) = ok a

-- `_subject_label`: the title of the event, or of the personal entry
unfoldable pub subject_label : Option ℕ → Option ℕ → Exec Db Error String
unfolding first
subject_label (some event) personal_entry db = (ok (db.event_title event), db)
subject_label none (some entry) db =
    elim (first (λ (e : PersonalEntry). e.id == entry) db.entries) [
      | none ↦ (err does_not_exist, db)
      | some e ↦ (ok e.title, db)
    ]
subject_label none none db = (err attribute_error, db)

abbrev pub kind_code : Kind → ℕ
kind_code Kind.interest_added = 0
kind_code Kind.interest_removed = 1
kind_code Kind.status_changed = 2
kind_code Kind.status_removed = 3
kind_code Kind.visit_record_created = 4
kind_code Kind.collection_item_created = 5
kind_code Kind.collection_item_organized = 6

-- unique_archive_activity_log_entry_user_kind_operation_key
abbrev pub activity_clash : Activity → Activity → Bool
activity_clash a b =
    a.user == b.user
    && kind_code a.kind == kind_code b.kind
    && clashes a.operation_key b.operation_key

-- `_record_activity`
unfoldable pub record_activity : Activity → Exec Db Error (Unit {0})
unfolding exists
record_activity a db =
    if exists (activity_clash a) db.activity
    then (err integrity, db)
    else (ok tt, record db { activity = db.activity ++ a ∷ [] })

-- `record_event`, which raises nothing
unfoldable pub record_event : EventName → ℕ → String → ℕ → Exec Db Error (Unit {0})
record_event name user target_type target_id db = (
  ok tt,
  record db {
    analytics =
        db.analytics
        ++ record {
          event_name = name;
          user = user;
          target_type = target_type;
          target_id = target_id;
        }
          ∷ [];
  },
)

-- `record_event` for the target of `_subject_target`
unfoldable pub record_subject_event : EventName → ℕ → Option ℕ → Option ℕ → Exec Db Error (Unit {0})
unfolding record_event
record_subject_event name user (some event) personal_entry = record_event name user "event" event
record_subject_event name user none (some entry) = record_event name user "personal_entry" entry
record_subject_event name user none none = raise attribute_error

-- The check constraint `..._exactly_one_subject`.
abbrev pub exactly_one : Option ℕ → Option ℕ → Bool
exactly_one (some event) none = true
exactly_one none (some entry) = true
exactly_one _ _ = false

-- The filter by the target: `filter(event=event)` where there is one, else
-- `filter(personal_entry=personal_entry)`.
abbrev pub on_target : Option ℕ → Option ℕ → Option ℕ → Option ℕ → Bool
on_target (some e) personal_entry event entry = same_key event (some e)
on_target none personal_entry event entry = same_key entry personal_entry

-- `except IntegrityError`
abbrev pub except_integrity : {S A : Type 0} → Exec S Error A → Exec S Error A → Exec S Error A
except_integrity m handler s =
    let (r, s') = m s in
    elim r [
      | ok a ↦ (ok a, s')
      | err e ↦ elim e [ integrity ↦ handler s' | other ↦ (err other, s') ]
    ]
