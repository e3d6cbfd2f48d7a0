-- ===== src/Archive/Visits/Recorded.antt =====
-- What a successful `create_visit_record` means for the status of its target: the guards of
-- `mark_missed` and `revert_to_planned`.
use takulife.Common.{
  ℕ, ◌≡◌, refl, sym, ap, subst, Bool, true, ◌∷◌, [], List, Option, none, some, first, exists,
  exists-append, arith, ◌==◌, ◌&&◌, ==_refl,
}
use takulife.Common.Exec.{Exec, Result, ok, err, atomic, pure, raise, ◌>>◌}
use takulife.Archive.Model.{
  Db, Error, integrity, EventName, visit_record_exists, VisitRecord, StatusRow,
}
use takulife.Archive.Store.{exactly_one, on_target, record_event, record_subject_event}
use takulife.Archive.Status.{has_visit_record, mark_missed, revert_to_planned}
use takulife.Archive.Visits.{
  Visit, visit_row, store_visit, has_token, get_visit, after_store, create_visit_record,
}
use takulife.Archive.Visits.Replay.{Stored, atomic-Stored}

-- The record of an outcome is stored: whatever holds of it holds of a stored record.
abbrev IsPresent : Result Error VisitRecord × Db → Type 0
IsPresent (err e, db) = Unit
IsPresent (ok v, db) = (p : VisitRecord → Bool) → p v ≡ true → exists p db.visits ≡ true

found-IsPresent :
    (p : VisitRecord → Bool) (v : VisitRecord) (rows : List VisitRecord) (find : VisitRecord → Bool)
    → first find rows ≡ some v
    → p v ≡ true
    → exists p rows ≡ true
unfolding first exists
found-IsPresent p v [] find h k = cc
found-IsPresent p v (r ∷ rows) find h k = ground (arith, found-IsPresent p v rows find, h, k)

stored-IsPresent :
    (q : Visit) (db s : Db) (v : VisitRecord)
    → Stored q db (ok v, s)
    → (p : VisitRecord → Bool) → p v ≡ true
    → exists p s.visits ≡ true
unfolding exists
stored-IsPresent q db s v (same, free, rows) p h =
    rw (rows, exists-append p db.visits (visit_row db.next_id q ∷ []), ap p (sym same), h)
      (ground arith)

get_visit-IsPresent : (user token : ℕ) (db : Db) → IsPresent (get_visit user token db)
unfolding get_visit
get_visit-IsPresent user token db = by_row (first (has_token user token) db.visits) refl
  where
    by_row :
        (o : Option VisitRecord)
        → first (has_token user token) db.visits ≡ o
        → IsPresent (get_visit user token db)
    by_row none e = rw (get_visit, e) tt
    by_row (some v) e = rw (get_visit, e) (λ p h. found-IsPresent p v db.visits _ e h)

announced-IsPresent :
    (name : EventName) (user : ℕ) (event entry : Option ℕ) (v : VisitRecord) (db : Db)
    → IsPresent (ok v, db)
    → IsPresent ((record_subject_event name user event entry >> pure v) db)
unfolding record_subject_event record_event
announced-IsPresent name user (some e) entry v db h = h
announced-IsPresent name user none (some e) v db h = h
announced-IsPresent name user none none v db h = tt

recovered-IsPresent :
    (q : Visit) (db : Db) (token : Option ℕ)
    → IsPresent (
        elim token as (λ t. Exec Db Error VisitRecord) [
          | none ↦ raise integrity
          | some token ↦ get_visit q.user token
        ]
          db)
recovered-IsPresent q db none = tt
recovered-IsPresent q db (some token) = get_visit-IsPresent q.user token db

after_store-IsPresent :
    (q : Visit) (db : Db) (x : Result Error VisitRecord × Db)
    → Stored q db x
    → IsPresent (after_store q x.0 x.1)
unfolding after_store
after_store-IsPresent q db (ok v, s) h =
    announced-IsPresent EventName.visit_record_created q.user q.event q.personal_entry v s
      (stored-IsPresent q db s v h)
after_store-IsPresent q db (err integrity, s) h = recovered-IsPresent q s q.client_token
after_store-IsPresent q db (err Error.duplicate_status, s) h = tt
after_store-IsPresent q db (err Error.duplicate_interest, s) h = tt
after_store-IsPresent q db (err Error.visit_record_exists, s) h = tt
after_store-IsPresent q db (err Error.photo_limit, s) h = tt
after_store-IsPresent q db (err Error.does_not_exist, s) h = tt
after_store-IsPresent q db (err Error.attribute_error, s) h = tt
after_store-IsPresent q db (err (Error.validation fs), s) h = tt

create-IsPresent : (q : Visit) (now : ℕ) (db : Db) → IsPresent (create_visit_record q now db)
unfolding create_visit_record
create-IsPresent q now db =
    after_store-IsPresent q db (atomic (store_visit q now) db) (atomic-Stored q now db)

on_target_refl :
    (event entry : Option ℕ)
    → exactly_one event entry ≡ true
    → on_target event entry event entry ≡ true
on_target_refl (some e) none h = ==_refl e
on_target_refl (some e) (some e') h = cc
on_target_refl none (some e) h = ==_refl e
on_target_refl none none h = cc

recorded_on :
    (row : StatusRow) (v : VisitRecord) (db : Db)
    → exactly_one row.event row.personal_entry ≡ true
    → row.user ≡ v.user
    → row.event ≡ v.event
    → row.personal_entry ≡ v.personal_entry
    → ((p : VisitRecord → Bool) → p v ≡ true → exists p db.visits ≡ true)
    → has_visit_record row.user row.event row.personal_entry db ≡ true
unfolding has_visit_record
recorded_on row v db one user event entry present =
    present
      (λ v. v.user == row.user && on_target row.event row.personal_entry v.event v.personal_entry)
      (rw (sym user, sym event, sym entry, ==_refl row.user)
        (on_target_refl row.event row.personal_entry one))

-- In the state that a successful request for a visit record leaves, no status row of the record's
-- user for the one target of the record, its event or its personal entry, can be marked as missed or
-- put back to planned, at any time: both are refused, and nothing is stored.
pub recorded-refused :
    (q : Visit) (now later : ℕ) (db db' : Db) (v : VisitRecord) (row : StatusRow)
    → create_visit_record q now db ≡ (ok v, db')
    → exactly_one row.event row.personal_entry ≡ true
    → row.user ≡ v.user
    → row.event ≡ v.event
    → row.personal_entry ≡ v.personal_entry
    → (mark_missed row later db' ≡ (err visit_record_exists, db'))
      × (revert_to_planned row later db' ≡ (err visit_record_exists, db'))
unfolding mark_missed revert_to_planned
recorded-refused q now later db db' v row e one user event entry =
    let there : has_visit_record row.user row.event row.personal_entry db' ≡ true =
      recorded_on row v db' one user event entry (subst IsPresent e (create-IsPresent q now db)) in
    (rw (mark_missed, there) refl, rw (revert_to_planned, there) refl)
