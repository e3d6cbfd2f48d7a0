-- ===== src/Archive/Visits/Deleted.antt =====
-- `create_visit_record` is sent again after the user deleted the record.
use takulife.Common.{
  ℕ, ◌+◌, ◌≡◌, refl, sym, ap, ◌∙◌, subst, true, false, not, ◌==◌, Option, none, some, [], ◌∷◌, ◌++◌,
  ==_refl, exists, select, exists-append, exists-update, exists-select, select-append,
  first_of_not_exists, same_key, arith,
}
use takulife.Common.Exec.{Result, ok, err, err-injective, pure, ◌>>◌, post-bind}
use takulife.Archive.Model.{Db, Error, integrity, does_not_exist, VisitRecord, Activity, EventName}
use takulife.Archive.Store.{activity_clash, exactly_one, record_event, record_subject_event}
use takulife.Archive.Visits.{
  Visit, visit_row, visit_clash, visit_activity, insert_visit, log_visit, store_visit, get_visit,
  after_store, create_visit_record, has_token, delete_visit_record,
}
use takulife.Archive.Visits.Log.{logged, Orphaned, LoggedResult, log_visit-logged, log_visit-Logged}
use takulife.Archive.Visits.Replay.{Stored, store_visit-Stored, clash-token, finish_create, created}

abbrev inserted : Visit → Db → Db
inserted q db = record db {
  visits = db.visits ++ visit_row db.next_id q ∷ [];
  next_id = db.next_id + 1;
}

insert_free :
    (q : Visit) (db : Db)
    → exists (visit_clash (visit_row db.next_id q)) db.visits ≡ false
    → exactly_one q.event q.personal_entry ≡ true
    → insert_visit (visit_row db.next_id q) db ≡ (ok (visit_row db.next_id q), inserted q db)
unfolding insert_visit
insert_free q db free one = ground (arith, free, one)

store_visit-Orphaned :
    (q : Visit) (now : ℕ) (db : Db)
    → exists (visit_clash (visit_row db.next_id q)) db.visits ≡ false
    → Orphaned q db
    → (store_visit q now db).0 ≡ err integrity
unfolding store_visit
store_visit-Orphaned q now db free (one, t, l) =
    ap
      (λ (x : Result Error VisitRecord × Db).
        (elim x.0 as (λ r. Result Error VisitRecord × Db) [
          | ok a ↦ log_visit q now a x.1
          | err e ↦ (err e, x.1)
        ]).0)
      (insert_free q db free one)
    ∙ log_visit-logged q now (visit_row db.next_id q) (inserted q db) t l

orphaned_steps :
    (q : Visit) (token : ℕ) (db : Db) (x : Result Error VisitRecord × Db)
    → q.client_token ≡ some token
    → exists (has_token q.user token) db.visits ≡ false
    → x.0 ≡ err integrity
    → finish_create q db x ≡ (err does_not_exist, db)
unfolding after_store get_visit
orphaned_steps q token db (ok row, s) h none_left e = cc
orphaned_steps q token db (err e', s) h none_left e =
    rw (err-injective e, h, first_of_not_exists (has_token q.user token) db.visits none_left) refl

create-Orphaned :
    (q : Visit) (token now : ℕ) (db : Db)
    → q.client_token ≡ some token
    → exists (has_token q.user token) db.visits ≡ false
    → Orphaned q db
    → create_visit_record q now db ≡ (err does_not_exist, db)
create-Orphaned q token now db h none_left o =
    created q now db
    ∙ orphaned_steps q token db (store_visit q now db) h none_left
        (store_visit-Orphaned q now db (clash-token q db.next_id token db.visits h ∙ none_left) o)

insert_visit-one :
    (q : Visit) (id : ℕ) (db s : Db) (row : VisitRecord)
    → insert_visit (visit_row id q) db ≡ (ok row, s)
    → exactly_one q.event q.personal_entry ≡ true
unfolding insert_visit
insert_visit-one q id db s row h = ground arith

store_visit-Logged :
    (q : Visit) (token now : ℕ) (db : Db)
    → q.client_token ≡ some token
    → LoggedResult q (store_visit q now db)
unfolding store_visit
store_visit-Logged q token now db h =
    post-bind (LoggedResult q) (insert_visit (visit_row db.next_id q)) (log_visit q now) db
      (λ e s k. tt)
      (λ row s k. log_visit-Logged q token now row s h (insert_visit-one q db.next_id db s row k))

-- What a request with a new token leaves: its record as the last row, and its entry in the log.
abbrev New : Visit → Db → Result Error VisitRecord × Db → Type 0
New q db (err e, s) = Unit
New q db (ok row, s) = Stored q db (ok row, s) × Orphaned q s

-- The analytics event changes neither the records nor the log.
announced-New :
    (q : Visit) (db s : Db) (row : VisitRecord) (event entry : Option ℕ)
    → Stored q db (ok row, s) × Orphaned q s
    → New q db
        ((record_subject_event EventName.visit_record_created q.user event entry >> pure row) s)
unfolding record_subject_event record_event
announced-New q db s row (some e) entry n = n
announced-New q db s row none (some e) n = n
announced-New q db s row none none n = tt

refused-New :
    (q : Visit) (token : ℕ) (db s : Db) (e : Error)
    → q.client_token ≡ some token
    → exists (has_token q.user token) db.visits ≡ false
    → New q db (finish_create q db (err e, s))
unfolding after_store
refused-New q token db s integrity h free =
    subst (New q db) (sym (orphaned_steps q token db (err integrity, s) h free refl)) tt
refused-New q token db s Error.duplicate_status h free = tt
refused-New q token db s Error.duplicate_interest h free = tt
refused-New q token db s Error.visit_record_exists h free = tt
refused-New q token db s Error.photo_limit h free = tt
refused-New q token db s does_not_exist h free = tt
refused-New q token db s Error.attribute_error h free = tt
refused-New q token db s (Error.validation fs) h free = tt

finish-New :
    (q : Visit) (token : ℕ) (db : Db) (x : Result Error VisitRecord × Db)
    → q.client_token ≡ some token
    → exists (has_token q.user token) db.visits ≡ false
    → Stored q db x
    → LoggedResult q x
    → New q db (finish_create q db x)
unfolding after_store
finish-New q token db (ok row, s) h free st l =
    announced-New q db s row q.event q.personal_entry (st, l)
finish-New q token db (err e, s) h free st l = refused-New q token db s e h free

create-New :
    (q : Visit) (token now : ℕ) (db : Db)
    → q.client_token ≡ some token
    → exists (has_token q.user token) db.visits ≡ false
    → New q db (create_visit_record q now db)
create-New q token now db h free = subst (New q db) (sym (created q now db)) (
    finish-New q token db (store_visit q now db) h free (store_visit-Stored q now db)
      (store_visit-Logged q token now db h))

-- Deleting the new record leaves no record with the token.
deleted-none :
    (q : Visit) (token : ℕ) (db : Db)
    → exists (has_token q.user token) db.visits ≡ false
    → exists (has_token q.user token) (
        select
          (λ (v : VisitRecord). not (v.id == db.next_id))
          (db.visits ++ visit_row db.next_id q ∷ []))
      ≡ false
unfolding select exists
deleted-none q token db free =
    let p = λ (v : VisitRecord). not (v.id == db.next_id) in
    rw
      (
        select-append p db.visits (visit_row db.next_id q ∷ []),
        ==_refl db.next_id,
        exists-append (has_token q.user token) (select p db.visits) [],
        exists-select (has_token q.user token) p db.visits free,
      )
      refl

-- The log keeps its entry without the link.
deleted-logged :
    (q : Visit) (id : ℕ) (db : Db)
    → logged q db.activity ≡ true
    → logged q (delete_visit_record id db).activity ≡ true
unfolding delete_visit_record
deleted-logged q id db l =
    exists-update (activity_clash (visit_activity q 0 0 ""))
      (λ (a : Activity). same_key a.visit_record (some id))
      (λ (a : Activity). record a { visit_record = none }) db.activity (λ a. refl)
    ∙ l

-- A request with a client token that made a record, and is sent again after the user deleted that
-- record, raises `DoesNotExist` at any time and stores nothing.
pub create_visit_record_deleted :
    (q : Visit) (token now later : ℕ) (db db' : Db) (row : VisitRecord)
    → q.client_token ≡ some token
    → exists (has_token q.user token) db.visits ≡ false
    → create_visit_record q now db ≡ (ok row, db')
    → create_visit_record q later (delete_visit_record row.id db')
      ≡ (err does_not_exist, delete_visit_record row.id db')
unfolding delete_visit_record
create_visit_record_deleted q token now later db db' row h free e =
    let ((made, clash, visits), (one, has_title, has_entry)) =
      subst (New q db) e (create-New q token now db h free) in
    create-Orphaned q token later (delete_visit_record row.id db') h
      (rw (visits, ap (λ (r : VisitRecord). r.id) made) (deleted-none q token db free))
      (one, has_title, deleted-logged q row.id db' has_entry)
