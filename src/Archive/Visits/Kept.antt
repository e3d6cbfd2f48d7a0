-- ===== src/Archive/Visits/Kept.antt =====
-- `create_visit_record` leaves the rows of statuses alone.
use takulife.Common.{ℕ, ◌≡◌, refl, subst, Option, none, some, List, arith}
use takulife.Common.Exec.{Result, ok, err, pure, Exec, ◌>>◌, post-bind, atomic, post-atomic}
use takulife.Archive.Model.{
  Db, Error, integrity, duplicate_status, StatusRow, VisitRecord, EventName,
}
use takulife.Archive.Store.{subject_label, record_activity, record_subject_event, record_event}
use takulife.Archive.Visits.{
  Visit, visit_row, insert_visit, log_visit, store_visit, get_visit, after_store,
  create_visit_record,
}
use takulife.Archive.Visits.Visited.{Leaves}

log_visit-Leaves :
    (q : Visit) (now : ℕ) (row : VisitRecord) (db : Db)
    → Leaves db.statuses (log_visit q now row db)
unfolding log_visit subject_label record_activity
log_visit-Leaves q now row db = ground arith

insert_visit-Leaves : (row : VisitRecord) (db : Db) → Leaves db.statuses (insert_visit row db)
unfolding insert_visit
insert_visit-Leaves row db = ground arith

store_visit-Leaves : (q : Visit) (now : ℕ) (db : Db) → Leaves db.statuses (store_visit q now db)
unfolding store_visit
store_visit-Leaves q now db =
    post-bind (Leaves db.statuses) (insert_visit (visit_row db.next_id q)) (log_visit q now) db
      (λ e s h. subst (Leaves db.statuses) h (insert_visit-Leaves (visit_row db.next_id q) db))
      (λ row s h.
        let kept = subst (Leaves db.statuses) h (insert_visit-Leaves (visit_row db.next_id q) db) in
        subst (λ rows. Leaves rows (log_visit q now row s)) kept (log_visit-Leaves q now row s))

get_visit-Leaves : (user : ℕ) (token : ℕ) (db : Db) → Leaves db.statuses (get_visit user token db)
unfolding get_visit
get_visit-Leaves user token db = ground arith

announced-Leaves :
    (q : Visit) (event entry : Option ℕ) (row : VisitRecord) (rows : List StatusRow) (db : Db)
    → db.statuses ≡ rows
    → Leaves rows
        ((record_subject_event EventName.visit_record_created q.user event entry >> pure row) db)
unfolding record_subject_event record_event
announced-Leaves q (some e) entry row rows db h = h
announced-Leaves q none (some e) row rows db h = h
announced-Leaves q none none row rows db h = refl

resent-Leaves :
    (q : Visit) (token : Option ℕ) (db : Db)
    → Leaves db.statuses (
        (elim token as (λ o. Exec Db Error VisitRecord) [
          | none ↦ (λ s. (err integrity, s))
          | some t ↦ get_visit q.user t
        ])
          db)
resent-Leaves q none db = refl
resent-Leaves q (some t) db = get_visit-Leaves q.user t db

after_store-Leaves :
    (q : Visit) (rows : List StatusRow) (x : Result Error VisitRecord × Db)
    → x.1.statuses ≡ rows
    → Leaves rows x
    → Leaves rows (after_store q x.0 x.1)
unfolding after_store
after_store-Leaves q rows (ok row, s) h l = announced-Leaves q q.event q.personal_entry row rows s h
after_store-Leaves q rows (err integrity, s) h l =
    subst (λ r. Leaves r (after_store q (err integrity) s)) h (resent-Leaves q q.client_token s)
after_store-Leaves q rows (err duplicate_status, s) h l = l
after_store-Leaves q rows (err Error.duplicate_interest, s) h l = l
after_store-Leaves q rows (err Error.visit_record_exists, s) h l = l
after_store-Leaves q rows (err Error.photo_limit, s) h l = l
after_store-Leaves q rows (err Error.does_not_exist, s) h l = l
after_store-Leaves q rows (err Error.attribute_error, s) h l = l
after_store-Leaves q rows (err (Error.validation fs), s) h l = l

-- The transaction of the block, with the rows it leaves.
stored-Leaves :
    (q : Visit) (now : ℕ) (db : Db)
    → (Leaves db.statuses (atomic (store_visit q now) db))
      × ((atomic (store_visit q now) db).1.statuses ≡ db.statuses)
stored-Leaves q now db =
    post-atomic (λ x. (Leaves db.statuses x) × (x.1.statuses ≡ db.statuses)) (store_visit q now) db
      (λ e s h. (subst (Leaves db.statuses) h (store_visit-Leaves q now db), refl))
      (λ row s h.
        let kept = subst (Leaves db.statuses) h (store_visit-Leaves q now db) in (kept, kept))

pub create-Leaves :
    (q : Visit) (now : ℕ) (db : Db) → Leaves db.statuses (create_visit_record q now db)
unfolding create_visit_record
create-Leaves q now db =
    let (l, kept) = stored-Leaves q now db in
    after_store-Leaves q db.statuses (atomic (store_visit q now) db) kept l
