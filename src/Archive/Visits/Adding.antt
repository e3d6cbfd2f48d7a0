-- ===== src/Archive/Visits/Adding.antt =====
-- The insertion of a visited row in `_ensure_visited_status`: what it gives where the target is free,
-- and where another request took it.
use takulife.Common.{ℕ, ◌≡◌, refl, ap, true, false, Option, none, exists, not_exists_of_first}
use takulife.Common.Exec.{
  Result, ok, err, pure, Exec, ◌>>◌, bind_ok, bind_err, atomic_err, continue, atomic,
}
use takulife.Archive.Model.{Db, Error, integrity, duplicate_status, StatusRow, visited, EventName}
use takulife.Archive.Store.{exactly_one, record_subject_event}
use takulife.Archive.Status.{
  store_status, commit_rival, check_status, add_status, create_user_event_status,
}
use takulife.Archive.Visits.{Visit, status_of, insert_visited, except_duplicate}
use takulife.Archive.Visits.Visited.{Ensured, Ensured-bind, Ensured-atomic, announced-Ensured}
use takulife.Archive.Visits.Inserted.{store_status-Ensured, store_status-taken, on_subject}

check_status-passes :
    (q : Visit) (db : Db)
    → status_of q db ≡ none
    → check_status q.user q.event q.personal_entry visited db ≡ (ok tt, db)
unfolding check_status
check_status-passes q db h = rw (not_exists_of_first (on_subject q) db.statuses h) refl

abbrev adding : Option StatusRow → Visit → ℕ → Exec Db Error StatusRow
adding rival q now = add_status rival q.user q.event q.personal_entry visited now

pub insert_visited-add :
    (rival : Option StatusRow) (q : Visit) (now : ℕ) (db : Db)
    → status_of q db ≡ none
    → insert_visited rival q now db ≡ (adding rival q now >> pure tt) db
unfolding insert_visited create_user_event_status
insert_visited-add rival q now db h = ap (continue (adding rival q now) (λ r. pure tt)) (
    bind_ok (check_status q.user q.event q.personal_entry visited) (λ u. adding rival q now)
      (check_status-passes q db h))

-- What the insertion gives where nobody has taken the target, and where somebody has.
pub adding-Ensured :
    (rival : Option StatusRow) (q : Visit) (now : ℕ) (db : Db)
    → exactly_one q.event q.personal_entry ≡ true
    → exists (on_subject q) (commit_rival rival db).statuses ≡ false
    → Ensured q ((adding rival q now >> pure tt) db)
unfolding add_status
adding-Ensured rival q now db one free =
    let base = commit_rival rival db in
    Ensured-bind q (adding rival q now) (λ r. pure tt) db
      (Ensured-bind q (atomic (store_status q.user q.event q.personal_entry visited now))
        (λ row.
          record_subject_event EventName.event_marked_visited q.user q.event q.personal_entry
          >> pure row)
        base
        (Ensured-atomic q (store_status q.user q.event q.personal_entry visited now) base
          (store_status-Ensured q now base one free))
        (λ row s v.
          announced-Ensured q EventName.event_marked_visited q.user q.event q.personal_entry row s
            v))
      (λ r s v. v)

pub adding-taken :
    (rival : Option StatusRow) (q : Visit) (now : ℕ) (db : Db)
    → exactly_one q.event q.personal_entry ≡ true
    → exists (on_subject q) (commit_rival rival db).statuses ≡ true
    → (adding rival q now >> pure tt) db ≡ (err duplicate_status, commit_rival rival db)
unfolding add_status
adding-taken rival q now db one taken =
    let base = commit_rival rival db in
    bind_err (adding rival q now) (λ r. pure tt)
      (bind_err (atomic (store_status q.user q.event q.personal_entry visited now))
        (λ row.
          record_subject_event EventName.event_marked_visited q.user q.event q.personal_entry
          >> pure row)
        (atomic_err (store_status q.user q.event q.personal_entry visited now)
          (store_status-taken q now base one taken)))

-- A duplicate is handled, and any other outcome stays.
pub except-Ensured :
    (q : Visit) (h : Exec Db Error (Unit {0})) (x : Result Error (Unit {0}) × Db) (db : Db)
    → Ensured q x
    → Ensured q (except_duplicate (λ s. x) h db)
except-Ensured q h (ok u, s) db v = v
except-Ensured q h (err duplicate_status, s) db v = cc
except-Ensured q h (err integrity, s) db v = v
except-Ensured q h (err Error.duplicate_interest, s) db v = v
except-Ensured q h (err Error.visit_record_exists, s) db v = v
except-Ensured q h (err Error.photo_limit, s) db v = v
except-Ensured q h (err Error.does_not_exist, s) db v = v
except-Ensured q h (err Error.attribute_error, s) db v = v
except-Ensured q h (err (Error.validation fs), s) db v = v
