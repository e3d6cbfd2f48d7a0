-- ===== src/Archive/Visits/Inserted.antt =====
-- The insertion of a visited status row: what it gives where the target is free, and where it is
-- taken.
use takulife.Common.{
  ℕ, ◌+◌, ◌≡◌, refl, sym, ap, subst, Bool, true, false, [], ◌∷◌, ◌++◌, ==_refl, first, exists,
  first-append, arith,
}
use takulife.Common.Exec.{Result, ok, err, Exec, bind_ok, bind_err}
use takulife.Archive.Model.{Db, Error, integrity, duplicate_status, StatusRow, visited}
use takulife.Archive.Store.{subject_label, record_activity, exactly_one, except_integrity}
use takulife.Archive.Status.{
  is_existing, status_row, insert_status, log_status, store_status, duplicate,
}
use takulife.Archive.Visits.{Visit}
use takulife.Archive.Visits.Visited.{IsVisited, Ensured, Leaves, Leaves-Ensured, clashes-exist}

log_status-Leaves :
    (now : ℕ) (row : StatusRow) (db : Db) → Leaves db.statuses (log_status now row db)
unfolding log_status subject_label record_activity
log_status-Leaves now row db = ground arith

abbrev pub visited_row : Visit → ℕ → StatusRow
visited_row q id = status_row id q.user q.event q.personal_entry visited

abbrev pub on_subject : Visit → StatusRow → Bool
on_subject q = is_existing q.user q.event q.personal_entry

abbrev pub insertion : Visit → ℕ → Exec Db Error StatusRow
unfolding insert_status
insertion q id = except_integrity (insert_status (visited_row q id)) duplicate

-- `except IntegrityError` after the insertion.
abbrev pub or_duplicate : Result Error StatusRow × Db → Result Error StatusRow × Db
or_duplicate x = except_integrity (λ (s : Db). x) duplicate x.1

insertion-taken :
    (q : Visit) (db : Db)
    → exactly_one q.event q.personal_entry ≡ true
    → exists (on_subject q) db.statuses ≡ true
    → insertion q db.next_id db ≡ (err duplicate_status, db)
unfolding insert_status
insertion-taken q db one taken =
    let refused : insert_status (visited_row q db.next_id) db ≡ (err integrity, db) =
      ground (arith, one, clashes-exist q db.next_id visited db.statuses one, taken) in
    ap or_duplicate refused

abbrev pub with_row : Visit → Db → Db
with_row q db = record db {
  statuses = db.statuses ++ visited_row q db.next_id ∷ [];
  next_id = db.next_id + 1;
}

insertion-free :
    (q : Visit) (db : Db)
    → exactly_one q.event q.personal_entry ≡ true
    → exists (on_subject q) db.statuses ≡ false
    → insertion q db.next_id db ≡ (ok (visited_row q db.next_id), with_row q db)
unfolding insert_status
insertion-free q db one free =
    let stored : insert_status (visited_row q db.next_id) db
        ≡ (ok (visited_row q db.next_id), with_row q db) =
      ground (arith, one, clashes-exist q db.next_id visited db.statuses one, free) in
    ap or_duplicate stored

on_subject_self :
    (q : Visit) (id : ℕ)
    → exactly_one q.event q.personal_entry ≡ true
    → on_subject q (visited_row q id) ≡ true
on_subject_self q id one = ground (arith, one, ==_refl q.user)

-- The new row is the row for the target.
with_row-IsVisited :
    (q : Visit) (db : Db)
    → exactly_one q.event q.personal_entry ≡ true
    → exists (on_subject q) db.statuses ≡ false
    → IsVisited q (with_row q db).statuses
unfolding first
with_row-IsVisited q db one free = (
  visited_row q db.next_id,
  rw
      (
        first-append (on_subject q) db.statuses (visited_row q db.next_id ∷ []),
        free,
        on_subject_self q db.next_id one,
      )
      refl,
  refl,
)

pub store_status-Ensured :
    (q : Visit) (now : ℕ) (db : Db)
    → exactly_one q.event q.personal_entry ≡ true
    → exists (on_subject q) db.statuses ≡ false
    → Ensured q (store_status q.user q.event q.personal_entry visited now db)
unfolding store_status
store_status-Ensured q now db one free =
    subst (Ensured q)
      (sym (bind_ok (insertion q db.next_id) (log_status now) (insertion-free q db one free)))
      (Leaves-Ensured q (with_row q db).statuses
        (log_status now (visited_row q db.next_id) (with_row q db))
        (with_row-IsVisited q db one free)
        (log_status-Leaves now (visited_row q db.next_id) (with_row q db)))

pub store_status-taken :
    (q : Visit) (now : ℕ) (db : Db)
    → exactly_one q.event q.personal_entry ≡ true
    → exists (on_subject q) db.statuses ≡ true
    → store_status q.user q.event q.personal_entry visited now db ≡ (err duplicate_status, db)
unfolding store_status
store_status-taken q now db one taken =
    bind_err (insertion q db.next_id) (log_status now) (insertion-taken q db one taken)
