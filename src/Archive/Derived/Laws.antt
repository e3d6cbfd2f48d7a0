-- ===== src/Archive/Derived/Laws.antt =====
-- What a user sees of a status after the user changed it.
use takulife.Common.{
  ℕ, ◌≡◌, refl, sym, ap, ◌∙◌, subst, Bool, true, false, Option, some, first, first-update_kept,
  ==_refl, ◌==◌, arith,
}
use takulife.Common.Exec.{Result, ok, err, pure, raise_if, ◌>>◌, post-bind, post-atomic, atomic}
use takulife.Archive.Model.{Db, Error, visit_record_exists, Status, planned, missed, StatusRow}
use takulife.Archive.Status.{has_visit_record, switch_status, save_status, revert_to_planned}
use takulife.Archive.Visits.Visited.{Leaves, log_switch-Leaves}
use takulife.Archive.Derived.{derived_status}

-- The user sees the row as `status` on any day, whatever the dates of the events are.
abbrev pub SeenAs : Status → StatusRow → Db → Type 0
SeenAs status row db =
    (end_date : ℕ → Option ℕ) (today : ℕ) → derived_status end_date today db row ≡ status

-- The outcome of a switch: the row it returns is stored under the number, and is seen as `status`.
abbrev pub SwitchedTo : Status → ℕ → Result Error StatusRow × Db → Type 0
SwitchedTo status id (err e, db) = Unit
SwitchedTo status id (ok row, db) =
    (first (λ (r : StatusRow). r.id == id) db.statuses ≡ some row) × SeenAs status row db

overridden-SeenAs :
    (row : StatusRow) (db : Db)
    → SeenAs planned (record row { status = planned; missed_overridden = true }) db
unfolding derived_status
overridden-SeenAs row db end_date today = ground arith

missed-SeenAs : (row : StatusRow) (db : Db) → SeenAs missed (record row { status = missed }) db
unfolding derived_status
missed-SeenAs row db end_date today = refl

raise_if-state :
    (b : Bool) (e : Error) (db s : Db) (u : Unit {0}) → raise_if b e db ≡ (ok u, s) → s ≡ db
raise_if-state true e db s u h = cc
raise_if-state false e db s u h = cc

-- Once it succeeded, the transaction of a switch leaves the rows with the one row changed.
switched :
    (status : Status) (change : StatusRow → StatusRow) (row : StatusRow) (now : ℕ) (db : Db)
    → Leaves
        (save_status row.id change db).statuses
        (atomic (switch_status status change row now) db)
unfolding switch_status
switched status change row now db =
    let saved = save_status row.id change db in
    post-atomic (Leaves saved.statuses) (switch_status status change row now) db
      (λ e s h. subst (Leaves saved.statuses) h (log_switch-Leaves status row now saved))
      (λ u s h. subst (Leaves saved.statuses) h (log_switch-Leaves status row now saved))

save_status-first :
    (change : StatusRow → StatusRow) (row : StatusRow) (db : Db)
    → ((r : StatusRow) → (change r).id ≡ r.id)
    → first (λ (r : StatusRow). r.id == row.id) db.statuses ≡ some row
    → first (λ (r : StatusRow). r.id == row.id) (save_status row.id change db).statuses
      ≡ some (change row)
save_status-first change row db same there =
    first-update_kept (λ (r : StatusRow). r.id == row.id) (λ (r : StatusRow). r.id == row.id) change
      db.statuses row (λ r. ap (λ k. k == row.id) (same r)) there (==_refl row.id)

guarded_switch :
    (status : Status) (change : StatusRow → StatusRow) (recorded : Bool) (row : StatusRow) (now : ℕ)
    (db : Db)
    → ((r : StatusRow) → (change r).id ≡ r.id)
    → ((s : Db) → SeenAs status (change row) s)
    → first (λ (r : StatusRow). r.id == row.id) db.statuses ≡ some row
    → SwitchedTo status row.id (
        (raise_if recorded visit_record_exists
            >> (atomic (switch_status status change row now) >> pure (change row)))
          db)
guarded_switch status change recorded row now db same seen there =
    let stored = save_status row.id change db in
    post-bind (SwitchedTo status row.id) (raise_if recorded visit_record_exists)
      (λ u. atomic (switch_status status change row now) >> pure (change row)) db (λ e s h. tt)
      (λ u s h.
        subst
          (λ t.
            SwitchedTo status row.id
              ((atomic (switch_status status change row now) >> pure (change row)) t))
          (sym (raise_if-state recorded visit_record_exists db s u h))
          (post-bind (SwitchedTo status row.id) (atomic (switch_status status change row now))
            (λ u. pure (change row)) db (λ e t k. tt)
            (λ u t k. (
              ap (first (λ (r : StatusRow). r.id == row.id))
                    (subst (Leaves stored.statuses) k (switched status change row now db))
                  ∙ save_status-first change row db same there,
              seen t,
            ))))

-- After a stored row was put back to planned, the user sees it as planned on any day, also when
-- the event is over.
revert_to_planned-SeenAs :
    (row : StatusRow) (now : ℕ) (db : Db)
    → first (λ (r : StatusRow). r.id == row.id) db.statuses ≡ some row
    → SwitchedTo planned row.id (revert_to_planned row now db)
unfolding revert_to_planned
revert_to_planned-SeenAs row now db there =
    guarded_switch planned
      (λ (r : StatusRow). record r { status = planned; missed_overridden = true })
      (has_visit_record row.user row.event row.personal_entry db) row now db (λ r. refl)
      (λ s. overridden-SeenAs row s) there
