-- ===== src/Archive/Visits/Visited.antt =====
-- `_ensure_visited_status`: the user's row for the target is marked as visited.
use takulife.Common.{
  ℕ, ◌≡◌, refl, sym, subst, Bool, true, false, ◌==◌, Option, none, some, List, [], ◌∷◌, ==_refl,
  post-if, first, exists, update, first-update_kept, arith,
}
use takulife.Common.Exec.{Result, ok, err, pure, Exec, ◌>>=◌, ◌>>◌, post-bind, atomic, post-atomic}
use takulife.Archive.Model.{Db, Error, duplicate_status, StatusRow, Status, visited, EventName}
use takulife.Archive.Store.{
  subject_label, record_activity, record_event, record_subject_event, exactly_one,
}
use takulife.Archive.Status.{
  same_status, is_existing, status_clash, status_row, log_switch, save_status, switch_status,
  mark_visited,
}
use takulife.Archive.Visits.{Visit, status_of, take_over}

abbrev pub is_duplicate : Error → Bool
is_duplicate e = elim e [ duplicate_status ↦ true | other ↦ false ]

-- The user's row for the target is there and is visited.
abbrev pub IsVisited : Visit → List StatusRow → Type 0
IsVisited q rows =
    (r : StatusRow) × (first (is_existing q.user q.event q.personal_entry) rows ≡ some r)
    × (r.status ≡ visited)

-- The outcome of an action that ends with a visited row, or raises something else than the
-- duplicate.
abbrev pub Ensured : {A : Type 0} → Visit → Result Error A × Db → Type 0
Ensured q (err e, db) = is_duplicate e ≡ false
Ensured q (ok a, db) = IsVisited q db.statuses

-- The outcome of an action that leaves the rows alone.
abbrev pub Leaves : {A : Type 0} → List StatusRow → Result Error A × Db → Type 0
Leaves rows (err e, db) = is_duplicate e ≡ false
Leaves rows (ok a, db) = db.statuses ≡ rows

pub log_switch-Leaves :
    (target : Status) (row : StatusRow) (now : ℕ) (db : Db)
    → Leaves db.statuses (log_switch target row now db)
unfolding log_switch subject_label record_activity
log_switch-Leaves target row now db = ground arith

record_subject_event-Leaves :
    (name : _) (user : ℕ) (event entry : Option ℕ) (db : Db)
    → Leaves db.statuses (record_subject_event name user event entry db)
unfolding record_subject_event record_event
record_subject_event-Leaves name user (some e) entry db = refl
record_subject_event-Leaves name user none (some e) db = refl
record_subject_event-Leaves name user none none db = refl

-- What leaves the rows alone keeps them visited.
pub Leaves-Ensured :
    {A : Type 0} (q : Visit) (rows : List StatusRow) (x : Result Error A × Db)
    → IsVisited q rows
    → Leaves rows x
    → Ensured q x
Leaves-Ensured q rows (err e, db) v l = l
Leaves-Ensured q rows (ok a, db) v l = subst (IsVisited q) (sym l) v

-- The row that was found is marked.
saved-IsVisited :
    (q : Visit) (rows : List StatusRow) (row : StatusRow)
    → first (is_existing q.user q.event q.personal_entry) rows ≡ some row
    → IsVisited q (
        update
          (λ (r : StatusRow). r.id == row.id)
          (λ (r : StatusRow). record r { status = visited })
          rows)
saved-IsVisited q rows row found = (
  record row { status = visited },
  first-update_kept (is_existing q.user q.event q.personal_entry)
      (λ (r : StatusRow). r.id == row.id) (λ (r : StatusRow). record r { status = visited }) rows
      row (λ r. refl) found (==_refl row.id),
  refl,
)

pub Ensured-bind :
    {A B : Type 0} (q : Visit) (m : Exec Db Error A) (f : A → Exec Db Error B) (db : Db)
    → Ensured q (m db)
    → ((a : A) (s : Db) → IsVisited q s.statuses → Ensured q (f a s))
    → Ensured q ((m >>= f) db)
Ensured-bind q m f db h k =
    post-bind (Ensured q) m f db (λ e s r. subst (Ensured q) r h)
      (λ a s r. k a s (subst (Ensured q) r h))

pub Ensured-atomic :
    {A : Type 0} (q : Visit) (m : Exec Db Error A) (db : Db)
    → Ensured q (m db)
    → Ensured q (atomic m db)
Ensured-atomic q m db h =
    post-atomic (Ensured q) m db (λ e s r. subst (Ensured q) r h) (λ a s r. subst (Ensured q) r h)

-- The analytics event, and the result.
pub announced-Ensured :
    {A : Type 0} (q : Visit) (name : _) (user : ℕ) (event entry : Option ℕ) (a : A) (db : Db)
    → IsVisited q db.statuses
    → Ensured q ((record_subject_event name user event entry >> pure a) db)
announced-Ensured q name user event entry a db v =
    Ensured-bind q (record_subject_event name user event entry) (λ u. pure a) db
      (Leaves-Ensured q db.statuses (record_subject_event name user event entry db) v
        (record_subject_event-Leaves name user event entry db))
      (λ u s w. w)

mark_visited-Ensured :
    (q : Visit) (row : StatusRow) (now : ℕ) (db : Db)
    → status_of q db ≡ some row
    → Ensured q (mark_visited row now db)
unfolding mark_visited switch_status
mark_visited-Ensured q row now db found =
    let change = λ (r : StatusRow). record r { status = visited } in
    Ensured-bind q (atomic (switch_status visited change row now))
      (λ u.
        record_subject_event EventName.event_marked_visited row.user row.event row.personal_entry
        >> pure (change row))
      db
      (Ensured-atomic q (switch_status visited change row now) db (
        Leaves-Ensured q (save_status row.id change db).statuses
          (log_switch visited row now (save_status row.id change db))
          (saved-IsVisited q db.statuses row found)
          (log_switch-Leaves visited row now (save_status row.id change db))))
      (λ u s v.
        announced-Ensured q EventName.event_marked_visited row.user row.event row.personal_entry
          (change row) s v)

visited_of_same : (s : Status) → same_status s visited ≡ true → s ≡ visited
visited_of_same s h = ground arith

pub take_over-Ensured :
    (q : Visit) (row : StatusRow) (now : ℕ) (db : Db)
    → status_of q db ≡ some row
    → Ensured q (take_over row now db)
unfolding take_over
take_over-Ensured q row now db found =
    post-if (λ (m : Exec Db Error (Unit {0})). Ensured q (m db)) (same_status row.status visited)
      (pure tt) (mark_visited row now >> pure tt)
      (λ same. (row, found, visited_of_same row.status same))
      (λ other.
        Ensured-bind q (mark_visited row now) (λ r. pure tt) db
          (mark_visited-Ensured q row now db found) (λ r s v. v))

-- Where the target is one, another row clashes with a new one exactly if it is about the target.
clash-existing :
    (q : Visit) (id : ℕ) (status : Status) (r : StatusRow)
    → exactly_one q.event q.personal_entry ≡ true
    → status_clash (status_row id q.user q.event q.personal_entry status) r
      ≡ is_existing q.user q.event q.personal_entry r
clash-existing q id status r one = ground (arith, one)

pub clashes-exist :
    (q : Visit) (id : ℕ) (status : Status) (rows : List StatusRow)
    → exactly_one q.event q.personal_entry ≡ true
    → exists (status_clash (status_row id q.user q.event q.personal_entry status)) rows
      ≡ exists (is_existing q.user q.event q.personal_entry) rows
unfolding exists
clashes-exist q id status [] one = refl
clashes-exist q id status (r ∷ rows) one =
    rw (clash-existing q id status r one, clashes-exist q id status rows one) refl
