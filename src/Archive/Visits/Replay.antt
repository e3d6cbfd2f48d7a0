-- ===== src/Archive/Visits/Replay.antt =====
-- Requests that are sent again: `create_visit_record` with a client token.
use takulife.Common.{
  ℕ, ◌≡◌, refl, sym, ap, ◌∙◌, subst, true, false, some, List, [], ◌∷◌, ◌++◌, first, exists,
  first-append, exists_of_first, arith,
}
use takulife.Common.Exec.{Result, ok, err, post-bind, atomic, post-atomic}
use takulife.Archive.Model.{Db, Error, integrity, VisitRecord}
use takulife.Archive.Store.{record_activity, subject_label, record_event, record_subject_event}
use takulife.Archive.Visits.{
  Visit, visit_clash, visit_row, insert_visit, log_visit, store_visit, get_visit, after_store,
  create_visit_record, has_token,
}

-- What storing a record gives: it raises, or the record is the last row, and none clashed with it.
abbrev pub Stored : Visit → Db → Result Error VisitRecord × Db → Type 0
Stored q db (err e, db') = Unit
Stored q db (ok row, db') =
    (row ≡ visit_row db.next_id q)
    × (exists (visit_clash (visit_row db.next_id q)) db.visits ≡ false)
    × (db'.visits ≡ db.visits ++ visit_row db.next_id q ∷ [])

insert_visit-Stored : (q : Visit) (db : Db) → Stored q db (insert_visit (visit_row db.next_id q) db)
unfolding insert_visit exists
insert_visit-Stored q db = ground arith

abbrev LogKept : Visit → ℕ → VisitRecord → Result Error VisitRecord × Db → Db → Type 0
LogKept q now row (err e, db') db = db'.visits ≡ db.visits
LogKept q now row (ok row', db') db = (row' ≡ row) × (db'.visits ≡ db.visits)

-- The log leaves the records alone.
log_visit-visits :
    (q : Visit) (now : ℕ) (row : VisitRecord) (db : Db)
    → LogKept q now row (log_visit q now row db) db
unfolding log_visit subject_label record_activity
log_visit-visits q now row db = ground arith

logged-Stored :
    (q : Visit) (now : ℕ) (row : VisitRecord) (db s : Db) (x : Result Error VisitRecord × Db)
    → LogKept q now row x s
    → Stored q db (ok row, s)
    → Stored q db x
logged-Stored q now row db s (err e, s') h st = tt
logged-Stored q now row db s (ok row', s') h st = (h.0 ∙ st.0, st.1, h.1 ∙ st.2)

pub store_visit-Stored : (q : Visit) (now : ℕ) (db : Db) → Stored q db (store_visit q now db)
unfolding store_visit
store_visit-Stored q now db =
    post-bind (Stored q db) (insert_visit (visit_row db.next_id q)) (log_visit q now) db
      (λ e s h. tt)
      (λ row s h.
        logged-Stored q now row db s (log_visit q now row s) (log_visit-visits q now row s)
          (subst (Stored q db) h (insert_visit-Stored q db)))

-- Where a record was stored, it is the one that its user's token finds.
has_token-clash :
    (q : Visit) (id token : ℕ) (v : VisitRecord)
    → q.client_token ≡ some token
    → visit_clash (visit_row id q) v ≡ has_token q.user token v
has_token-clash q id token v h = ground (arith, h)

pub clash-token :
    (q : Visit) (id token : ℕ) (vs : List VisitRecord)
    → q.client_token ≡ some token
    → exists (visit_clash (visit_row id q)) vs ≡ exists (has_token q.user token) vs
unfolding exists
clash-token q id token [] h = refl
clash-token q id token (v ∷ vs) h =
    rw (has_token-clash q id token v h, clash-token q id token vs h) refl

first_of_Stored :
    (q : Visit) (token : ℕ) (db db' : Db) (row : VisitRecord)
    → q.client_token ≡ some token
    → Stored q db (ok row, db')
    → first (has_token q.user token) db'.visits ≡ some row
unfolding first
first_of_Stored q token db db' row h (e, free, vs) =
    rw
      (
        vs,
        first-append (has_token q.user token) db.visits (visit_row db.next_id q ∷ []),
        sym (clash-token q db.next_id token db.visits h) ∙ free,
        e,
      )
      (ground (arith, h))

store_visit-clash :
    (q : Visit) (now : ℕ) (db : Db)
    → exists (visit_clash (visit_row db.next_id q)) db.visits ≡ true
    → store_visit q now db ≡ (err integrity, db)
unfolding store_visit insert_visit
store_visit-clash q now db h = ground (arith, h)

-- `create_visit_record` after its block.
abbrev pub finish_create :
    Visit → Db → Result Error VisitRecord × Db → Result Error VisitRecord × Db
finish_create q db x = let (r, s) = atomic (λ (t : Db). x) db in after_store q r s

pub created :
    (q : Visit) (now : ℕ) (db : Db)
    → create_visit_record q now db ≡ finish_create q db (store_visit q now db)
unfolding create_visit_record
created q now db = refl

-- A token that a record of the user carries gives that record.
pub sent_again :
    (q : Visit) (token now : ℕ) (db : Db) (row : VisitRecord)
    → q.client_token ≡ some token
    → first (has_token q.user token) db.visits ≡ some row
    → create_visit_record q now db ≡ (ok row, db)
unfolding after_store get_visit
sent_again q token now db row h e =
    created q now db
    ∙ ap (finish_create q db) (
        store_visit-clash q now db (
          clash-token q db.next_id token db.visits h
          ∙ exists_of_first (has_token q.user token) db.visits row e))
    ∙ rw (h, e) refl

-- What a successful request leaves: the record of its token.
abbrev Sent : Visit → ℕ → Result Error VisitRecord × Db → Type 0
Sent q token (err e, db) = Unit
Sent q token (ok row, db) = first (has_token q.user token) db.visits ≡ some row

after_store-Sent :
    (q : Visit) (token : ℕ) (db : Db) (x : Result Error VisitRecord × Db)
    → q.client_token ≡ some token
    → Stored q db x
    → Sent q token (after_store q x.0 x.1)
unfolding after_store get_visit record_subject_event record_event
after_store-Sent q token db (ok row, s) h st = ground (arith, first_of_Stored q token db s row h st)
after_store-Sent q token db (err e, s) h st = ground (arith, h)

pub atomic-Stored : (q : Visit) (now : ℕ) (db : Db) → Stored q db (atomic (store_visit q now) db)
atomic-Stored q now db =
    post-atomic (Stored q db) (store_visit q now) db (λ e s h. tt)
      (λ row s h. subst (Stored q db) h (store_visit-Stored q now db))

create-Sent :
    (q : Visit) (token now : ℕ) (db : Db)
    → q.client_token ≡ some token
    → Sent q token (create_visit_record q now db)
unfolding create_visit_record
create-Sent q token now db h =
    after_store-Sent q token db (atomic (store_visit q now) db) h (atomic-Stored q now db)

-- A request with a client token that succeeded and is sent again, at any time, gives the same
-- record and stores nothing.
pub create_visit_record_again :
    (q : Visit) (token now later : ℕ) (db db' : Db) (row : VisitRecord)
    → q.client_token ≡ some token
    → create_visit_record q now db ≡ (ok row, db')
    → create_visit_record q later db' ≡ (ok row, db')
create_visit_record_again q token now later db db' row h e =
    sent_again q token later db' row h (subst (Sent q token) e (create-Sent q token now db h))
