-- ===== src/Archive/Visits/Log.antt =====
-- The log entry of a visit record, by the key of its request.
use takulife.Common.{
  ℕ, ◌≡◌, refl, sym, ap, ◌∙◌, subst, String, Bool, true, false, ◌==◌, Option, none, some, List, [],
  ◌∷◌, ◌++◌, is_some, Option-cases, Bool-cases, inl, inr, ==_refl, first, exists, exists-append,
  arith,
}
use takulife.Common.Exec.{Result, ok, err, pure, Exec, ◌>>◌, bind_ok, bind_err}
use takulife.Archive.Model.{
  Db, Error, integrity, does_not_exist, VisitRecord, PersonalEntry, Activity,
}
use takulife.Archive.Store.{record_activity, subject_label, activity_clash, exactly_one}
use takulife.Archive.Visits.{Visit, visit_activity, log_visit}

-- The target has a title.
abbrev pub titled : Option ℕ → Option ℕ → List PersonalEntry → Bool
titled (some event) entry es = true
titled none (some entry) es = is_some (first (λ (e : PersonalEntry). e.id == entry) es)
titled none none es = false

-- The log has an entry with the key of the request.
abbrev pub logged : Visit → List Activity → Bool
logged q activity = exists (activity_clash (visit_activity q 0 0 "")) activity

-- A state in which the request would be new, but for its entry in the log.
abbrev pub Orphaned : Visit → Db → Type 0
Orphaned q db =
    (exactly_one q.event q.personal_entry ≡ true)
    × (titled q.event q.personal_entry db.entries ≡ true)
    × (logged q db.activity ≡ true)

labelled :
    (event entry : Option ℕ) (db : Db)
    → titled event entry db.entries ≡ true
    → (label : String) × (subject_label event entry db ≡ (ok label, db))
unfolding subject_label
labelled (some e) entry db t = (db.event_title e, refl)
labelled none (some e) db t =
    elim (Option-cases (first (λ (r : PersonalEntry). r.id == e) db.entries)) [
      | inl missing ↦ absurd (ground (arith, t, missing))
      | inr (r, h) ↦ (r.title, rw (subject_label, h) refl)
    ]
labelled none none db t = cc

record_activity-clash :
    (a : Activity) (db : Db)
    → exists (activity_clash a) db.activity ≡ true
    → record_activity a db ≡ (err integrity, db)
unfolding record_activity
record_activity-clash a db h = ground (arith, h)

record_activity-free :
    (a : Activity) (db : Db)
    → exists (activity_clash a) db.activity ≡ false
    → record_activity a db ≡ (ok tt, record db { activity = db.activity ++ a ∷ [] })
unfolding record_activity
record_activity-free a db h = ground (arith, h)

abbrev log_label : Visit → ℕ → VisitRecord → String → Exec Db Error VisitRecord
log_label q now row label = record_activity (visit_activity q row.id now label) >> pure row

pub log_visit-logged :
    (q : Visit) (now : ℕ) (row : VisitRecord) (db : Db)
    → titled q.event q.personal_entry db.entries ≡ true
    → logged q db.activity ≡ true
    → (log_visit q now row db).0 ≡ err integrity
unfolding log_visit record_activity
log_visit-logged q now row db t l =
    let (label, e) = labelled q.event q.personal_entry db t in
    ap (λ x. x.0) (bind_ok (subject_label q.event q.personal_entry) (log_label q now row) e)
    ∙ ap (λ x. x.0)
        (bind_err (record_activity (visit_activity q row.id now label)) (λ u. pure row)
          (record_activity-clash (visit_activity q row.id now label) db l))

abbrev pub LoggedResult : Visit → Result Error VisitRecord × Db → Type 0
LoggedResult q (err e, db) = Unit
LoggedResult q (ok row, db) = Orphaned q db

unlabelled :
    (event entry : Option ℕ) (db : Db)
    → titled event entry db.entries ≡ false
    → (e : Error) × (subject_label event entry db ≡ (err e, db))
unfolding subject_label
unlabelled (some e) entry db t = cc
unlabelled none (some e) db t =
    elim (Option-cases (first (λ (r : PersonalEntry). r.id == e) db.entries)) [
      | inl missing ↦ (does_not_exist, rw (subject_label, missing) refl)
      | inr (r, h) ↦ absurd (ground (arith, t, h))
    ]
unlabelled none none db t = (Error.attribute_error, refl)

-- The entry of a request is found by its key.
logged-append :
    (q : Visit) (token id now : ℕ) (label : String) (xs : List Activity)
    → q.client_token ≡ some token
    → logged q (xs ++ visit_activity q id now label ∷ []) ≡ true
unfolding exists
logged-append q token id now label xs h =
    rw
      (exists-append (activity_clash (visit_activity q 0 0 "")) xs
        (visit_activity q id now label ∷ []))
      (ground (arith, h, ==_refl q.user))

log_label-Logged :
    (q : Visit) (token now : ℕ) (row : VisitRecord) (db : Db) (label : String)
    → q.client_token ≡ some token
    → exactly_one q.event q.personal_entry ≡ true
    → titled q.event q.personal_entry db.entries ≡ true
    → LoggedResult q (log_label q now row label db)
unfolding record_activity
log_label-Logged q token now row db label h one t =
    let a = visit_activity q row.id now label in
    elim (Bool-cases (logged q db.activity)) [
      | inl l ↦
          subst (LoggedResult q)
            (sym (bind_err (record_activity a) (λ u. pure row) (record_activity-clash a db l))) tt
      | inr l ↦
          subst (LoggedResult q)
            (sym (bind_ok (record_activity a) (λ u. pure row) (record_activity-free a db l)))
            (one, t, logged-append q token row.id now label db.activity h)
    ]

pub log_visit-Logged :
    (q : Visit) (token now : ℕ) (row : VisitRecord) (db : Db)
    → q.client_token ≡ some token
    → exactly_one q.event q.personal_entry ≡ true
    → LoggedResult q (log_visit q now row db)
unfolding log_visit
log_visit-Logged q token now row db h one =
    elim (Bool-cases (titled q.event q.personal_entry db.entries)) [
      | inl t ↦
          let (label, e) = labelled q.event q.personal_entry db t in
          subst (LoggedResult q)
            (sym (bind_ok (subject_label q.event q.personal_entry) (log_label q now row) e))
            (log_label-Logged q token now row db label h one t)
      | inr t ↦
          subst (LoggedResult q)
            (sym (
              bind_err (subject_label q.event q.personal_entry) (log_label q now row)
                (unlabelled q.event q.personal_entry db t).1))
            tt
    ]
