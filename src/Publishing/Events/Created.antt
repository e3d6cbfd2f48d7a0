-- ===== src/Publishing/Events/Created.antt =====
-- What `create_published_event` of events/services.py stores where it succeeds.
use takulife.Common.{
  Option, none, some, List, [], ◌∷◌, ◌++◌, ◌≡◌, refl, sym, subst, ap, ◌∙◌, inl, inr, Text, strip,
}
use takulife.Common.Exec.{
  Result, ok, err, Exec, pure, atomic, bind_ok, bind_err, atomic_ok, atomic_err, post-bind,
  ok-injective, ◌>>=◌,
}
use takulife.Publishing.Model.{Fields, Event, Category, Db, Error, Platform}
use takulife.Publishing.Checks.{
  validate_publish_fields, publish_field_checks, normalized_official_url, Check,
}
use takulife.Publishing.Checks.Agree.{validate-publish_field_checks, verdict, settle, first_error}
use takulife.Publishing.Slots.{reconcile_category_palette_slot}
use takulife.Publishing.Events.{
  with_url, insert_event, reconcile_row, handled, publish_valid, create_published_event,
}
use takulife.Publishing.Events.Valid.{reconcile_category_lem, row_of}
use takulife.Publishing.Events.TidyOps.{Inserted, insert-Inserted, appended}

-- An event that is given back is the new last row of the table, published under `url`; where the
-- call raises, nothing is changed.
abbrev pub Created : Fields → Text → Db → Result Error Event × Db → Type 0
Created f url db x = elim x.0 [
  | err e ↦ x.1 ≡ db
  | ok row ↦ (x.1.events ≡ db.events ++ row ∷ []) × (row ≡ row_of (with_url url f) db)
]

handled-Created :
    (f : Fields) (url : Text) (db : Db) (x : Result Error Event × Db)
    → Created f url db x
    → Created f url db (handled x)
handled-Created f url db (ok row, s) h = h
handled-Created f url db (err e, s) h = h

reconciled_row :
    (f : Fields) (row : Event) (db : Db)
    → (cs : List Category) × (reconcile_row f row db ≡ (ok row, record db { categories = cs }))
unfolding reconcile_row
reconciled_row f row db = (
  _,
  bind_ok (reconcile_category_palette_slot f.category) (λ u. pure row) {s = db}
      (reconcile_category_lem f.category db),
)

publish_valid-Created :
    (env : Platform) (f : Fields) (texts : Text × Text) (db : Db)
    → Created f texts.1 db (publish_valid env f texts db)
unfolding publish_valid
publish_valid-Created env f texts db =
    handled-Created f texts.1 db ((atomic insert >>= reconcile_row f) db)
      (by_case (insert-Inserted env (with_url texts.1 f) db))
  where
    insert : Exec Db Error Event
    insert = insert_event env (with_url texts.1 f)

    by_case :
        Inserted (with_url texts.1 f) db (insert db)
        → Created f texts.1 db ((atomic insert >>= reconcile_row f) db)
    by_case (inl (e, h)) =
        subst (Created f texts.1 db)
          (sym (bind_err (atomic insert) (reconcile_row f) {s = db} (atomic_err insert {s = db} h)))
          refl
    by_case (inr h) =
        subst (Created f texts.1 db)
          (sym (bind_ok (atomic insert) (reconcile_row f) {s = db} (atomic_ok insert {s = db} h)))
          (subst (Created f texts.1 db)
            (sym
              (reconciled_row f (row_of (with_url texts.1 f) db)
                (appended (with_url texts.1 f) db)).1)
            (refl, refl))

settle_ok : (texts a : Text × Text) (o : Option Error) → settle texts o ≡ ok a → a ≡ texts
settle_ok texts a none h = sym (ok-injective h)
settle_ok texts a (some e) h = cc

verdict_ok :
    (texts a : Text × Text) (r : Result Error (List Check)) → verdict texts r ≡ ok a → a ≡ texts
verdict_ok texts a (err e) h = cc
verdict_ok texts a (ok checks) h = settle_ok texts a (first_error checks) h

-- The address that is stored is the one that was given, without the blanks around it.
pub create-Created :
    (env : Platform) (f : Fields) (db : Db)
    → Created f (normalized_official_url f) db (create_published_event env f db)
unfolding create_published_event
create-Created env f db =
    post-bind (Created f (normalized_official_url f) db) (validate_publish_fields env f none)
      (publish_valid env f) db
      (λ e s h. sym (
        ap (λ (x : Result Error (Text × Text) × Db). x.1)
          (sym (validate-publish_field_checks env f none db) ∙ h)))
      (λ a s h.
        let agreed = sym (validate-publish_field_checks env f none db) ∙ h in
        let state : db ≡ s = ap (λ (x : Result Error (Text × Text) × Db). x.1) agreed in
        let texts : a ≡ (strip f.title, normalized_official_url f) =
          verdict_ok (strip f.title, normalized_official_url f) a
            (publish_field_checks env f none db)
            (ap (λ (x : Result Error (Text × Text) × Db). x.0) agreed) in
        subst (λ s'. Created f (normalized_official_url f) db (publish_valid env f a s')) state
          (subst (λ u. Created f u db (publish_valid env f a db))
            (ap (λ (t : Text × Text). t.1) texts) (publish_valid-Created env f a db)))
