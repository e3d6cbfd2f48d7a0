-- ===== src/Publishing/Events/TidyOps.antt =====
-- The functions of events/services.py that take an event in or out of publication, and the
-- palette slots: each leaves every category within the rule of core/categories.py.
use takulife.Common.{
  ℕ, ◌+◌, not, Option, none, some, [], ◌∷◌, ◌++◌, ◌≡◌, refl, sym, subst, ap, ◌∙◌, ◌⊎◌, inl, inr, In,
  update, exists, first, ltb, Text,
}
use takulife.Common.Exec.{
  Result, ok, err, Exec, pure, gets, modify, atomic, bind_ok, bind_err, atomic_ok, atomic_err,
  post-bind, post-raise_if, Preserves, Preserves-bind, Preserves-atomic, ◌>>=◌,
}
use takulife.Publishing.Model.{
  PublishStatus, published, Fields, Event, Db, Error, Platform, data_error, integrity,
  database_error, event_has_archive_references,
}
use takulife.Publishing.Checks.{validate_publish_fields}
use takulife.Publishing.Checks.Agree.{validate-publish_field_checks}
use takulife.Publishing.Slots.Released.{In-first}
use takulife.Publishing.Slots.{reconcile_category_palette_slot}
use takulife.Publishing.Events.{
  has_pk, with_url, with_status, with_verified, insert_event, insert_unique, append_event,
  url_taken_by_any, save_event, handled, reconcile_row, publish_valid, create_published_event,
  move_event, republish_event, mark_event_verified, hard_delete_event, References, reference_count,
  delete_unreferenced, delete_locked, delete_event,
}
use takulife.Publishing.Events.Valid.{
  IsStored, row_of, reconcile_category_lem, insert-IsStored, save-IsStored, pk_of, url_of,
}
use takulife.Publishing.Events.Stored.{Keeps-hard_delete}
use takulife.Publishing.Events.Tidy.{
  IsTidy, reconcile-IsTidy, ButOf-SameBut, SameBut-append, SameBut-update, SameBut-select,
  AllReleased-update,
}

abbrev Tidy : {A : Type 0} → Result Error A × Db → Type 0
Tidy x = IsTidy x.1

-- `_validate_publish_fields` reads only.
pub Preserves-validate :
    (env : Platform) (f : Fields) (excluded : Option ℕ)
    → Preserves IsTidy (validate_publish_fields env f excluded)
Preserves-validate env f excluded db v = rw (validate-publish_field_checks env f excluded db) v

reconcile_row_lem :
    (f : Fields) (row : Event) (db : Db)
    → (reconcile_row f row db).1 ≡ (reconcile_category_palette_slot f.category db).1
unfolding reconcile_row
reconcile_row_lem f row db =
    bind_state (reconcile_category_palette_slot f.category) (reconcile_category_lem f.category db)
  where
    bind_state :
        (m : Exec Db Error (Unit {0})) {cs : Db}
        → m db ≡ (ok tt, cs)
        → ((m >>= λ u. pure row) db).1 ≡ (m db).1
    bind_state m h = rw (bind_ok m (λ u. pure row) {s = db} h, h) refl

reconcile_row-IsTidy :
    (f : Fields) (row : Event) (db : Db)
    → IsTidy (reconcile_category_palette_slot f.category db).1
    → IsTidy (reconcile_row f row db).1
reconcile_row-IsTidy f row db h = subst IsTidy (sym (reconcile_row_lem f row db)) h

abbrev pub appended : Fields → Db → Db
appended f db = record db { events = db.events ++ row_of f db ∷ []; next_id = db.next_id + 1 }

-- A row is appended, or nothing is written.
abbrev pub Inserted : Fields → Db → Result Error Event × Db → Type 0
Inserted f db x = ((e : Error) × (x ≡ (err e, db))) ⊎ (x ≡ (ok (row_of f db), appended f db))

pub insert-Inserted :
    (env : Platform) (f : Fields) (db : Db) → Inserted f db (insert_event env f db)
unfolding insert_event
insert-Inserted env f db =
    post-raise_if (Inserted f db) (not (env.fits f)) data_error (insert_unique f) db
      (λ t. inl (data_error, refl))
      (λ t.
        post-raise_if (Inserted f db) (url_taken_by_any f.official_url db) integrity
          (append_event f) db (λ t'. inl (integrity, refl)) (λ t'. inr refl))

appended-IsTidy :
    (env : Platform) (f : Fields) (db : Db)
    → IsTidy db
    → insert_event env f db ≡ (ok (row_of f db), appended f db)
    → IsTidy (reconcile_row f (row_of f db) (appended f db)).1
appended-IsTidy env f db v h = reconcile_row-IsTidy f (row_of f db) (appended f db) (
    reconcile-IsTidy f.category (appended f db)
      (subst (λ (x : Result Error Event × Db). IsStored x.1) h (insert-IsStored env f db v.stored))
      v.named
      (ButOf-SameBut f.category db.events (appended f db).events db.categories
        (SameBut-append (row_of f db) db.events) v.released))

handled-IsTidy : {A : Type 0} (x : Result Error A × Db) → IsTidy x.1 → IsTidy (handled x).1
handled-IsTidy (ok a, db) v = v
handled-IsTidy (err e, db) v = v

publish_valid-IsTidy :
    (env : Platform) (f : Fields) (texts : Text × Text)
    → Preserves IsTidy (publish_valid env f texts)
unfolding publish_valid
publish_valid-IsTidy env f texts db v =
    handled-IsTidy ((atomic insert >>= reconcile_row f) db) (by_case (insert-Inserted env f' db))
  where
    f' : Fields
    f' = with_url texts.1 f

    insert : Exec Db Error Event
    insert = insert_event env f'

    by_case : Inserted f' db (insert db) → IsTidy ((atomic insert >>= reconcile_row f) db).1
    by_case (inl (e, h)) =
        subst (λ (x : Result Error Event × Db). IsTidy x.1)
          (sym (bind_err (atomic insert) (reconcile_row f) {s = db} (atomic_err insert {s = db} h)))
          v
    by_case (inr h) =
        subst (λ (x : Result Error Event × Db). IsTidy x.1)
          (sym (bind_ok (atomic insert) (reconcile_row f) {s = db} (atomic_ok insert {s = db} h)))
          (appended-IsTidy env f' db v h)

pub create-IsTidy : (env : Platform) (f : Fields) → Preserves IsTidy (create_published_event env f)
unfolding create_published_event
create-IsTidy env f =
    Preserves-bind IsTidy (validate_publish_fields env f none) (publish_valid env f)
      (Preserves-validate env f none) (publish_valid-IsTidy env f)

abbrev rewritten : ℕ → (Event → Event) → Db → Db
rewritten pk f db = record db { events = update (has_pk pk) f db.events }

-- A column of a stored row is written, or nothing is.
abbrev Saved : ℕ → (Event → Event) → Db → Result Error (Unit {0}) × Db → Type 0
Saved pk f db x = (x ≡ (err database_error, db)) ⊎ (x ≡ (ok tt, rewritten pk f db))

save-Saved : (pk : ℕ) (f : Event → Event) (db : Db) → Saved pk f db (save_event pk f db)
unfolding save_event
save-Saved pk f db =
    post-raise_if (Saved pk f db) (not (exists (has_pk pk) db.events)) database_error
      (modify (rewritten pk f)) db (λ t. inl refl) (λ t. inr refl)

module _ (row : Event) (f : Event → Event) (db : Db) (v : IsTidy db) (m : In row db.events) where
  rewritten-IsStored :
      ((e : Event) → pk_of (f e) ≡ pk_of e)
      → ((e : Event) → url_of (f e) ≡ url_of e)
      → save_event row.pk f db ≡ (ok tt, rewritten row.pk f db)
      → IsStored (rewritten row.pk f db)
  rewritten-IsStored same url h =
      subst (λ (x : Result Error (Unit {0}) × Db). IsStored x.1) h
        (save-IsStored row.pk f same url db v.stored)

  -- A row of the table is rewritten, and the slot of its category reconciled.
  moved-IsTidy :
      ((e : Event) → pk_of (f e) ≡ pk_of e)
      → ((e : Event) → (f e).fields ≡ e.fields)
      → save_event row.pk f db ≡ (ok tt, rewritten row.pk f db)
      → IsTidy (reconcile_category_palette_slot row.fields.category (rewritten row.pk f db)).1
  moved-IsTidy same fields h =
      reconcile-IsTidy row.fields.category (rewritten row.pk f db)
        (rewritten-IsStored same (λ e. ap (λ (x : Fields). x.official_url) (fields e)) h) v.named
        (ButOf-SameBut row.fields.category db.events (update (has_pk row.pk) f db.events)
          db.categories
          (SameBut-update row f db v.stored m (λ e. ap (λ (x : Fields). x.category) (fields e)))
          v.released)

-- For a row of the table, `unpublish_event` and the end of `republish_event`.
pub move-IsTidy :
    (row : Event) (status : PublishStatus) (db : Db)
    → In row db.events
    → IsTidy db
    → IsTidy (move_event row status db).1
unfolding move_event
move-IsTidy row status db m v = by_case (save-Saved row.pk (with_status status) db)
  where
    save : Exec Db Error (Unit {0})
    save = save_event row.pk (with_status status)

    next : Unit {0} → Exec Db Error Event
    next u = reconcile_row row.fields (with_status status row)

    by_case : Saved row.pk (with_status status) db (save db) → IsTidy ((save >>= next) db).1
    by_case (inl h) =
        subst (λ (x : Result Error Event × Db). IsTidy x.1) (sym (bind_err save next {s = db} h)) v
    by_case (inr h) =
        subst (λ (x : Result Error Event × Db). IsTidy x.1) (sym (bind_ok save next {s = db} h))
          (reconcile_row-IsTidy row.fields (with_status status row)
            (rewritten row.pk (with_status status) db)
            (moved-IsTidy row (with_status status) db v m (λ e. refl) (λ e. refl) h))

-- `_validate_publish_fields` leaves the state as it is.
validated :
    (env : Platform) (f : Fields) (excluded : Option ℕ) (db s : Db) (r : Result Error (Text × Text))
    → validate_publish_fields env f excluded db ≡ (r, s)
    → db ≡ s
validated env f excluded db s r h =
    ap (λ (x : Result Error (Text × Text) × Db). x.1)
      (sym (validate-publish_field_checks env f excluded db) ∙ h)

pub republish-IsTidy :
    (env : Platform) (row : Event) (db : Db)
    → In row db.events
    → IsTidy db
    → IsTidy (republish_event env row db).1
unfolding republish_event
republish-IsTidy env row db m v =
    post-bind Tidy (validate_publish_fields env row.fields (some row.pk))
      (λ texts. move_event row published) db
      (λ e s h. subst IsTidy (validated env row.fields (some row.pk) db s (err e) h) v)
      (λ a s h.
        subst (λ s'. IsTidy (move_event row published s').1)
          (validated env row.fields (some row.pk) db s (ok a) h) (move-IsTidy row published db m v))

unreferenced-IsTidy :
    (references : ℕ → References) (row : Event) (db : Db)
    → In row db.events
    → IsTidy db
    → IsTidy (delete_unreferenced references row db).1
unfolding delete_unreferenced
unreferenced-IsTidy references row db m v =
    post-raise_if Tidy (ltb 0 (reference_count (references row.pk))) event_has_archive_references
      (hard_delete_event row >>= λ u. reconcile_category_palette_slot row.fields.category) db
      (λ t. v)
      (λ t.
        reconcile-IsTidy row.fields.category (hard_delete_event row db).1
          (Keeps-hard_delete row db v.stored) v.named
          (ButOf-SameBut row.fields.category db.events (hard_delete_event row db).1.events
            db.categories (SameBut-select row db v.stored m) v.released))

locked-IsTidy :
    (references : ℕ → References) (row : Option Event) (db : Db)
    → ((e : Event) → row ≡ some e → In e db.events)
    → IsTidy db
    → IsTidy (delete_locked references row db).1
unfolding delete_locked
locked-IsTidy references none db m v = v
locked-IsTidy references (some e) db m v = unreferenced-IsTidy references e db (m e refl) v

pub delete-IsTidy :
    (references : ℕ → References) (event : Event) → Preserves IsTidy (delete_event references event)
unfolding delete_event
delete-IsTidy references event =
    Preserves-atomic IsTidy (look >>= delete_locked references) (λ db v.
      locked-IsTidy references (first (has_pk event.pk) db.events) db
        (λ e h. (In-first (has_pk event.pk) e db.events h).0) v)
  where
    look : Exec Db Error (Option Event)
    look = gets (λ (db : Db). first (has_pk event.pk) db.events)

-- A change that only the time of the verification shows.
pub verified-IsTidy :
    (row : Event) (now : ℕ) (db : Db)
    → In row db.events
    → IsTidy db
    → IsTidy (mark_event_verified row now db).1
unfolding mark_event_verified
verified-IsTidy row now db m v = by_case (save-Saved row.pk (with_verified now) db)
  where
    f : Event → Event
    f = with_verified now

    save : Exec Db Error (Unit {0})
    save = save_event row.pk (with_verified now)

    next : Unit {0} → Exec Db Error Event
    next u = pure (with_verified now row)

    by_case : Saved row.pk (with_verified now) db (save db) → IsTidy ((save >>= next) db).1
    by_case (inl h) =
        subst (λ (x : Result Error Event × Db). IsTidy x.1) (sym (bind_err save next {s = db} h)) v
    by_case (inr h) =
        subst (λ (x : Result Error Event × Db). IsTidy x.1) (sym (bind_ok save next {s = db} h))
          (record {
            stored = rewritten-IsStored row f db v m (λ e. refl) (λ e. refl) h;
            named = v.named;
            released =
                AllReleased-update (has_pk row.pk) f db.events db.categories (λ s e. refl)
                  v.released;
          })
