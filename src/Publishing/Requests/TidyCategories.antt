-- ===== src/Publishing/Requests/TidyCategories.antt =====
-- The console on categories and the palette slots: `Category` of core/models.py and the views of
-- staff/views/categories.py keep the rule of core/categories.py for every category.
use takulife.Common.{
  ℕ, ◌<◌, String, Bool, true, false, not, ◌&&◌, Option, none, some, [], ◌∷◌, ◌≡◌, ◌≢◌, refl, sym,
  subst, ap, arith, inl, inr, In, All, All-and, All-append, All-update, exists, first, update,
  only_row, Bool-cases, str_eq, leb, ==_iff,
}
use takulife.Common.Exec.{
  Result, Exec, gets, raise_if, atomic, bind_ok, bind_err, post-bind, post-raise_if, Preserves,
  Preserves-bind, Preserves-atomic, Preserves-raise_if, ◌>>=◌, ◌>>◌,
}
use takulife.Publishing.Model.{
  Category, Action, Db, Error, validation_error, palette_slots_exhausted, integrity,
}
use takulife.Publishing.Slots.{
  free_slot, has_slug, is_published, palette_slot_count, next_available_slot, category_clash,
  new_category, added_category, append_category, insert_category, create_category, with_active,
  when_deactivated, set_active, reconcile_category_palette_slot, should_have_slot,
}
use takulife.Publishing.Slots as Slots
use takulife.Publishing.Slots.Released.{AllReleased, ButOf, In-first}
use takulife.Publishing.Slots.Valid.{pk_of}
use takulife.Publishing.Events.Tidy.{IsTidy, Named, reconcile-IsTidy}
use takulife.Publishing.Console.{
  is_category_slug, log_category, assigned, create_locked, category_create, found_category,
  get_category, toggle_action, same_bool, activate, activate_found, category_set_active,
}
use takulife.Publishing.Console.StoredCategories.{Keeps-insert_category, activated}
use takulife.Publishing.Console.Labels.{
  with_label, label_taken, relabelled, category_edit, category_edit-kept, relabelled-IsStored,
}
use takulife.Publishing.Slots.Free.{free_slot-some}
use takulife.Publishing.Slots.Reconcile.{next_some, next_none}
use takulife.Publishing.Requests.Tidy.{log_category-IsTidy}

abbrev Tidy : {A : Type 0} → Result Error A × Db → Type 0
Tidy x = IsTidy x.1

-- The two parts of the rule that the constraints do not hold.
abbrev Ruled : Result Error Category × Db → Type 0
Ruled x = All Named x.1.categories × All (AllReleased x.1.events) x.1.categories

-- A new category is active, so that it may hold its slot.
insert-Ruled :
    (slug label : String) (slot : ℕ) (db : Db)
    → slug ≢ ""
    → IsTidy db
    → Ruled (insert_category slug label slot db)
unfolding insert_category
insert-Ruled slug label slot db name v =
    let row = new_category slug label slot db in
    post-raise_if Ruled (exists (category_clash row) db.categories) integrity (append_category row)
      db (λ t. (v.named, v.released))
      (λ t. (
        All-append Named db.categories (row ∷ []) v.named (name, tt),
        All-append (AllReleased db.events) db.categories (row ∷ []) v.released ((λ f. cc f), tt),
      ))

insert-IsTidy :
    (slug label : String) (slot : ℕ) (db : Db)
    → slot < palette_slot_count
    → slug ≢ ""
    → IsTidy db
    → IsTidy (insert_category slug label slot db).1
insert-IsTidy slug label slot db small name v =
    let (named, released) = insert-Ruled slug label slot db name v in
    record {
      stored = Keeps-insert_category slug label slot small db v.stored;
      named = named;
      released = released;
    }

slot_found :
    (slug label : String) (db : Db) (o : Option ℕ)
    → free_slot palette_slot_count 0 db.categories ≡ o
    → slug ≢ ""
    → IsTidy db
    → IsTidy (create_category slug label db).1
unfolding create_category
slot_found slug label db none e name v =
    subst (Tidy {A = Category})
      (sym (bind_err next_available_slot (insert_category slug label) {s = db} (next_none db e))) v
slot_found slug label db (some n) e name v =
    subst (Tidy {A = Category})
      (sym (bind_ok next_available_slot (insert_category slug label) {s = db} (next_some n db e)))
      (insert-IsTidy slug label n db (free_slot-some palette_slot_count 0 n db.categories e).0 name
        v)

-- A valid slug is not empty.
slug_not_empty : (slug : String) → is_category_slug slug ≡ true → slug ≢ ""
unfolding is_category_slug
slug_not_empty slug t q = cc (subst (λ s. is_category_slug s ≡ true) q t)

create_locked-IsTidy :
    (slug label : String) (n : ℕ) → slug ≢ "" → Preserves IsTidy (create_locked slug label n)
unfolding create_locked
create_locked-IsTidy slug label n name =
    let made = atomic (create_category slug label) in
    Preserves-bind IsTidy (raise_if (leb palette_slot_count n) palette_slots_exhausted)
      (λ u. made >>= log_category Action.category_create)
      (Preserves-raise_if IsTidy (leb palette_slot_count n) palette_slots_exhausted)
      (λ u.
        Preserves-bind IsTidy made (log_category Action.category_create)
          (Preserves-atomic IsTidy (create_category slug label) (λ db v.
            slot_found slug label db (free_slot palette_slot_count 0 db.categories) refl name v))
          (log_category-IsTidy Action.category_create))

pub new_category_request : (slug label : String) → Preserves IsTidy (category_create slug label)
unfolding category_create
new_category_request slug label db v =
    let rest = atomic (gets assigned >>= create_locked slug label) in
    post-raise_if (Tidy {A = Category}) (not (is_category_slug slug)) validation_error
      (raise_if (str_eq label "") validation_error >> rest) db (λ t. v)
      (λ t.
        post-raise_if (Tidy {A = Category}) (str_eq label "") validation_error rest db (λ t'. v)
          (λ t'.
            Preserves-atomic IsTidy (gets assigned >>= create_locked slug label)
              (λ db' v'.
                create_locked-IsTidy slug label (assigned db')
                  (slug_not_empty slug (not_false (is_category_slug slug) t)) db' v')
              db v))
  where
    not_false : (b : Bool) → not b ≡ false → b ≡ true
    not_false true h = refl
    not_false false h = cc

abbrev switched : Category → Bool → Db → Db
switched c enabled db = record db {
  categories = update (Slots.has_pk c.pk) (with_active enabled) db.categories;
}

switched-Named :
    (c : Category) (enabled : Bool) (db : Db)
    → IsTidy db
    → All Named (switched c enabled db).categories
switched-Named c enabled db v =
    All-update Named Named (Slots.has_pk c.pk) (with_active enabled) db.categories (λ a b t. b)
      (λ a b t. b) v.named

-- A category that was set active may hold a slot.
switched_on : (c : Category) (db : Db) → IsTidy db → IsTidy (switched c true db)
switched_on c db v = record {
  stored = activated c true db v.stored;
  named = switched-Named c true db v;
  released =
      All-update (AllReleased db.events) (AllReleased db.events) (Slots.has_pk c.pk)
        (with_active true) db.categories (λ a b t f. cc f) (λ a b t. b) v.released;
}

-- A category that was set inactive is reconciled.
switched_off :
    (c : Category) (db : Db)
    → In c db.categories
    → IsTidy db
    → IsTidy (reconcile_category_palette_slot c.slug (switched c false db)).1
switched_off c db m v =
    reconcile-IsTidy c.slug (switched c false db) (activated c false db v.stored)
      (switched-Named c false db v)
      (All-update (λ a. AllReleased db.events a × (pk_of a ≡ pk_of c → a ≡ c))
        (ButOf db.events c.slug) (Slots.has_pk c.pk) (with_active false) db.categories
        (λ a b t n. absurd (n (ap (λ (x : Category). x.slug) (b.1 ((==_iff a.pk c.pk).0 t)))))
        (λ a b t n. b.0)
        (All-and (AllReleased db.events) (λ a. pk_of a ≡ pk_of c → a ≡ c) db.categories v.released
          (only_row pk_of c db.categories v.stored.table.keys m)))

when_true :
    (b : Bool) (slug : String) (db : Db)
    → b ≡ true
    → IsTidy (reconcile_category_palette_slot slug db).1
    → IsTidy (when_deactivated b slug db).1
when_true true slug db e h = h
when_true false slug db e h = cc

when_false :
    (b : Bool) (slug : String) (db : Db)
    → b ≡ false
    → IsTidy db
    → IsTidy (when_deactivated b slug db).1
when_false true slug db e h = cc
when_false false slug db e h = h

set_active-IsTidy :
    (c : Category) (enabled : Bool) (db : Db)
    → In c db.categories
    → same_bool c.is_active enabled ≡ false
    → IsTidy db
    → IsTidy (set_active c enabled db).1
unfolding set_active
set_active-IsTidy c true db m e v =
    when_false (c.is_active && false) c.slug (switched c true db) (ground arith)
      (switched_on c db v)
set_active-IsTidy c false db m e v =
    when_true (c.is_active && true) c.slug (switched c false db) (ground arith)
      (switched_off c db m v)

activate_found-IsTidy :
    (c : Category) (enabled : Bool) (db : Db)
    → In c db.categories
    → IsTidy db
    → IsTidy (activate_found enabled c db).1
unfolding activate_found activate
activate_found-IsTidy c enabled db m v = elim (Bool-cases (same_bool c.is_active enabled)) [
  | inl e ↦ rw e v
  | inr e ↦ rw e (
      post-bind (Tidy {A = Category}) (set_active c enabled)
        (λ u. log_category (toggle_action enabled) c) db
        (λ x s q. subst (Tidy {A = Unit {0}}) q (set_active-IsTidy c enabled db m e v))
        (λ u s q.
          log_category-IsTidy (toggle_action enabled) c s
            (subst (Tidy {A = Unit {0}}) q (set_active-IsTidy c enabled db m e v))))
]

found_category_then :
    {A : Type 0} (row : Option Category) (f : Category → Exec Db Error A) (db : Db)
    → ((c : Category) → row ≡ some c → IsTidy (f c db).1)
    → IsTidy db
    → IsTidy ((found_category row >>= f) db).1
found_category_then none f db h v = v
found_category_then (some c) f db h v = h c refl

get_category_then :
    (pk : ℕ) (enabled : Bool) → Preserves IsTidy (get_category pk >>= activate_found enabled)
unfolding get_category
get_category_then pk enabled db v =
    found_category_then (first (Slots.has_pk pk) db.categories) (activate_found enabled) db
      (λ c q. activate_found-IsTidy c enabled db (In-first (Slots.has_pk pk) c db.categories q).0 v)
      v

pub set_category_request :
    (pk : ℕ) (enabled : Bool) → Preserves IsTidy (category_set_active pk enabled)
unfolding category_set_active
set_category_request pk enabled =
    Preserves-atomic IsTidy (get_category pk >>= activate_found enabled)
      (get_category_then pk enabled)

-- A label has no part in the rule.
relabelled-IsTidy :
    (pk : ℕ) (label : String) (db : Db)
    → label_taken pk label db ≡ false
    → IsTidy db
    → IsTidy (relabelled pk label db)
relabelled-IsTidy pk label db t v =
    let q = Slots.has_pk pk in
    let f = with_label label in
    record {
      stored = relabelled-IsStored pk label db t v.stored;
      named = All-update Named Named q f db.categories (λ a b t'. b) (λ a b t'. b) v.named;
      released =
          All-update (AllReleased db.events) (AllReleased db.events) q f db.categories (λ a b t'. b)
            (λ a b t'. b) v.released;
    }

found_category-IsTidy : (row : Option Category) → Preserves IsTidy (found_category row)
found_category-IsTidy none db v = v
found_category-IsTidy (some c) db v = v

get_category-IsTidy : (pk : ℕ) → Preserves IsTidy (get_category pk)
unfolding get_category
get_category-IsTidy pk db v = found_category-IsTidy (first (Slots.has_pk pk) db.categories) db v

pub edit_category_request : (pk : ℕ) (label : String) → Preserves IsTidy (category_edit pk label)
edit_category_request pk label =
    category_edit-kept IsTidy relabelled-IsTidy get_category-IsTidy log_category-IsTidy pk label
