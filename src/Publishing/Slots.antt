-- ===== src/Publishing/Slots.antt =====
-- The palette slots of the categories: `Category` of core/models.py, `reconcile_palette_slot` and
-- the queries of core/categories.py, `reconcile_category_palette_slot` of events/services.py and
-- the receiver of events/signals.py.
use takulife.Common.{
  ℕ, zero, suc, ◌+◌, String, Bool, true, false, not, ◌&&◌, ◌||◌, Option, none, some, List, [], ◌∷◌,
  ◌++◌, map, ◌==◌, ltb, first, exists, count, select, update, clashes, is_some, one_of, str_eq,
  if◌then◌else◌,
}
use takulife.Common.Exec.{
  Result, ok, err, Exec, pure, raise, gets, modify, raise_if, atomic, ◌>>=◌, ◌>>◌,
}
use takulife.Publishing.Model.{
  PublishStatus, draft, published, Event, Category, Db, Error, integrity, palette_slots_exhausted,
}
pub mod Free
pub mod Reconcile
pub mod Released
pub mod Valid

-- `len(PALETTE)`
abbrev pub palette_slot_count : ℕ
palette_slot_count = 12

abbrev pub has_slug : String → Category → Bool
has_slug slug c = str_eq c.slug slug

abbrev pub has_pk : ℕ → Category → Bool
has_pk pk c = c.pk == pk

abbrev pub has_slot : ℕ → Category → Bool
has_slot slot c = clashes c.palette_slot (some slot)

-- The loop of `_next_available_slot` from `slot`, with `rounds` slots left
unfoldable pub free_slot : ℕ → ℕ → List Category → Option ℕ
unfolding exists
free_slot zero slot cs = none
free_slot (suc rounds) slot cs =
    let later = free_slot rounds (slot + 1) cs in
    if exists (has_slot slot) cs then later else some slot

-- `Category._next_available_slot`
unfoldable pub next_available_slot : Exec Db Error ℕ
unfolding free_slot
next_available_slot db = elim (free_slot palette_slot_count 0 db.categories) [
  | none ↦ (err palette_slots_exhausted, db)
  | some slot ↦ (ok slot, db)
]

abbrev pub with_slot : Option ℕ → Category → Category
with_slot slot c = record c { palette_slot = slot }

-- `category.save(update_fields=["palette_slot"])` of a row that is stored, under the unique
-- constraint on the slot
unfoldable pub save_slot : ℕ → Option ℕ → Exec Db Error (Unit {0})
unfolding exists update
save_slot pk slot db =
    if exists (λ (c : Category). not (has_pk pk c) && clashes c.palette_slot slot) db.categories
    then (err integrity, db)
    else (ok tt, record db { categories = update (has_pk pk) (with_slot slot) db.categories })

-- `except (PaletteSlotsExhaustedError, IntegrityError): pass`
abbrev pub ignore_slot_errors : Result Error (Unit {0}) × Db → Result Error (Unit {0}) × Db
ignore_slot_errors (ok a, db) = (ok tt, db)
ignore_slot_errors (err palette_slots_exhausted, db) = (ok tt, db)
ignore_slot_errors (err integrity, db) = (ok tt, db)
ignore_slot_errors (err e, db) = (err e, db)

unfoldable pub acquire_slot : ℕ → Exec Db Error (Unit {0})
unfolding next_available_slot save_slot
acquire_slot pk = atomic (do slot ← next_available_slot; save_slot pk (some slot))

-- `category.is_active or published_count > 0`
abbrev pub should_have_slot : Category → ℕ → Bool
should_have_slot c published_count = c.is_active || ltb 0 published_count

unfoldable pub reconcile_palette_slot : String → ℕ → Exec Db Error (Unit {0})
unfolding first acquire_slot save_slot
reconcile_palette_slot slug published_count db = elim (first (has_slug slug) db.categories) [
  | none ↦ (ok tt, db)
  | some c ↦
      if should_have_slot c published_count
      then (if is_some c.palette_slot
          then (ok tt, db)
          else ignore_slot_errors (acquire_slot c.pk db))
      else (if is_some c.palette_slot then save_slot c.pk none db else (ok tt, db))
]

abbrev pub is_published : PublishStatus → Bool
is_published draft = false
is_published published = true

-- `filter(category=slug, publish_status=PUBLISHED)`
abbrev pub published_in : String → Event → Bool
published_in slug e = str_eq e.fields.category slug && is_published e.publish_status

unfoldable pub reconcile_category_palette_slot : String → Exec Db Error (Unit {0})
unfolding count reconcile_palette_slot
reconcile_category_palette_slot slug db =
    if str_eq slug ""
    then (ok tt, db)
    else reconcile_palette_slot slug (count (published_in slug) db.events) db

-- The unique constraints of `Category` on the slug, the label and the slot.
abbrev pub category_clash : Category → Category → Bool
category_clash a b =
    str_eq a.slug b.slug || str_eq a.label b.label || clashes a.palette_slot b.palette_slot

abbrev pub new_category : String → String → ℕ → Db → Category
new_category slug label slot db = record {
  pk = db.next_id;
  slug = slug;
  label = label;
  is_active = true;
  palette_slot = some slot;
}

abbrev pub added_category : Category → Db → Db
added_category row db = record db {
  categories = db.categories ++ row ∷ [];
  next_id = db.next_id + 1;
}

unfoldable pub append_category : Category → Exec Db Error Category
append_category row db = (ok row, added_category row db)

unfoldable pub insert_category : String → String → ℕ → Exec Db Error Category
unfolding exists append_category
insert_category slug label slot = do
  row ← gets (new_category slug label slot)
  clash ← gets (λ (db : Db). exists (category_clash row) db.categories)
  raise_if clash integrity
  append_category row

-- `Category(...).save()` of a new row: it takes the lowest free slot, or the creation fails.
unfoldable pub create_category : String → String → Exec Db Error Category
unfolding next_available_slot insert_category
create_category slug label = do slot ← next_available_slot; insert_category slug label slot

-- `if became_inactive: category_deactivated.send(...)`, with its receiver
abbrev pub when_deactivated : Bool → String → Exec Db Error (Unit {0})
when_deactivated became_inactive slug =
    if became_inactive then reconcile_category_palette_slot slug else pure tt

-- `Category.save` of a stored row whose `is_active` was set.
abbrev pub with_active : Bool → Category → Category
with_active is_active c = record c { is_active = is_active }

unfoldable pub set_active : Category → Bool → Exec Db Error (Unit {0})
unfolding update reconcile_category_palette_slot
set_active category is_active = do
  modify (λ (db : Db). record db {
    categories = update (has_pk category.pk) (with_active is_active) db.categories;
  })
  when_deactivated (category.is_active && not is_active) category.slug

-- The queries of core/categories.py that list or name categories.
unfoldable pub category_label : String → Db → String
unfolding first
category_label slug db = elim (first (has_slug slug) db.categories) [
  | none ↦ slug
  | some c ↦ c.label
]

unfoldable pub category_slugs : Db → List String
unfolding select
category_slugs db =
    map (λ (c : Category). c.slug) (select (λ (c : Category). c.is_active) db.categories)

abbrev pub choice : Category → String × String
choice c = (c.slug, c.label)

unfoldable pub active_category_choices : Db → List (String × String)
unfolding select
active_category_choices db = map choice (select (λ (c : Category). c.is_active) db.categories)

-- The names that are not empty.
unfoldable pub named : List String → List String
named [] = []
named (s ∷ ss) = let rest = named ss in if str_eq s "" then rest else s ∷ rest

unfoldable pub category_choices_for_editing : List String → Db → List (String × String)
unfolding select named one_of
category_choices_for_editing keep_slugs db =
    map choice
      (select (λ (c : Category). c.is_active || one_of c.slug (named keep_slugs)) db.categories)

unfoldable pub all_category_choices : Db → List (String × String)
all_category_choices db = map choice db.categories
