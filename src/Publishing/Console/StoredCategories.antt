-- ===== src/Publishing/Console/StoredCategories.antt =====
-- Inserting and activating a category keeps the constraints of the stored state: `Category` of
-- core/models.py.
use takulife.Common.{
  ℕ, ◌+◌, ◌<◌, String, Bool, true, false, ◌||◌, Option, none, some, [], ◌∷◌, ◌≡◌, ◌≢◌, refl, sym,
  subst, ◌∙◌, arith, All, All-mono, All-append, All-update, All_of_not_exists, exists, update,
  clashes, DistinctKeys-append, DistinctKeys-update, DistinctValues-append,
  DistinctValues-update_kept, some-injective, str_eq, eq_iff, ==_iff,
}
use takulife.Common.Exec.{Result, post-raise_if}
use takulife.Publishing.Model.{Event, Category, Db, Error, integrity}
use takulife.Publishing.Slots.{
  is_published, palette_slot_count, free_slot, next_available_slot, category_clash, new_category,
  added_category, append_category, insert_category, create_category, with_active, when_deactivated,
  set_active, reconcile_category_palette_slot,
}
use takulife.Publishing.Slots as Slots
use takulife.Publishing.Slots.Valid.{InPalette, slug_of, label_of, slot_of, pk_of}
use takulife.Publishing.Events.Valid.{IsStored, Keeps}

abbrev After : {A : Type 0} → Result Error A × Db → Type 0
After x = IsStored x.1

-- A value that another row does not hold, by the test of the unique constraint.
abbrev OtherValues : Category → Category → Type 0
OtherValues row c =
    (row.slug ≢ c.slug)
    × (row.label ≢ c.label)
    × ((n : ℕ) → slot_of row ≡ some n → slot_of c ≢ some n)

slots_differ : (a b : Option ℕ) → clashes a b ≡ false → (n : ℕ) → a ≡ some n → b ≢ some n
slots_differ none b h n p q = cc
slots_differ (some m) none h n p q = cc
slots_differ (some m) (some k) h n p q =
    cc (h, (==_iff m k).1 (some-injective p ∙ sym (some-injective q)))

or_false : (a b : Bool) → (a || b) ≡ false → (a ≡ false) × (b ≡ false)
or_false true b h = cc
or_false false b h = (refl, h)

no_clash : (row c : Category) → category_clash row c ≡ false → OtherValues row c
no_clash row c h =
    let names = str_eq row.slug c.slug || str_eq row.label c.label in
    let parts = or_false names (clashes row.palette_slot c.palette_slot) h in
    let texts = or_false (str_eq row.slug c.slug) (str_eq row.label c.label) parts.0 in
    (
      λ q. cc (texts.0, (eq_iff row.slug c.slug).1 q),
      λ q. cc (texts.1, (eq_iff row.label c.label).1 q),
      slots_differ row.palette_slot c.palette_slot parts.1,
    )

added :
    (row : Category) (db : Db)
    → row.pk ≡ db.next_id
    → InPalette row
    → exists (category_clash row) db.categories ≡ false
    → IsStored db
    → IsStored (added_category row db)
added row db e small h v =
    let others =
      All-mono (λ c. category_clash row c ≡ false) (OtherValues row) db.categories (no_clash row)
        (All_of_not_exists (category_clash row) db.categories h) in
    record {
      keys = v.keys;
      below =
          All-mono (λ (e : Event). e.pk < db.next_id) (λ (e : Event). e.pk < db.next_id + 1)
            db.events (λ e b. omega arith) v.below;
      urls = v.urls;
      table = record {
        keys =
            DistinctKeys-append pk_of row db.categories
              (subst (λ k. All (λ (c : Category). c.pk < k) db.categories) (sym e) v.table.below)
              v.table.keys;
        below =
            All-append (λ (c : Category). c.pk < db.next_id + 1) db.categories (row ∷ [])
              (All-mono (λ (c : Category). c.pk < db.next_id)
                (λ (c : Category). c.pk < db.next_id + 1) db.categories (λ c b. omega arith)
                v.table.below)
              (omega arith, tt);
        slugs =
            DistinctValues-append slug_of row db.categories
              (λ w p.
                All-mono (OtherValues row) (λ c. slug_of c ≢ some w) db.categories
                  (λ c o q. o.0 (some-injective (p ∙ sym q))) others)
              v.table.slugs;
        labels =
            DistinctValues-append label_of row db.categories
              (λ w p.
                All-mono (OtherValues row) (λ c. label_of c ≢ some w) db.categories
                  (λ c o q. o.1 (some-injective (p ∙ sym q))) others)
              v.table.labels;
        slots =
            DistinctValues-append slot_of row db.categories
              (λ w p.
                All-mono (OtherValues row) (λ c. slot_of c ≢ some w) db.categories (λ c o. o.2 w p)
                  others)
              v.table.slots;
        in_palette = All-append InPalette db.categories (row ∷ []) v.table.in_palette (small, tt);
      };
    }

pub Keeps-insert_category :
    (slug label : String) (slot : ℕ)
    → slot < palette_slot_count
    → Keeps (insert_category slug label slot)
unfolding insert_category
Keeps-insert_category slug label slot h db v =
    let row = new_category slug label slot db in
    post-raise_if (After {A = Category}) (exists (category_clash row) db.categories) integrity
      (append_category row) db (λ t. v)
      (λ t. added row db refl (λ n p. subst (λ k. k < palette_slot_count) (some-injective p) h) t v)

pub activated :
    (c : Category) (enabled : Bool) (db : Db)
    → IsStored db
    → IsStored
        (record db { categories = update (Slots.has_pk c.pk) (with_active enabled) db.categories })
activated c enabled db v =
    let q = Slots.has_pk c.pk in
    let f = with_active enabled in
    record {
      keys = v.keys;
      below = v.below;
      urls = v.urls;
      table = record {
        keys = DistinctKeys-update pk_of q f (λ r. refl) db.categories v.table.keys;
        below =
            All-update (λ (r : Category). r.pk < db.next_id) (λ (r : Category). r.pk < db.next_id) q
              f db.categories (λ a h t. h) (λ a h t. h) v.table.below;
        slugs = DistinctValues-update_kept slug_of q f db.categories (λ r. refl) v.table.slugs;
        labels = DistinctValues-update_kept label_of q f db.categories (λ r. refl) v.table.labels;
        slots = DistinctValues-update_kept slot_of q f db.categories (λ r. refl) v.table.slots;
        in_palette =
            All-update InPalette InPalette q f db.categories (λ a h t. h) (λ a h t. h)
              v.table.in_palette;
      };
    }
