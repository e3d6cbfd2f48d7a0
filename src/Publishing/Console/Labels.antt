-- ===== src/Publishing/Console/Labels.antt =====
-- The label of a category: `category_edit` of staff/views/categories.py.
use takulife.Common.{
  ℕ, ◌<◌, String, Bool, false, not, ◌&&◌, some, ◌≡◌, ◌≢◌, refl, sym, ◌∙◌, arith, All-mono,
  All-update, All_of_not_exists, exists, update, DistinctKeys-update, DistinctValues-update_kept,
  DistinctValues-update_one, some-injective, str_eq, eq_iff, ==_iff,
}
use takulife.Common.Exec.{
  Result, Exec, gets, modify, raise_if, atomic, post-raise_if, Preserves, Preserves-bind,
  Preserves-atomic, Preserves-raise_if, ◌>>=◌, ◌>>◌,
}
use takulife.Publishing.Model.{Category, Action, Db, Error, validation_error, integrity}
use takulife.Publishing.Slots.{has_pk}
use takulife.Publishing.Slots.Valid.{InPalette, slug_of, label_of, slot_of, pk_of}
use takulife.Publishing.Events.Valid.{IsStored}
use takulife.Publishing.Console.{get_category, log_category}

abbrev pub with_label : String → Category → Category
with_label label c = record c { label = label }

abbrev pub label_taken : ℕ → String → Db → Bool
label_taken pk label db = exists (λ c. not (has_pk pk c) && str_eq c.label label) db.categories

abbrev pub relabelled : ℕ → String → Db → Db
relabelled pk label db = record db {
  categories = update (has_pk pk) (with_label label) db.categories;
}

-- `category.save(update_fields=["label"])`, under the unique constraint
unfoldable pub save_label : ℕ → String → Exec Db Error (Unit {0})
unfolding exists update
save_label pk label = do
  taken ← gets (label_taken pk label)
  raise_if taken integrity
  modify (relabelled pk label)

unfoldable pub relabel_found : String → Category → Exec Db Error Category
unfolding save_label
relabel_found label c = do
  raise_if (str_eq label "") validation_error
  atomic (do save_label c.pk label; log_category Action.category_update (with_label label c))

unfoldable pub category_edit : ℕ → String → Exec Db Error Category
unfolding relabel_found
category_edit pk label = get_category pk >>= relabel_found label

label_differs :
    (pk : ℕ) (label : String) (c : Category)
    → (not (has_pk pk c) && str_eq c.label label) ≡ false
    → (w : String) → some label ≡ some w
    → pk_of c ≢ pk
    → label_of c ≢ some w
label_differs pk label c h w p n q =
    absurd
      (ground (arith, h, ==_iff c.pk pk, n, (eq_iff c.label label).1 (some-injective (q ∙ sym p))))

pub relabelled-IsStored :
    (pk : ℕ) (label : String) (db : Db)
    → label_taken pk label db ≡ false
    → IsStored db
    → IsStored (relabelled pk label db)
relabelled-IsStored pk label db t v =
    let q = has_pk pk in
    let f = with_label label in
    record {
      keys = v.keys;
      below = v.below;
      urls = v.urls;
      table = record {
        keys = DistinctKeys-update pk_of q f (λ r. refl) db.categories v.table.keys;
        below =
            All-update (λ (r : Category). r.pk < db.next_id) (λ (r : Category). r.pk < db.next_id) q
              f db.categories (λ a h t'. h) (λ a h t'. h) v.table.below;
        slugs = DistinctValues-update_kept slug_of q f db.categories (λ r. refl) v.table.slugs;
        labels =
            DistinctValues-update_one label_of pk_of pk f (some label) (λ r. refl) db.categories
              v.table.keys
              (All-mono (λ c. (not (has_pk pk c) && str_eq c.label label) ≡ false)
                (λ c. (w : String) → some label ≡ some w → pk_of c ≢ pk → label_of c ≢ some w)
                db.categories (λ c h. label_differs pk label c h)
                (All_of_not_exists (λ c. not (has_pk pk c) && str_eq c.label label) db.categories
                  t))
              v.table.labels;
        slots = DistinctValues-update_kept slot_of q f db.categories (λ r. refl) v.table.slots;
        in_palette =
            All-update InPalette InPalette q f db.categories (λ a h t'. h) (λ a h t'. h)
              v.table.in_palette;
      };
    }

-- An invariant of the stored state that a new label, the reading of a category and the log keep.
module _ {κ} (I : Db → Type κ)
    (kept : (pk : ℕ) (label : String) (db : Db)
      → label_taken pk label db ≡ false
      → I db
      → I (relabelled pk label db))
    (kept-get : (pk : ℕ) → Preserves I (get_category pk))
    (kept-log : (action : Action) (c : Category) → Preserves I (log_category action c)) where
  save_label-kept : (pk : ℕ) (label : String) → Preserves I (save_label pk label)
  unfolding save_label
  save_label-kept pk label db v =
      post-raise_if (λ (x : Result Error (Unit {0}) × Db). I x.1) (label_taken pk label db)
        integrity (modify (relabelled pk label)) db (λ t. v) (λ t. kept pk label db t v)

  relabel_found-kept : (label : String) (c : Category) → Preserves I (relabel_found label c)
  unfolding relabel_found
  relabel_found-kept label c =
      let logged = log_category Action.category_update (with_label label c) in
      Preserves-bind I (raise_if (str_eq label "") validation_error)
        (λ u. atomic (save_label c.pk label >> logged))
        (Preserves-raise_if I (str_eq label "") validation_error)
        (λ u. Preserves-atomic I (save_label c.pk label >> logged) (
          Preserves-bind I (save_label c.pk label) (λ u'. logged) (save_label-kept c.pk label)
            (λ u'. kept-log Action.category_update (with_label label c))))

  pub category_edit-kept : (pk : ℕ) (label : String) → Preserves I (category_edit pk label)
  unfolding category_edit
  category_edit-kept pk label =
      Preserves-bind I (get_category pk) (relabel_found label) (kept-get pk)
        (relabel_found-kept label)
