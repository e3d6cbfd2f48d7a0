-- ===== src/Publishing/Slots/Reconcile.antt =====
-- What `reconcile_palette_slot` of core/categories.py does to the categories: it never fails, and
-- it rewrites the slot of one category at most.
use takulife.Common.{
  ℕ, String, Bool, true, false, not, ◌&&◌, Option, none, some, List, [], ◌∷◌, ◌≡◌, refl, ap, ◌∙◌,
  arith, inl, inr, exists, first, update, clashes, is_some, Bool-cases, Option-cases, if◌then◌else◌,
}
use takulife.Common.Exec.{ok, err, Exec, ◌>>=◌, bind_ok, bind_err, atomic_ok, atomic_err}
use takulife.Publishing.Model.{Category, Db, Error, palette_slots_exhausted}
use takulife.Publishing.Slots.{
  palette_slot_count, has_pk, has_slug, has_slot, with_slot, free_slot, next_available_slot,
  save_slot, acquire_slot, should_have_slot, reconcile_palette_slot, ignore_slot_errors,
}
use takulife.Publishing.Slots.Free.{free_slot-some}

-- The categories after one of them was given the slot that was found.
abbrev pub given : ℕ → Option ℕ → List Category → List Category
given pk none cs = cs
given pk (some slot) cs = update (has_pk pk) (with_slot (some slot)) cs

-- The categories after the slot of `c` was settled.
abbrev pub settled : Category → Bool → List Category → List Category
settled c should cs =
    if should
    then (if is_some c.palette_slot then cs else given c.pk (free_slot palette_slot_count 0 cs) cs)
    else (if is_some c.palette_slot then update (has_pk c.pk) (with_slot none) cs else cs)

abbrev pub settled_first : Option Category → ℕ → List Category → List Category
settled_first none n cs = cs
settled_first (some c) n cs = settled c (should_have_slot c n) cs

unfoldable pub reconciled : String → ℕ → List Category → List Category
unfolding first update free_slot
reconciled slug n cs = settled_first (first (has_slug slug) cs) n cs

abbrev with_categories : List Category → Db → Db
with_categories cs db = record db { categories = cs }

no_other :
    (pk slot : ℕ) (cs : List Category)
    → exists (has_slot slot) cs ≡ false
    → exists (λ (c : Category). not (has_pk pk c) && clashes c.palette_slot (some slot)) cs ≡ false
unfolding exists
no_other pk slot [] h = refl
no_other pk slot (c ∷ cs) h = ground (arith, no_other pk slot cs)

none-clashes :
    (pk : ℕ) (cs : List Category)
    → exists (λ (c : Category). not (has_pk pk c) && clashes c.palette_slot none) cs ≡ false
unfolding exists
none-clashes pk [] = refl
none-clashes pk (c ∷ cs) = ground (arith, none-clashes pk cs)

release_lem :
    (pk : ℕ) (db : Db)
    → save_slot pk none db
      ≡ (ok tt, with_categories (update (has_pk pk) (with_slot none) db.categories) db)
unfolding save_slot
release_lem pk db = rw (none-clashes pk db.categories) refl

save_free :
    (pk slot : ℕ) (db : Db)
    → exists (has_slot slot) db.categories ≡ false
    → save_slot pk (some slot) db
      ≡ (ok tt, with_categories (update (has_pk pk) (with_slot (some slot)) db.categories) db)
unfolding save_slot
save_free pk slot db h = rw (no_other pk slot db.categories h) refl

abbrev save_in : ℕ → ℕ → Exec Db Error (Unit {0})
save_in pk slot = save_slot pk (some slot)

pub next_some :
    (slot : ℕ) (db : Db)
    → free_slot palette_slot_count 0 db.categories ≡ some slot
    → next_available_slot db ≡ (ok slot, db)
unfolding next_available_slot
next_some slot db e = rw (next_available_slot, e) refl

pub next_none :
    (db : Db)
    → free_slot palette_slot_count 0 db.categories ≡ none
    → next_available_slot db ≡ (err palette_slots_exhausted, db)
unfolding next_available_slot
next_none db e = rw (next_available_slot, e) refl

-- A slot that is found is free, so the unique constraint holds.
acquire_lem :
    (pk : ℕ) (db : Db)
    → ignore_slot_errors (acquire_slot pk db) ≡ (
      ok tt,
      with_categories (given pk (free_slot palette_slot_count 0 db.categories) db.categories) db,
    )
unfolding acquire_slot
acquire_lem pk db = elim (Option-cases (free_slot palette_slot_count 0 db.categories)) [
  | inl e ↦ rw e (
      ap ignore_slot_errors (
        atomic_err (next_available_slot >>= save_in pk) {s = db}
          (bind_err next_available_slot (save_in pk) {s = db} (next_none db e))))
  | inr (slot, e) ↦
      let free = (free_slot-some palette_slot_count 0 slot db.categories e).1 in
      rw e (
        ap ignore_slot_errors (
          atomic_ok (next_available_slot >>= save_in pk) {s = db} (
            bind_ok next_available_slot (save_in pk) {s = db} (next_some slot db e)
            ∙ save_free pk slot db free)))
]

settle_lem :
    (c : Category) (should : Bool) (db : Db)
    → (if should
        then (if is_some c.palette_slot
            then (ok tt, db)
            else ignore_slot_errors (acquire_slot c.pk db))
        else (if is_some c.palette_slot then save_slot c.pk none db else (ok tt, db)))
      ≡ (ok tt, with_categories (settled c should db.categories) db)
settle_lem c true db = elim (Bool-cases (is_some c.palette_slot)) [
  | inl e ↦ rw e refl
  | inr e ↦ rw e (acquire_lem c.pk db)
]
settle_lem c false db = elim (Bool-cases (is_some c.palette_slot)) [
  | inl e ↦ rw e (release_lem c.pk db)
  | inr e ↦ rw e refl
]

pub reconcile-reconciled :
    (slug : String) (n : ℕ) (db : Db)
    → reconcile_palette_slot slug n db
      ≡ (ok tt, with_categories (reconciled slug n db.categories) db)
unfolding reconcile_palette_slot reconciled
reconcile-reconciled slug n db = elim (Option-cases (first (has_slug slug) db.categories)) [
  | inl e ↦ rw (reconcile_palette_slot, e) refl
  | inr (c, e) ↦ rw (reconcile_palette_slot, e) (settle_lem c (should_have_slot c n) db)
]
