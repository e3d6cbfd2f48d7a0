-- ===== src/Publishing/Slots/Valid.antt =====
-- The constraints on `Category` in core/models.py, and that the slot rules of core/categories.py
-- keep them.
use takulife.Common.{
  ℕ, ◌+◌, ◌<◌, String, Bool, true, false, Option, none, some, List, ◌≡◌, ◌≢◌, refl, arith, All,
  All_of, All-mono, post-if, some-injective, subst, sym, ◌∙◌, All-update, first, update, is_some,
  DistinctKeys, DistinctKeys-update, DistinctValues, DistinctValues-update_kept,
  DistinctValues-update_one,
}
use takulife.Publishing.Model.{Category}
use takulife.Publishing.Slots.{
  palette_slot_count, has_pk, has_slug, with_slot, free_slot, should_have_slot,
}
use takulife.Publishing.Slots.Free.{free_slot-some, All_of_unused}
use takulife.Publishing.Slots.Reconcile.{given, settled, settled_first, reconciled}

abbrev pub pk_of : Category → ℕ
pk_of c = c.pk

abbrev pub slug_of : Category → Option String
slug_of c = some c.slug

abbrev pub label_of : Category → Option String
label_of c = some c.label

abbrev pub slot_of : Category → Option ℕ
slot_of c = c.palette_slot

abbrev pub InPalette : Category → Type 0
InPalette c = (n : ℕ) → c.palette_slot ≡ some n → n < palette_slot_count

-- The unique columns are unique, the slots are of the palette, and the numbers are below `bound`.
pub record IsValidTable (bound : ℕ) (cs : List Category) : Type 0 where
  pub keys : DistinctKeys pk_of cs
  pub below : All (λ (c : Category). c.pk < bound) cs
  pub slugs : DistinctValues slug_of cs
  pub labels : DistinctValues label_of cs
  pub slots : DistinctValues slot_of cs
  pub in_palette : All InPalette cs

-- The category does not hold the slot.
abbrev Leaves : Option ℕ → Category → Type 0
Leaves w c = (n : ℕ) → w ≡ some n → c.palette_slot ≢ some n

module _ {bound : ℕ} where
  -- One category takes a slot that no other holds, or none.
  with_slot-IsValidTable :
      (pk : ℕ) (w : Option ℕ) (cs : List Category)
      → ((n : ℕ) → w ≡ some n → n < palette_slot_count)
      → All (Leaves w) cs
      → IsValidTable bound cs
      → IsValidTable bound (update (has_pk pk) (with_slot w) cs)
  with_slot-IsValidTable pk w cs small free v = record {
    keys = DistinctKeys-update pk_of (has_pk pk) (with_slot w) (λ r. refl) cs v.keys;
    below =
        All-update (λ (c : Category). c.pk < bound) (λ (c : Category). c.pk < bound) (has_pk pk)
          (with_slot w) cs (λ a h t. h) (λ a h t. h) v.below;
    slugs = DistinctValues-update_kept slug_of (has_pk pk) (with_slot w) cs (λ r. refl) v.slugs;
    labels = DistinctValues-update_kept label_of (has_pk pk) (with_slot w) cs (λ r. refl) v.labels;
    slots =
        DistinctValues-update_one slot_of pk_of pk (with_slot w) w (λ r. refl) cs v.keys
          (All-mono (Leaves w)
            (λ (y : Category). (n : ℕ) → w ≡ some n → y.pk ≢ pk → y.palette_slot ≢ some n) cs
            (λ y h n p q. h n p) free)
          v.slots;
    in_palette =
        All-update InPalette InPalette (has_pk pk) (with_slot w) cs (λ a h t. small) (λ a h t. h)
          v.in_palette;
  }

  released-IsValidTable :
      (pk : ℕ) (cs : List Category)
      → IsValidTable bound cs
      → IsValidTable bound (update (has_pk pk) (with_slot none) cs)
  released-IsValidTable pk cs v =
      with_slot-IsValidTable pk none cs (λ n p. cc) (All_of (Leaves none) cs (λ c n p. cc)) v

  given-IsValidTable :
      (pk : ℕ) (cs : List Category) (o : Option ℕ)
      → free_slot palette_slot_count 0 cs ≡ o
      → IsValidTable bound cs
      → IsValidTable bound (given pk o cs)
  given-IsValidTable pk cs none e v = v
  given-IsValidTable pk cs (some n) e v =
      let found = free_slot-some palette_slot_count 0 n cs e in
      with_slot-IsValidTable pk (some n) cs
        (λ m p. subst (λ k. k < palette_slot_count) (some-injective p) found.0)
        (All-mono (λ (c : Category). c.palette_slot ≢ some n) (Leaves (some n)) cs
          (λ c h m p q. h (q ∙ sym p)) (All_of_unused n cs found.1))
        v

  settled-IsValidTable :
      (c : Category) (should : Bool) (cs : List Category)
      → IsValidTable bound cs
      → IsValidTable bound (settled c should cs)
  settled-IsValidTable c true cs v =
      post-if (IsValidTable bound) (is_some c.palette_slot) cs
        (given c.pk (free_slot palette_slot_count 0 cs) cs) (λ t. v)
        (λ t. given-IsValidTable c.pk cs (free_slot palette_slot_count 0 cs) refl v)
  settled-IsValidTable c false cs v =
      post-if (IsValidTable bound) (is_some c.palette_slot)
        (update (has_pk c.pk) (with_slot none) cs) cs (λ t. released-IsValidTable c.pk cs v)
        (λ t. v)

  settled_first-IsValidTable :
      (o : Option Category) (n : ℕ) (cs : List Category)
      → IsValidTable bound cs
      → IsValidTable bound (settled_first o n cs)
  settled_first-IsValidTable none n cs v = v
  settled_first-IsValidTable (some c) n cs v = settled-IsValidTable c (should_have_slot c n) cs v

  pub reconciled-IsValidTable :
      (slug : String) (n : ℕ) (cs : List Category)
      → IsValidTable bound cs
      → IsValidTable bound (reconciled slug n cs)
  unfolding reconciled
  reconciled-IsValidTable slug n cs v = settled_first-IsValidTable (first (has_slug slug) cs) n cs v

pub IsValidTable-suc :
    (bound : ℕ) (cs : List Category) → IsValidTable bound cs → IsValidTable (bound + 1) cs
IsValidTable-suc bound cs v = record {
  keys = v.keys;
  below =
      All-mono (λ (c : Category). c.pk < bound) (λ (c : Category). c.pk < bound + 1) cs
        (λ c h. omega arith) v.below;
  slugs = v.slugs;
  labels = v.labels;
  slots = v.slots;
  in_palette = v.in_palette;
}
