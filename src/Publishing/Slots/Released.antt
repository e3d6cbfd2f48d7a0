-- ===== src/Publishing/Slots/Released.antt =====
-- After `reconcile_palette_slot` of core/categories.py no category keeps a slot that the rule
-- takes away: inactive, and without a published event.
use takulife.Common.{
  ℕ, String, Bool, true, false, Option, none, some, List, [], ◌∷◌, ◌≡◌, ◌≢◌, refl, sym, subst, inl,
  inr, In, here, there, All, All_In, All-and, All-mono, All-update, All_of_not_exists,
  not_exists_of_first, first, count, update, is_some, Bool-cases, Differ, DistinctValues, only_row,
  post-if, str_eq, eq_iff, some-injective, ==_iff, ap,
}
use takulife.Publishing.Model.{Event, Category}
use takulife.Publishing.Slots.{
  palette_slot_count, has_pk, has_slug, with_slot, free_slot, should_have_slot, published_in,
}
use takulife.Publishing.Slots.Reconcile.{given, settled, settled_first, reconciled}
use takulife.Publishing.Slots.Valid.{pk_of, slug_of, IsValidTable}

-- A category that should not have a slot has none; `n` counts its published events.
abbrev pub Released : ℕ → Category → Type 0
Released n c = should_have_slot c n ≡ false → c.palette_slot ≡ none

abbrev pub published_count : List Event → Category → ℕ
published_count es c = count (published_in c.slug) es

abbrev pub AllReleased : List Event → Category → Type 0
AllReleased es c = Released (published_count es c) c

-- The first row that is found is in the table.
pub In-first {ℓ} :
    {A : Type ℓ} (p : A → Bool) (x : A) (rs : List A) → first p rs ≡ some x → In x rs × (p x ≡ true)
unfolding first
In-first p x [] e = cc
In-first p x (r ∷ rs) e = elim (Bool-cases (p r)) [
  | inl t ↦
      let e' : r ≡ x = some-injective (rw t at e) in
      (subst (λ y. In y (r ∷ rs)) e' here, subst (λ y. p y ≡ true) e' t)
  | inr f ↦ let (m, t) = In-first p x rs (rw f at e) in (there m, t)
]

-- Where the column is unique, a row with the value of `x` is `x`.
only_value {ℓ} :
    {A X : Type ℓ} (column : A → Option X) (v : X) (x : A) (rs : List A)
    → DistinctValues column rs
    → In x rs
    → column x ≡ some v
    → All (λ y. column y ≡ some v → y ≡ x) rs
only_value column v x [] d m e = tt
only_value column v x (r ∷ rs) d here e = (
  λ q. refl,
  All-mono (Differ column r) (λ y. column y ≡ some v → y ≡ r) rs (λ y h q. absurd (h v e q)) d.0,
)
only_value column v x (r ∷ rs) d (there m) e =
    (λ q. absurd (All_In (Differ column r) x rs d.0 m v q e), only_value column v x rs d.1 m e)

-- What is known of a row before the slot of `c`, the category of `slug`, is settled.
abbrev Before : List Event → String → Category → Category → Type 0
Before es slug c a =
    (a.slug ≢ slug → AllReleased es a) × (a.slug ≡ slug → a ≡ c) × (a.pk ≡ c.pk → a ≡ c)

module _ (es : List Event) (slug : String) (c : Category) where
  row_kept : (a : Category) → AllReleased es c → Before es slug c a → AllReleased es a
  row_kept a r h = elim (Bool-cases (str_eq a.slug slug)) [
    | inl e ↦ subst (AllReleased es) (sym (h.1 ((eq_iff a.slug slug).0 e))) r
    | inr e ↦ h.0 (λ q. cc (e, (eq_iff a.slug slug).1 q))
  ]

  rows_kept :
      (cs : List Category) → AllReleased es c → All (Before es slug c) cs → All (AllReleased es) cs
  rows_kept cs r h = All-mono (Before es slug c) (AllReleased es) cs (λ a b. row_kept a r b) h

  missed : (a : Category) → Before es slug c a → has_pk c.pk a ≡ false → AllReleased es a
  missed a h t = h.0 (λ q. cc (t, (==_iff a.pk c.pk).1 (ap pk_of (h.1 q))))

  rewritten :
      (w : Option ℕ) (cs : List Category)
      → AllReleased es (with_slot w c)
      → All (Before es slug c) cs
      → All (AllReleased es) (update (has_pk c.pk) (with_slot w) cs)
  rewritten w cs r h =
      All-update (Before es slug c) (AllReleased es) (has_pk c.pk) (with_slot w) cs
        (λ a b t.
          subst (λ (x : Category). AllReleased es (with_slot w x))
            (sym (b.2 ((==_iff a.pk c.pk).0 t))) r)
        (λ a b t. missed a b t) h

  given_lem :
      (o : Option ℕ) (cs : List Category)
      → should_have_slot c (published_count es c) ≡ true
      → All (Before es slug c) cs
      → All (AllReleased es) (given c.pk o cs)
  given_lem none cs e h = rows_kept cs (λ f. cc (e, f)) h
  given_lem (some n) cs e h = rewritten (some n) cs (λ f. cc (e, f)) h

  settled_lem :
      (should : Bool) (cs : List Category)
      → should_have_slot c (published_count es c) ≡ should
      → All (Before es slug c) cs
      → All (AllReleased es) (settled c should cs)
  settled_lem true cs e h =
      post-if (All (AllReleased es)) (is_some c.palette_slot) cs
        (given c.pk (free_slot palette_slot_count 0 cs) cs) (λ t. rows_kept cs (λ f. cc (e, f)) h)
        (λ t. given_lem (free_slot palette_slot_count 0 cs) cs e h)
  settled_lem false cs e h =
      post-if (All (AllReleased es)) (is_some c.palette_slot)
        (update (has_pk c.pk) (with_slot none) cs) cs (λ t. rewritten none cs (λ f. refl) h)
        (λ t. rows_kept cs (λ f. not_some c.palette_slot t) h)
    where
      not_some : (o : Option ℕ) → is_some o ≡ false → o ≡ none
      not_some none p = refl
      not_some (some n) p = cc

abbrev pub ButOf : List Event → String → Category → Type 0
ButOf es slug c = c.slug ≢ slug → AllReleased es c

first_settled :
    (es : List Event) (slug : String) (bound : ℕ) (cs : List Category) (o : Option Category)
    → first (has_slug slug) cs ≡ o
    → IsValidTable bound cs
    → All (ButOf es slug) cs
    → All (AllReleased es) (settled_first o (count (published_in slug) es) cs)
first_settled es slug bound cs none e v h =
    All-mono (λ c. ButOf es slug c × (has_slug slug c ≡ false)) (AllReleased es) cs
      (λ c b. b.0 (λ q. cc (b.1, (eq_iff c.slug slug).1 q)))
      (All-and (ButOf es slug) (λ c. has_slug slug c ≡ false) cs h
        (All_of_not_exists (has_slug slug) cs (not_exists_of_first (has_slug slug) cs e)))
first_settled es slug bound cs (some c) e v h =
    let (m, t) = In-first (has_slug slug) c cs e in
    let named : c.slug ≡ slug = (eq_iff c.slug slug).0 t in
    let slugs = only_value slug_of slug c cs v.slugs m (ap some named) in
    let keys = only_row pk_of c cs v.keys m in
    settled_lem es slug c (should_have_slot c (count (published_in slug) es)) cs
      (ap (λ s. should_have_slot c (count (published_in s) es)) named)
      (All-mono
        (λ a. ButOf es slug a × ((slug_of a ≡ some slug → a ≡ c) × (pk_of a ≡ pk_of c → a ≡ c)))
        (Before es slug c) cs (λ a b. (b.0, (λ q. b.1.0 (ap some q)), b.1.1))
        (All-and (ButOf es slug)
          (λ a. (slug_of a ≡ some slug → a ≡ c) × (pk_of a ≡ pk_of c → a ≡ c)) cs h
          (All-and (λ a. slug_of a ≡ some slug → a ≡ c) (λ a. pk_of a ≡ pk_of c → a ≡ c) cs slugs
            keys)))

-- Every category but that of `slug` follows the rule before, and every one does after.
pub reconciled-Released :
    (es : List Event) (slug : String) (bound : ℕ) (cs : List Category)
    → IsValidTable bound cs
    → All (ButOf es slug) cs
    → All (AllReleased es) (reconciled slug (count (published_in slug) es) cs)
unfolding reconciled
reconciled-Released es slug bound cs v h =
    first_settled es slug bound cs (first (has_slug slug) cs) refl v h
