-- ===== src/Common/Keyed.antt =====
-- Tables whose rows have a key: keys stay distinct, and a rewrite by key touches one row.
use Prim.Native.Nat.{ℕ, ◌≤◌, ◌<◌}
use mathlib.Core.Path.{◌∙◌, ◌≡◌, refl, ap, sym, subst}
use mathlib.Core.Bool.{Bool, true, false}
use mathlib.Core.Logic.{◌≢◌}
use mathlib.Core.Option
use mathlib.Core.Option.{Option, none, some}
use mathlib.Core.List.{List, [], ◌∷◌, ◌++◌}
use native.Mathlib.Omega.{arith}
use takulife.Common.Tests.{◌==◌, if◌then◌else◌}
use takulife.Common.Tables.{All, All-append, first, count, select, update}

-- The row is in the table.
pub data In {ℓ} {A : Type ℓ} (x : A) : List A → Type ℓ where
  here : {rs : List A} → In x (x ∷ rs)
  there : {r : A} {rs : List A} → In x rs → In x (r ∷ rs)

In-select_step {ℓ} :
    {A : Type ℓ} (p : A → Bool) (x r : A) (rs kept : List A) (b : Bool)
    → p r ≡ b
    → In x (if b then r ∷ kept else kept)
    → (In x kept → In x rs × (p x ≡ true))
    → In x (r ∷ rs) × (p x ≡ true)
In-select_step p x r rs kept true e here ih = (here, e)
In-select_step p x r rs kept true e (there m) ih = (there (ih m).0, (ih m).1)
In-select_step p x r rs kept false e m ih = (there (ih m).0, (ih m).1)

pub In-select {ℓ} :
    {A : Type ℓ} (p : A → Bool) (x : A) (rs : List A) → In x (select p rs) → In x rs × (p x ≡ true)
unfolding select
In-select p x [] m = elim m [ ]
In-select p x (r ∷ rs) m = In-select_step p x r rs (select p rs) (p r) refl m (In-select p x rs)

pub All_In {ℓ κ} : {A : Type ℓ} (P : A → Type κ) (x : A) (rs : List A) → All P rs → In x rs → P x
All_In P x [] h m = elim m [ ]
All_In P x (r ∷ rs) h here = h.0
All_In P x (r ∷ rs) h (there m) = All_In P x rs h.1 m

module _ {ℓ} {A : Type ℓ} (key : A → ℕ) where
  -- No two rows have the same key.
  abbrev pub DistinctKeys : List A → Type 0
  DistinctKeys [] = Unit
  DistinctKeys (r ∷ rs) = All (λ s. key s ≢ key r) rs × DistinctKeys rs

  abbrev pub has_key : ℕ → A → Bool
  has_key k r = key r == k

  key-ne_of_In : (x : A) (rs : List A) (k : ℕ) → All (λ s. key s ≢ k) rs → In x rs → key x ≢ k
  key-ne_of_In x [] k h m = elim m [ ]
  key-ne_of_In x (r ∷ rs) k h here = h.0
  key-ne_of_In x (r ∷ rs) k h (there m) = key-ne_of_In x rs k h.1 m

  pub update_absent :
      (k : ℕ) (f : A → A) (rs : List A) → All (λ s. key s ≢ k) rs → update (has_key k) f rs ≡ rs
  unfolding update
  update_absent k f [] h = refl
  update_absent k f (r ∷ rs) h = ground (arith, update_absent k f rs h.1)

  -- Rewriting one row that counted does not raise the count.
  pub count-update_one-le :
      (p : A → Bool) (f : A → A) (x : A) (rs : List A)
      → DistinctKeys rs
      → In x rs
      → p x ≡ true
      → count p (update (has_key (key x)) f rs) ≤ count p rs
  unfolding update count
  count-update_one-le p f x [] d m h = elim m [ ]
  count-update_one-le p f x (r ∷ rs) d here h =
      ground (arith, ap (count p) (update_absent (key r) f rs d.0))
  count-update_one-le p f x (r ∷ rs) d (there m) h =
      ground (arith, key-ne_of_In x rs (key r) d.0 m, count-update_one-le p f x rs d.1 m h)

  -- A change that makes no row count leaves no more that count.
  pub count-update_each-le :
      (p q : A → Bool) (f : A → A) (rs : List A)
      → ((r : A) → q r ≡ true → p (f r) ≡ true → p r ≡ true)
      → count p (update q f rs) ≤ count p rs
  unfolding update count
  count-update_each-le p q f [] h = omega arith
  count-update_each-le p q f (r ∷ rs) h = ground (arith, h r, count-update_each-le p q f rs h)

  module _ (q : A → Bool) (f : A → A) (same : (r : A) → key (f r) ≡ key r) where
    keeps_key : (r : A) → key (if q r then f r else r) ≡ key r
    keeps_key r = ground (arith, same r)

    keys-update :
        (k : ℕ) (rs : List A) → All (λ s. key s ≢ k) rs → All (λ s. key s ≢ k) (update q f rs)
    unfolding update
    keys-update k [] h = tt
    keys-update k (r ∷ rs) h = (subst (λ i. i ≢ k) (sym (keeps_key r)) h.0, keys-update k rs h.1)

    pub DistinctKeys-update : (rs : List A) → DistinctKeys rs → DistinctKeys (update q f rs)
    unfolding update
    DistinctKeys-update [] d = tt
    DistinctKeys-update (r ∷ rs) d = (
      subst (λ i. All (λ s. key s ≢ i) (update q f rs)) (sym (keeps_key r))
          (keys-update (key r) rs d.0),
      DistinctKeys-update rs d.1,
    )

  -- The row with key `k` after the rows with key `k` were rewritten.
  pub first-update_self :
      (k : ℕ) (f : A → A) (rs : List A)
      → ((r : A) → key (f r) ≡ key r)
      → first (has_key k) (update (has_key k) f rs) ≡ Option.map f (first (has_key k) rs)
  unfolding first update
  first-update_self k f [] same = refl
  first-update_self k f (r ∷ rs) same = ground (arith, same r, first-update_self k f rs same)

  pub first_of_In :
      (x : A) (rs : List A) → DistinctKeys rs → In x rs → first (has_key (key x)) rs ≡ some x
  unfolding first
  first_of_In x [] d m = elim m [ ]
  first_of_In x (r ∷ rs) d here = ground arith
  first_of_In x (r ∷ rs) d (there m) =
      ground (arith, key-ne_of_In x rs (key r) d.0 m, first_of_In x rs d.1 m)

  others_differ :
      (k : ℕ) (x : A) (rs : List A)
      → All (λ s. key s ≢ k) rs
      → key x ≡ k
      → All (λ s. key s ≡ key x → s ≡ x) rs
  others_differ k x [] h e = tt
  others_differ k x (r ∷ rs) h e = (λ p. absurd (h.0 (p ∙ e)), others_differ k x rs h.1 e)

  -- A row in the table is the only one with its key.
  pub only_row :
      (x : A) (rs : List A) → DistinctKeys rs → In x rs → All (λ s. key s ≡ key x → s ≡ x) rs
  only_row x [] d m = elim m [ ]
  only_row x (r ∷ rs) d here = (λ p. refl, others_differ (key r) r rs d.0 refl)
  only_row x (r ∷ rs) d (there m) =
      (λ p. absurd (key-ne_of_In x rs (key r) d.0 m (sym p)), only_row x rs d.1 m)

  keys-ne_of_lt : (n : ℕ) (rs : List A) → All (λ s. key s < n) rs → All (λ s. key s ≢ n) rs
  keys-ne_of_lt n [] h = tt
  keys-ne_of_lt n (r ∷ rs) h = (omega (arith, h.0), keys-ne_of_lt n rs h.1)

  -- A new row under a key above all others.
  pub DistinctKeys-append :
      (x : A) (rs : List A)
      → All (λ s. key s < key x) rs
      → DistinctKeys rs
      → DistinctKeys (rs ++ x ∷ [])
  DistinctKeys-append x [] h d = (tt, tt)
  DistinctKeys-append x (r ∷ rs) h d = (
    All-append (λ s. key s ≢ key r) rs (x ∷ []) d.0 (omega (arith, h.0), tt),
    DistinctKeys-append x rs h.1 d.1,
  )
