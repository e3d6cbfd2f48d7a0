-- ===== src/Common/Distinct.antt =====
-- Tables under a unique constraint on a column that may be empty.
use Prim.Native.Nat.{ℕ}
use mathlib.Core.Path.{◌≡◌, refl, sym, subst, ◌∙◌}
use mathlib.Core.Bool.{Bool}
use mathlib.Core.Logic.{◌≢◌, inl, inr}
use mathlib.Core.Option.{Option, some}
use mathlib.Core.List.{List, [], ◌∷◌, ◌++◌}
use takulife.Common.Tests.{Bool-cases, ==_iff}
use takulife.Common.Tables.{All, All-append, All-update, select, update}
use takulife.Common.Keyed.{DistinctKeys, has_key, update_absent}

module _ {ℓ} {A X : Type ℓ} (column : A → Option X) where
  -- The rows hold different values, where they hold one.
  abbrev pub Differ : A → A → Type ℓ
  Differ x y = (v : X) → column x ≡ some v → column y ≢ some v

  abbrev pub DistinctValues : List A → Type ℓ
  DistinctValues [] = Unit
  DistinctValues (x ∷ xs) = All (Differ x) xs × DistinctValues xs

  Differ-all :
      (x : A) (w : Option X) (rs : List A)
      → column x ≡ w
      → ((v : X) → w ≡ some v → All (λ y. column y ≢ some v) rs)
      → All (Differ x) rs
  Differ-all x w [] e h = tt
  Differ-all x w (r ∷ rs) e h = (λ v p. (h v (sym e ∙ p)).0, Differ-all x w rs e (λ v p. (h v p).1))

  pub DistinctValues-append :
      (x : A) (rs : List A)
      → ((v : X) → column x ≡ some v → All (λ y. column y ≢ some v) rs)
      → DistinctValues rs
      → DistinctValues (rs ++ x ∷ [])
  DistinctValues-append x [] h d = (tt, tt)
  DistinctValues-append x (r ∷ rs) h d = (
    All-append (Differ r) rs (x ∷ []) d.0 ((λ v p q. (h v q).0 p), tt),
    DistinctValues-append x rs (λ v p. (h v p).1) d.1,
  )

module _ {ℓ κ} {A : Type ℓ} (P : A → Type κ) (p : A → Bool) where
  pub All-select : (rs : List A) → All P rs → All P (select p rs)
  unfolding select
  All-select [] h = tt
  All-select (r ∷ rs) h = elim (Bool-cases (p r)) [
    | inl e ↦ rw e (h.0, All-select rs h.1)
    | inr e ↦ rw e (All-select rs h.1)
  ]

module _ {ℓ} {A X : Type ℓ} (column : A → Option X) where
  pub DistinctValues-select :
      (p : A → Bool) (rs : List A) → DistinctValues column rs → DistinctValues column (select p rs)
  unfolding select
  DistinctValues-select p [] d = tt
  DistinctValues-select p (r ∷ rs) d = elim (Bool-cases (p r)) [
    | inl e ↦ rw e (All-select (Differ column r) p rs d.0, DistinctValues-select p rs d.1)
    | inr e ↦ rw e (DistinctValues-select p rs d.1)
  ]

  Differ-kept :
      (x x' y y' : A)
      → column x' ≡ column x
      → column y' ≡ column y
      → Differ column x y
      → Differ column x' y'
  Differ-kept x x' y y' e e' h v p q = h v (sym e ∙ p) (sym e' ∙ q)

  -- A change that leaves the column alone.
  pub DistinctValues-update_kept :
      (p : A → Bool) (f : A → A) (rs : List A)
      → ((r : A) → column (f r) ≡ column r)
      → DistinctValues column rs
      → DistinctValues column (update p f rs)
  unfolding update
  DistinctValues-update_kept p f [] same d = tt
  DistinctValues-update_kept p f (r ∷ rs) same d = elim (Bool-cases (p r)) [
    | inl e ↦ rw e (
      All-update (Differ column r) (Differ column (f r)) p f rs
          (λ y h t. Differ-kept r (f r) y (f y) (same r) (same y) h)
          (λ y h t. Differ-kept r (f r) y y (same r) refl h) d.0,
      DistinctValues-update_kept p f rs same d.1,
    )
    | inr e ↦ rw e (
      All-update (Differ column r) (Differ column r) p f rs
          (λ y h t. Differ-kept r r y (f y) refl (same y) h) (λ y h t. h) d.0,
      DistinctValues-update_kept p f rs same d.1,
    )
  ]

  -- One row, found by its key, takes a value that no other row holds.
  module _ (key : A → ℕ) (k : ℕ) (f : A → A) (w : Option X) (set : (r : A) → column (f r) ≡ w) where
    abbrev Free : A → Type ℓ
    Free y = (v : X) → w ≡ some v → key y ≢ k → column y ≢ some v

    Free-others :
        (x : A) (rs : List A)
        → column x ≡ w
        → All (λ s. key s ≢ k) rs
        → All Free rs
        → All (Differ column x) rs
    Free-others x [] e h free = tt
    Free-others x (r ∷ rs) e h free =
        (λ v p. free.0 v (sym e ∙ p) h.0, Free-others x rs e h.1 free.1)

    -- The rows behind the row that is rewritten, and behind one that is not.
    rewritten :
        (r : A) (rs : List A)
        → key r ≡ k
        → All (λ s. key s ≢ key r) rs
        → All Free rs
        → DistinctValues column rs
        → DistinctValues column (f r ∷ update (has_key key k) f rs)
    rewritten r rs e keys free d =
        let absent : All (λ s. key s ≢ k) rs = subst (λ i. All (λ s. key s ≢ i) rs) e keys in
        subst (λ t. DistinctValues column (f r ∷ t)) (sym (update_absent key k f rs absent))
          (Free-others (f r) rs (set r) absent free, d)

    passed :
        (r : A) (rs : List A)
        → key r ≢ k
        → Free r
        → All (Differ column r) rs
        → All (Differ column r) (update (has_key key k) f rs)
    passed r rs ne free d =
        All-update (Differ column r) (Differ column r) (has_key key k) f rs
          (λ y h t v p q. free v (sym (set y) ∙ q) ne p) (λ y h t. h) d

    pub DistinctValues-update_one :
        (rs : List A)
        → DistinctKeys key rs
        → All Free rs
        → DistinctValues column rs
        → DistinctValues column (update (has_key key k) f rs)
    unfolding update
    DistinctValues-update_one [] keys free d = tt
    DistinctValues-update_one (r ∷ rs) keys free d = elim (Bool-cases (has_key key k r)) [
      | inl e ↦ rw e (rewritten r rs ((==_iff (key r) k).0 e) keys.0 free.1 d.1)
      | inr e ↦ rw e (
        passed r rs (λ q. cc (e, (==_iff (key r) k).1 q)) free.0 d.0,
        DistinctValues-update_one rs keys.1 free.1 d.1,
      )
    ]

pub DistinctKeys-select {ℓ} :
    {A : Type ℓ} (key : A → ℕ) (p : A → Bool) (rs : List A)
    → DistinctKeys key rs
    → DistinctKeys key (select p rs)
unfolding select
DistinctKeys-select key p [] d = tt
DistinctKeys-select key p (r ∷ rs) d = elim (Bool-cases (p r)) [
  | inl e ↦ rw e (All-select (λ s. key s ≢ key r) p rs d.0, DistinctKeys-select key p rs d.1)
  | inr e ↦ rw e (DistinctKeys-select key p rs d.1)
]
