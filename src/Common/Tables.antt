-- ===== src/Common/Tables.antt =====
-- Lists read as database tables, with the query-set methods that the program calls.
use Prim.Native.Nat.{ℕ, zero, suc, ◌+◌, ◌≤◌}
use mathlib.Core.Path.{◌≡◌, refl}
use mathlib.Core.Bool.{Bool, true, false}
use mathlib.Core.Logic.{inl, inr}
use mathlib.Core.Option.{Option, none, some}
use mathlib.Core.List.{List, [], ◌∷◌, ◌++◌}
use native.Mathlib.Omega.{arith}
use takulife.Common.Tests.{if◌then◌else◌, Bool-cases}

module _ {ℓ} {A : Type ℓ} where
  abbrev pub length : List A → ℕ
  length [] = 0
  length (x ∷ xs) = suc (length xs)

  abbrev pub take : ℕ → List A → List A
  take zero xs = []
  take (suc n) [] = []
  take (suc n) (x ∷ xs) = x ∷ take n xs

  -- `filter(p).first()`
  unfoldable pub first : (A → Bool) → List A → Option A
  first p [] = none
  first p (x ∷ xs) = if p x then some x else first p xs

  -- `filter(p).exists()`
  unfoldable pub exists : (A → Bool) → List A → Bool
  exists p [] = false
  exists p (x ∷ xs) = if p x then true else exists p xs

  -- `filter(p).count()`
  unfoldable pub count : (A → Bool) → List A → ℕ
  count p [] = 0
  count p (x ∷ xs) = (if p x then 1 else 0) + count p xs

  -- `filter(p)`
  unfoldable pub select : (A → Bool) → List A → List A
  select p [] = []
  select p (x ∷ xs) = let rest = select p xs in if p x then x ∷ rest else rest

  -- `filter(p).update(...)`
  unfoldable pub update : (A → Bool) → (A → A) → List A → List A
  update p f [] = []
  update p f (x ∷ xs) = (if p x then f x else x) ∷ update p f xs

  -- every row satisfies `P`
  abbrev pub All {κ} : (A → Type κ) → List A → Type κ
  All P [] = Unit
  All P (x ∷ xs) = P x × All P xs

  pub length-take-le : (n : ℕ) (xs : List A) → length (take n xs) ≤ n
  length-take-le zero xs = omega arith
  length-take-le (suc n) [] = omega arith
  length-take-le (suc n) (x ∷ xs) = omega (arith, length-take-le n xs)

  pub length-append : (xs ys : List A) → length (xs ++ ys) ≡ length xs + length ys
  length-append [] ys = omega arith
  length-append (x ∷ xs) ys = omega (arith, length-append xs ys)

module _ {ℓ} {A : Type ℓ} where
  pub All-take {κ} : (P : A → Type κ) (n : ℕ) (xs : List A) → All P xs → All P (take n xs)
  All-take P zero xs h = tt
  All-take P (suc n) [] h = tt
  All-take P (suc n) (x ∷ xs) h = (h.0, All-take P n xs h.1)

  pub All-and {κ μ} :
      (P : A → Type κ) (Q : A → Type μ) (xs : List A)
      → All P xs
      → All Q xs
      → All (λ x. P x × Q x) xs
  All-and P Q [] h k = tt
  All-and P Q (x ∷ xs) h k = ((h.0, k.0), All-and P Q xs h.1 k.1)

  pub All-append {κ} : (P : A → Type κ) (xs ys : List A) → All P xs → All P ys → All P (xs ++ ys)
  All-append P [] ys hx hy = hy
  All-append P (x ∷ xs) ys hx hy = (hx.0, All-append P xs ys hx.1 hy)

  -- What holds of every row holds of the first row that is found, and that row passes the test.
  pub All-first {κ} :
      (P : A → Type κ) (p : A → Bool) (xs : List A) (a : A)
      → All P xs
      → first p xs ≡ some a
      → P a × (p a ≡ true)
  unfolding first
  All-first P p [] a h e = cc
  All-first P p (x ∷ xs) a h e = ground (arith, All-first P p xs a h.1)

  pub All-update {κ} :
      (P Q : A → Type κ) (p : A → Bool) (f : A → A) (xs : List A)
      → ((a : A) → P a → p a ≡ true → Q (f a))
      → ((a : A) → P a → p a ≡ false → Q a)
      → All P xs
      → All Q (update p f xs)
  unfolding update
  All-update P Q p f [] hit miss h = tt
  All-update P Q p f (x ∷ xs) hit miss h = elim (Bool-cases (p x)) [
    | inl e ↦ (rw e (hit x h.0 e), All-update P Q p f xs hit miss h.1)
    | inr e ↦ (rw e (miss x h.0 e), All-update P Q p f xs hit miss h.1)
  ]

module _ {ℓ} {A : Type ℓ} where
  pub count-append : (p : A → Bool) (xs ys : List A) → count p (xs ++ ys) ≡ count p xs + count p ys
  unfolding count
  count-append p [] ys = omega arith
  count-append p (x ∷ xs) ys = omega (arith, count-append p xs ys)

  -- A query that finds nothing rejects every row.
  pub All_of_not_exists :
      (p : A → Bool) (xs : List A) → exists p xs ≡ false → All (λ x. p x ≡ false) xs
  unfolding exists
  All_of_not_exists p [] h = tt
  All_of_not_exists p (x ∷ xs) h = elim (Bool-cases (p x)) [
    | inl e ↦ cc (e, h)
    | inr e ↦ (e, All_of_not_exists p xs (rw e at h))
  ]

  pub All_of {κ} : (P : A → Type κ) (xs : List A) → ((x : A) → P x) → All P xs
  All_of P [] f = tt
  All_of P (x ∷ xs) f = (f x, All_of P xs f)

  pub All-mono {κ μ} :
      (P : A → Type κ) (Q : A → Type μ) (xs : List A) → ((x : A) → P x → Q x) → All P xs → All Q xs
  All-mono P Q [] f h = tt
  All-mono P Q (x ∷ xs) f h = (f x h.0, All-mono P Q xs f h.1)

  -- A query that finds nothing counts nothing, and finds no first row.
  pub count_of_not_exists : (p : A → Bool) (xs : List A) → exists p xs ≡ false → count p xs ≡ 0
  unfolding count exists
  count_of_not_exists p [] h = refl
  count_of_not_exists p (x ∷ xs) h = ground (arith, count_of_not_exists p xs)

  pub first_of_not_exists : (p : A → Bool) (xs : List A) → exists p xs ≡ false → first p xs ≡ none
  unfolding first exists
  first_of_not_exists p [] h = refl
  first_of_not_exists p (x ∷ xs) h = ground (arith, first_of_not_exists p xs)

  pub exists_of_none : (p : A → Bool) (xs : List A) → first p xs ≡ none → exists p xs ≡ false
  unfolding first exists
  exists_of_none p [] h = refl
  exists_of_none p (x ∷ xs) h = ground (arith, exists_of_none p xs)

  pub exists_of_first :
      (p : A → Bool) (xs : List A) (a : A) → first p xs ≡ some a → exists p xs ≡ true
  unfolding first exists
  exists_of_first p [] a h = cc
  exists_of_first p (x ∷ xs) a h = ground (arith, exists_of_first p xs a)

  pub first-append :
      (p : A → Bool) (xs ys : List A)
      → first p (xs ++ ys) ≡ (if exists p xs then first p xs else first p ys)
  unfolding first exists
  first-append p [] ys = refl
  first-append p (x ∷ xs) ys = ground (arith, first-append p xs ys)

  pub exists-append :
      (p : A → Bool) (xs ys : List A)
      → exists p (xs ++ ys) ≡ (if exists p xs then true else exists p ys)
  unfolding exists
  exists-append p [] ys = refl
  exists-append p (x ∷ xs) ys = ground (arith, exists-append p xs ys)

  pub length-update : (p : A → Bool) (f : A → A) (xs : List A) → length (update p f xs) ≡ length xs
  unfolding update
  length-update p f [] = refl
  length-update p f (x ∷ xs) = omega (arith, length-update p f xs)

  pub exists-update :
      (p q : A → Bool) (f : A → A) (xs : List A)
      → ((x : A) → p (f x) ≡ p x)
      → exists p (update q f xs) ≡ exists p xs
  unfolding exists update
  exists-update p q f [] h = refl
  exists-update p q f (x ∷ xs) h = ground (arith, h x, exists-update p q f xs h)

  pub exists-select :
      (p q : A → Bool) (xs : List A) → exists p xs ≡ false → exists p (select q xs) ≡ false
  unfolding exists select
  exists-select p q [] h = refl
  exists-select p q (x ∷ xs) h = ground (arith, exists-select p q xs)

  pub select-append :
      (q : A → Bool) (xs ys : List A) → select q (xs ++ ys) ≡ select q xs ++ select q ys
  unfolding select
  select-append q [] ys = refl
  select-append q (x ∷ xs) ys = ground (arith, select-append q xs ys)

  -- The first row that passes a test still passes, and is still the first, after it was rewritten.
  pub first-update_kept :
      (p q : A → Bool) (f : A → A) (xs : List A) (a : A)
      → ((x : A) → p (f x) ≡ p x)
      → first p xs ≡ some a
      → q a ≡ true
      → first p (update q f xs) ≡ some (f a)
  unfolding first update
  first-update_kept p q f [] a kept e h = cc
  first-update_kept p q f (x ∷ xs) a kept e h =
      ground (arith, kept x, first-update_kept p q f xs a kept)

  pub not_exists_of_first : (p : A → Bool) (xs : List A) → first p xs ≡ none → exists p xs ≡ false
  unfolding first exists
  not_exists_of_first p [] h = refl
  not_exists_of_first p (x ∷ xs) h = ground (arith, not_exists_of_first p xs)

  pub first_of_exists :
      (p : A → Bool) (xs : List A) → exists p xs ≡ true → (a : A) × (first p xs ≡ some a)
  unfolding first exists
  first_of_exists p [] h = cc
  first_of_exists p (x ∷ xs) h = elim (Bool-cases (p x)) [
    | inl e ↦ (x, rw e refl)
    | inr e ↦ let (a, found) = first_of_exists p xs (ground (arith, h, e)) in (a, rw e found)
  ]
