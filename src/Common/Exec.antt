-- ===== src/Common/Exec.antt =====
-- Service functions that write to the database and may raise: an action takes the stored state
-- and gives a result beside the new state. `E` is the type of the exceptions.
use mathlib.Core.Bool.{Bool, true, false}
use mathlib.Core.Logic.{◌⊎◌, inl, inr}
use mathlib.Core.Path.{◌≡◌, refl, ap, subst}
use takulife.Common.Tests.{if◌then◌else◌}

pub data Result {ℓ} (E A : Type ℓ) : Type ℓ where
  ok : A → Result E A
  err : E → Result E A

abbrev pub Exec {ℓ} : Type ℓ → Type ℓ → Type ℓ → Type ℓ
Exec S E A = S → Result E A × S

module _ {ℓ} {S E A : Type ℓ} where
  abbrev pub pure : A → Exec S E A
  pure a s = (ok a, s)

  abbrev pub raise : E → Exec S E A
  raise e s = (err e, s)

  abbrev pub gets : (S → A) → Exec S E A
  gets f s = (ok (f s), s)

  -- `with transaction.atomic()`: what the block wrote is undone if it raises.
  abbrev pub atomic : Exec S E A → Exec S E A
  atomic m s = let (r, s') = m s in elim r [ ok a ↦ (ok a, s') | err e ↦ (err e, s) ]

infixl 5 ◌>>=◌ ◌>>◌
abbrev pub ◌>>=◌ {ℓ} : {S E A B : Type ℓ} → Exec S E A → (A → Exec S E B) → Exec S E B
◌>>=◌ m f s = let (r, s') = m s in elim r [ ok a ↦ f a s' | err e ↦ (err e, s') ]

abbrev pub ◌>>◌ {ℓ} : {S E A B : Type ℓ} → Exec S E A → Exec S E B → Exec S E B
m >> k = m >>= λ _. k

abbrev pub modify : {S E : Type 0} → (S → S) → Exec S E (Unit {0})
modify f s = (ok tt, f s)

abbrev pub raise_if : {S E : Type 0} → Bool → E → Exec S E (Unit {0})
raise_if true e s = (err e, s)
raise_if false e s = (ok tt, s)

pub Result-cases {ℓ} :
    {E A : Type ℓ} (r : Result E A) → ((e : E) × (r ≡ err e)) ⊎ ((a : A) × (r ≡ ok a))
Result-cases (err e) = inl (e, refl)
Result-cases (ok a) = inr (a, refl)

pub ok-injective {ℓ} : {E A : Type ℓ} {a b : A} → ◌≡◌ {A = Result E A} (ok a) (ok b) → a ≡ b
ok-injective e = cc

pub err-injective {ℓ} : {E A : Type ℓ} {a b : E} → ◌≡◌ {A = Result E A} (err a) (err b) → a ≡ b
err-injective e = cc

module _ {ℓ κ} {S E : Type ℓ} where
  bind_run :
      {A B : Type ℓ} (P : Result E B × S → Type κ) (f : A → Exec S E B) (x y : Result E A × S)
      → x ≡ y
      → ((e : E) (s' : S) → x ≡ (err e, s') → P (err e, s'))
      → ((a : A) (s' : S) → x ≡ (ok a, s') → P (f a s'))
      → P (elim y.0 [ ok a ↦ f a y.1 | err e ↦ (err e, y.1) ])
  bind_run P f x (ok a, s') e fails runs = runs a s' e
  bind_run P f x (err b, s') e fails runs = fails b s' e

  -- What holds after an action and its continuation, by how the action ended.
  pub post-bind :
      {A B : Type ℓ} (P : Result E B × S → Type κ) (m : Exec S E A) (f : A → Exec S E B) (s : S)
      → ((e : E) (s' : S) → m s ≡ (err e, s') → P (err e, s'))
      → ((a : A) (s' : S) → m s ≡ (ok a, s') → P (f a s'))
      → P ((m >>= f) s)
  post-bind P m f s fails runs = bind_run P f (m s) (m s) refl fails runs

  atomic_run :
      {A : Type ℓ} (P : Result E A × S → Type κ) (s : S) (x y : Result E A × S)
      → x ≡ y
      → ((e : E) (s' : S) → x ≡ (err e, s') → P (err e, s))
      → ((a : A) (s' : S) → x ≡ (ok a, s') → P (ok a, s'))
      → P (elim y.0 [ ok a ↦ (ok a, y.1) | err e ↦ (err e, s) ])
  atomic_run P s x (ok a, s') e fails runs = runs a s' e
  atomic_run P s x (err b, s') e fails runs = fails b s' e

  -- What holds after a block in a transaction.
  pub post-atomic :
      {A : Type ℓ} (P : Result E A × S → Type κ) (m : Exec S E A) (s : S)
      → ((e : E) (s' : S) → m s ≡ (err e, s') → P (err e, s))
      → ((a : A) (s' : S) → m s ≡ (ok a, s') → P (ok a, s'))
      → P (atomic m s)
  post-atomic P m s fails runs = atomic_run P s (m s) (m s) refl fails runs

module _ {ℓ} {S E A B : Type ℓ} (m : Exec S E A) (f : A → Exec S E B) where
  -- The continuation, at the result of the action.
  abbrev pub continue : Result E A × S → Result E B × S
  continue x = elim x.0 as (λ r. Result E B × S) [ ok a ↦ f a x.1 | err e ↦ (err e, x.1) ]

  pub bind_ok : {s s' : S} {a : A} → m s ≡ (ok a, s') → (m >>= f) s ≡ f a s'
  bind_ok h = ap continue h

  pub bind_err : {s s' : S} {e : E} → m s ≡ (err e, s') → (m >>= f) s ≡ (err e, s')
  bind_err h = ap continue h

module _ {ℓ} {S E A : Type ℓ} (m : Exec S E A) where
  pub atomic_err : {s s' : S} {e : E} → m s ≡ (err e, s') → atomic m s ≡ (err e, s)
  atomic_err {s} h = ap (λ (x : Result E A × S). atomic (λ t. x) s) h

  pub atomic_ok : {s s' : S} {a : A} → m s ≡ (ok a, s') → atomic m s ≡ (ok a, s')
  atomic_ok {s} h = ap (λ (x : Result E A × S). atomic (λ t. x) s) h

-- What holds after a test that raises and the rest of the function.
pub post-raise_if {κ} :
    {S E A : Type 0} (P : Result E A × S → Type κ) (b : Bool) (e : E) (m : Exec S E A) (s : S)
    → (b ≡ true → P (err e, s))
    → (b ≡ false → P (m s))
    → P ((raise_if b e >> m) s)
post-raise_if P true e m s fails runs = fails refl
post-raise_if P false e m s fails runs = runs refl

-- The action keeps an invariant of the stored state, however it ends.
abbrev pub Preserves {κ} : {S E A : Type 0} → (S → Type κ) → Exec S E A → Type κ
Preserves {S = S} I m = (s : S) → I s → I (m s).1

module _ {κ} {S E : Type 0} (I : S → Type κ) where
  pub Preserves-bind :
      {A B : Type 0} (m : Exec S E A) (f : A → Exec S E B)
      → Preserves I m
      → ((a : A) → Preserves I (f a))
      → Preserves I (m >>= f)
  Preserves-bind {A} {B} m f hm hf s v =
      post-bind (λ (x : Result E B × S). I x.1) m f s
        (λ e s' h. subst (λ (x : Result E A × S). I x.1) h (hm s v))
        (λ a s' h. hf a s' (subst (λ (x : Result E A × S). I x.1) h (hm s v)))

  pub Preserves-atomic : {A : Type 0} (m : Exec S E A) → Preserves I m → Preserves I (atomic m)
  Preserves-atomic {A} m hm s v =
      post-atomic (λ (x : Result E A × S). I x.1) m s (λ e s' h. v)
        (λ a s' h. subst (λ (x : Result E A × S). I x.1) h (hm s v))

  pub Preserves-raise_if : (b : Bool) (e : E) → Preserves I (raise_if b e)
  Preserves-raise_if true e s v = v
  Preserves-raise_if false e s v = v

  pub Preserves-if :
      {A : Type 0} (b : Bool) (m n : Exec S E A)
      → Preserves I m
      → Preserves I n
      → Preserves I (if b then m else n)
  Preserves-if true m n hm hn s v = hm s v
  Preserves-if false m n hm hn s v = hn s v

-- What is answered, where something is.
abbrev pub Answered : {S E A : Type 0} → (A → Type 0) → Result E A × S → Type 0
Answered Q x = elim x.0 [ ok a ↦ Q a | err e ↦ Unit {0} ]

pub atomic-Answered :
    {S E A : Type 0} (Q : A → Type 0) (m : Exec S E A) (s : S)
    → Answered Q (m s)
    → Answered Q (atomic m s)
atomic-Answered Q m s h =
    post-atomic (Answered Q) m s (λ e s' q. tt) (λ a s' q. subst (Answered Q) q h)
