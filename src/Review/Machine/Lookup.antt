-- ===== src/Review/Machine/Lookup.antt =====
-- The review of a draft after a draft was written: drafts/services.py.
use mathlib.Core.Path.{fun_ext}
use mathlib.Core.Option
use takulife.Common.{
  ℕ, ◌<◌, none, some, List, [], ◌∷◌, ◌++◌, ◌≡◌, ◌≢◌, refl, ap, ◌∙◌, arith, inl, inr, All, first,
  update, Bool-cases, ◌==◌, ==_iff,
}
use takulife.Review.Model.{Draft}
use takulife.Review.Drafts.{has_pk}
use takulife.Review.Machine.{set, review_of, lookup_review}

-- The reviews under the other numbers are as before.
lookup-update_other :
    (k p : ℕ) (f : Draft → Draft) (ds : List Draft)
    → ((x : Draft) → (f x).pk ≡ x.pk)
    → p ≢ k
    → lookup_review (update (has_pk k) f ds) p ≡ lookup_review ds p
unfolding first update
lookup-update_other k p f [] same n = refl
lookup-update_other k p f (x ∷ ds) same n =
    ground (arith, lookup-update_other k p f ds same n, same x)

first-update_hit :
    (k : ℕ) (f : Draft → Draft) (ds : List Draft) (d : Draft)
    → ((x : Draft) → (f x).pk ≡ x.pk)
    → first (has_pk k) ds ≡ some d
    → first (has_pk k) (update (has_pk k) f ds) ≡ some (f d)
unfolding first update
first-update_hit k f [] d same h = cc
first-update_hit k f (x ∷ ds) d same h = ground (arith, first-update_hit k f ds d same, same x)

-- A rewritten draft is found under its number, and the others as before.
pub lookup-update :
    (k : ℕ) (f : Draft → Draft) (ds : List Draft) (d : Draft)
    → ((x : Draft) → (f x).pk ≡ x.pk)
    → first (has_pk k) ds ≡ some d
    → lookup_review (update (has_pk k) f ds) ≡ set (lookup_review ds) k (review_of (f d))
lookup-update k f ds d same h = fun_ext λ p. elim (Bool-cases (p == k)) [
  | inl e ↦
      let q : p ≡ k = (==_iff p k).0 e in
      rw e (
        ap (Option.map review_of) (
          ap (λ i. first (has_pk i) (update (has_pk k) f ds)) q ∙ first-update_hit k f ds d same h))
  | inr e ↦ rw e (lookup-update_other k p f ds same (λ q. cc (e, (==_iff p k).1 q)))
]

append_lem :
    (p k : ℕ) (d : Draft) (ds : List Draft)
    → d.pk ≡ k
    → All (λ (x : Draft). x.pk < k) ds
    → lookup_review (ds ++ d ∷ []) p ≡ set (lookup_review ds) k (review_of d) p
unfolding first
append_lem p k d [] e h = ground arith
append_lem p k d (x ∷ ds) e h = ground (arith, append_lem p k d ds e h.1, h.0)

pub lookup-append :
    (k : ℕ) (d : Draft) (ds : List Draft)
    → d.pk ≡ k
    → All (λ (x : Draft). x.pk < k) ds
    → lookup_review (ds ++ d ∷ []) ≡ set (lookup_review ds) k (review_of d)
lookup-append k d ds e h = fun_ext λ p. append_lem p k d ds e h

pub lookup_unused :
    (k : ℕ) (ds : List Draft) → All (λ (x : Draft). x.pk < k) ds → lookup_review ds k ≡ none
unfolding first
lookup_unused k [] h = refl
lookup_unused k (x ∷ ds) h = ground (arith, lookup_unused k ds h.1, h.0)
