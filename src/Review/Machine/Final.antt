-- ===== src/Review/Machine/Final.antt =====
-- What no request of drafts/services.py undoes.
use takulife.Common.{
  ℕ, Option, none, some, List, ◌≡◌, sym, ap, ◌∙◌, inl, inr, Bool-cases, ◌==◌, ==_iff, Text,
}
use takulife.Review.Model.{pending, approved, rejected, Db, Platform}
use takulife.Review.Machine.{
  Review, View, review, set, Step, stay, submit, Steps, here, next, lookup_review, Request,
  handle_all,
}
use takulife.Review.Machine.Simulates.{IsNumbered}
use takulife.Review.Machine.Refines.{handle_all-refines}

-- A review that changes at another number is as before.
kept :
    (f : ℕ → Option Review) (k k' : ℕ) (o : Option Review) (r : Review) (u : Text)
    → f k ≡ some (review approved u)
    → f k' ≡ o
    → (o ≡ some (review approved u) → ⊥)
    → set f k' r k ≡ some (review approved u)
kept f k k' o r u h h' n = elim (Bool-cases (k == k')) [
  | inl e ↦ absurd (n (sym h' ∙ (ap f (sym ((==_iff k k').0 e)) ∙ h)))
  | inr e ↦ rw e h
]

step-approved :
    {s t : View} (k : ℕ) (u : Text)
    → Step s t
    → s.reviews k ≡ some (review approved u)
    → t.reviews k ≡ some (review approved u)
step-approved {s} k u (stay e) h = ap (λ (x : View). x.reviews k) e ∙ h
step-approved {s} k u (submit k' u' e reviews urls) h =
    ap (λ f. f k) reviews ∙ kept s.reviews k k' none (review pending u') u h e (λ q. cc)
step-approved {s} k u (Step.approve k' u' e reviews urls) h =
    ap (λ f. f k) reviews
    ∙ kept s.reviews k k' (some (review pending u')) (review approved u') u h e (λ q. cc)
step-approved {s} k u (Step.reject k' u' e reviews urls) h =
    ap (λ f. f k) reviews
    ∙ kept s.reviews k k' (some (review pending u')) (review rejected u') u h e (λ q. cc)
step-approved {s} k u (Step.reopen k' u' e reviews urls) h =
    ap (λ f. f k) reviews
    ∙ kept s.reviews k k' (some (review rejected u')) (review pending u') u h e (λ q. cc)

steps-approved :
    {s t : View} (k : ℕ) (u : Text)
    → Steps s t
    → s.reviews k ≡ some (review approved u)
    → t.reviews k ≡ some (review approved u)
steps-approved k u here h = h
steps-approved k u (next r st) h = step-approved k u st (steps-approved k u r h)

-- From a state in which the drafts' primary keys are below the next one, an approved
-- draft is approved and has the same source address after any sequence of service calls on drafts.
pub approved_is_final :
    (env : Platform) (rs : List Request) (db : Db) (k : ℕ) (u : Text)
    → IsNumbered db
    → lookup_review db.drafts k ≡ some (review approved u)
    → lookup_review (handle_all env rs db).drafts k ≡ some (review approved u)
approved_is_final env rs db k u v h = steps-approved k u (handle_all-refines env rs db v).1 h
