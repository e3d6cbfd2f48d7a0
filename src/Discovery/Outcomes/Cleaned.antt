-- ===== src/Discovery/Outcomes/Cleaned.antt =====
-- Which outcomes `_clean_event_outcomes` lets through.
use takulife.Common.{
  ◌≤◌, ◌≡◌, refl, String, true, Option, none, some, List, [], ◌∷◌, arith, Text, Bool-cases,
  Option-cases, inl, inr, length, length-take-le, All, All-take, subst, str_eq, one_of, text_in,
  leb,
}
use takulife.Common.Exec.{Result, ok, err, Result-cases, ok-injective}
use takulife.Discovery.Model.{EventOutcome, Error}
use takulife.Discovery.Outcomes.{
  Reported, object, Key, name, hashable, unhashable, event_outcome_reasons, has_web_scheme,
  sanitize_text, check_created, check_reason, and_then, clean_item, clean_items,
  clean_event_outcomes, max_event_outcomes,
}

module _ (strip : Text → Option Text) (urls : List Text) where
  -- A web address of at most 200 characters, a reason on the list of its outcome, and for
  -- "created" an address, less its tracking parameters, of a draft that the run made.
  pub record Kept (o : EventOutcome) : Type 0 where
    pub web : has_web_scheme o.url ≡ true
    pub short : length o.url ≤ 200
    pub allowed :
        (reasons : List String) × (event_outcome_reasons o.outcome ≡ some reasons)
        × (one_of o.reason reasons ≡ true)
    pub made :
        str_eq o.outcome "created" ≡ true
        → (url : Text) × (strip o.url ≡ some url) × (text_in url urls ≡ true)

  check_created-made :
      (o o' : EventOutcome)
      → check_created strip urls o ≡ ok (some o')
      → str_eq o.outcome "created" ≡ true
      → (url : Text) × (strip o.url ≡ some url) × (text_in url urls ≡ true)
  unfolding check_created
  check_created-made o o' e c = elim (Option-cases (strip o.url)) [
    | inl broken ↦ absurd (ground arith)
    | inr (url, stripped) ↦ (url, stripped, ground (arith, stripped))
  ]

  check_created-same : (o o' : EventOutcome) → check_created strip urls o ≡ ok (some o') → o ≡ o'
  unfolding check_created
  check_created-same o o' e = ground arith

  check_reason-Kept :
      (url : Text) (outcome : Key) (reason : String) (o : EventOutcome)
      → has_web_scheme url ≡ true
      → length url ≤ 200
      → check_reason strip urls url outcome reason ≡ ok (some o)
      → Kept o
  unfolding check_reason
  check_reason-Kept url unhashable reason o w l e = cc
  check_reason-Kept url hashable reason o w l e = cc
  check_reason-Kept url (name outcome) reason o w l e =
      elim (Option-cases (event_outcome_reasons outcome)) [
        | inl unknown ↦ absurd (ground arith)
        | inr (reasons, known) ↦ elim (Bool-cases (one_of reason reasons)) [
          | inr foreign ↦ absurd (ground arith)
          | inl listed ↦
              let o₁ : EventOutcome = record { url = url; outcome = outcome; reason = reason } in
              let passed : check_created strip urls o₁ ≡ ok (some o) = ground arith in
              subst Kept (check_created-same o₁ o passed) (record {
                web = w;
                short = l;
                allowed = (reasons, known, listed);
                made = check_created-made o₁ o passed;
              })
        ]
      ]

  clean_item-Kept :
      (item : Reported) (o : EventOutcome) → clean_item strip urls item ≡ ok (some o) → Kept o
  unfolding clean_item
  clean_item-Kept (object (some raw) outcome (some reason)) o e =
      elim (Bool-cases (has_web_scheme (sanitize_text raw))) [
        | inr other_scheme ↦ absurd (ground arith)
        | inl web ↦ elim (Bool-cases (leb (length (sanitize_text raw)) 200)) [
          | inr long ↦ absurd (ground arith)
          | inl short ↦
              check_reason-Kept (sanitize_text raw) outcome reason o web (ground arith)
                (ground arith)
        ]
      ]
  clean_item-Kept _ o e = cc

  and_then-Kept :
      (r : Result Error (Option EventOutcome)) (rest : Result Error (List EventOutcome))
      (os : List EventOutcome)
      → ((o : EventOutcome) → r ≡ ok (some o) → Kept o)
      → ((l : List EventOutcome) → rest ≡ ok l → All Kept l)
      → and_then r rest ≡ ok os
      → All Kept os
  and_then-Kept (err x) rest os item items e = cc
  and_then-Kept (ok none) (err x) os item items e = cc
  and_then-Kept (ok (some o)) (err x) os item items e = cc
  and_then-Kept (ok none) (ok l) os item items e = items os e
  and_then-Kept (ok (some o)) (ok l) os item items e =
      subst (All Kept) (ok-injective e) (item o refl, items l refl)

  clean_items-Kept :
      (raw : List Reported) (os : List EventOutcome)
      → clean_items strip urls raw ≡ ok os
      → All Kept os
  unfolding clean_items
  clean_items-Kept [] os e = subst (All Kept) (ok-injective e) tt
  clean_items-Kept (item ∷ raw) os e =
      and_then-Kept (clean_item strip urls item) (clean_items strip urls raw) os
        (clean_item-Kept item) (clean_items-Kept raw) e

  -- At most 20 outcomes are kept, and each passed every test of the list.
  pub clean_event_outcomes-Kept :
      (raw : Option (List Reported)) (os : List EventOutcome)
      → clean_event_outcomes strip urls raw ≡ ok os
      → All Kept os × (length os ≤ max_event_outcomes)
  unfolding clean_event_outcomes
  clean_event_outcomes-Kept none os e =
      subst (λ l. All Kept l × (length l ≤ max_event_outcomes)) (ok-injective e) (tt, omega arith)
  clean_event_outcomes-Kept (some raw) os e = elim (Result-cases (clean_items strip urls raw)) [
    | inl (x, bad) ↦ absurd (ground arith)
    | inr (kept, good) ↦
        subst (λ l. All Kept l × (length l ≤ max_event_outcomes))
          (ok-injective {E = Error} (ground (arith, good)))
          (
            All-take Kept max_event_outcomes kept (clean_items-Kept raw kept good),
            length-take-le max_event_outcomes kept,
          )
  ]
