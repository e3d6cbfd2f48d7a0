-- ===== src/Discovery/Outcomes/Combined.antt =====
-- What the final status of a run says of its candidates and events.
use takulife.Common.{
  refl, ℕ, ◌≡◌, ◌↔◌, ◌⊎◌, inl, inr, Bool, true, false, List, [], ◌∷◌, arith, Bool-cases, All,
}
use takulife.Discovery.Model.{RunStatus, CandidateStatus, is_active}
use takulife.Discovery.Outcomes.{
  Outcome, absent, succeeded, failed, partial, all_of, is_promoted, classify_candidate_outcome,
  classify_event_outcome, combine_outcomes,
}

-- The combined outcome never leaves a run active.
pub combine_outcomes-inactive : (a b : Outcome) → is_active (combine_outcomes a b) ≡ false
unfolding combine_outcomes
combine_outcomes-inactive a b = ground arith

module _ (p : CandidateStatus → Bool) where
  all_of-All : (ss : List CandidateStatus) → all_of p ss ≡ true → All (λ s. p s ≡ true) ss
  unfolding all_of
  all_of-All [] h = tt
  all_of-All (s ∷ ss) h = (ground arith, all_of-All ss (ground arith))

  All-all_of : (ss : List CandidateStatus) → All (λ s. p s ≡ true) ss → all_of p ss ≡ true
  unfolding all_of
  All-all_of [] h = refl
  All-all_of (s ∷ ss) h = ground (arith, All-all_of ss h.1)

-- The status that `complete_run` gives a run that its runner did not report as failed.
abbrev pub combined : List CandidateStatus → ℕ → ℕ → ℕ → RunStatus
combined ss attempted failures created =
    combine_outcomes (classify_candidate_outcome ss)
      (classify_event_outcome attempted failures created)

-- No failed event, or nothing attempted.
abbrev pub EventsFine : ℕ → ℕ → Type 0
EventsFine attempted failures = (attempted ≡ 0) ⊎ (failures ≡ 0)

candidate_success :
    (ss : List CandidateStatus)
    → all_of is_promoted ss ≡ true
    → (classify_candidate_outcome ss ≡ absent) ⊎ (classify_candidate_outcome ss ≡ succeeded)
unfolding classify_candidate_outcome
candidate_success [] h = inl refl
candidate_success (s ∷ ss) h = inr (rw h)

candidate_no_success :
    (ss : List CandidateStatus)
    → all_of is_promoted ss ≡ false
    → (classify_candidate_outcome ss ≡ failed) ⊎ (classify_candidate_outcome ss ≡ partial)
unfolding classify_candidate_outcome all_of
candidate_no_success [] h = absurd (ground arith)
candidate_no_success (s ∷ ss) h = ground (arith, h)

combined-succeeded_to :
    (ss : List CandidateStatus) (attempted failures created : ℕ)
    → combined ss attempted failures created ≡ RunStatus.succeeded
    → (all_of is_promoted ss ≡ true) × EventsFine attempted failures
unfolding combine_outcomes classify_event_outcome
combined-succeeded_to ss attempted failures created h = elim (Bool-cases (all_of is_promoted ss)) [
  | inl good ↦ (good, ground arith)
  | inr bad ↦ absurd (ground (arith, candidate_no_success ss bad))
]

combined-succeeded_from :
    (ss : List CandidateStatus) (attempted failures created : ℕ)
    → (all_of is_promoted ss ≡ true) × EventsFine attempted failures
    → combined ss attempted failures created ≡ RunStatus.succeeded
unfolding combine_outcomes classify_event_outcome
combined-succeeded_from ss attempted failures created h = ground (arith, candidate_success ss h.0)

-- A run succeeds exactly when every candidate was promoted and no event failed, also where there
-- is no candidate or no event: what was created does not matter.
combined-succeeded_iff :
    (ss : List CandidateStatus) (attempted failures created : ℕ)
    → (combined ss attempted failures created ≡ RunStatus.succeeded)
      ↔ (All (λ s. is_promoted s ≡ true) ss × EventsFine attempted failures)
combined-succeeded_iff ss attempted failures created = (
  λ h.
      let (good, fine) = combined-succeeded_to ss attempted failures created h in
      (all_of-All is_promoted ss good, fine),
  λ h. combined-succeeded_from ss attempted failures created (All-all_of is_promoted ss h.0, h.1),
)
