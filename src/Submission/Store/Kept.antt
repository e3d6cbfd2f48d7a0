-- ===== src/Submission/Store/Kept.antt =====
-- What the blocks that store a candidate do to the sources, and that they leave the drafts:
-- drafts/candidate_validation.py.
use takulife.Common.{
  ℕ, String, Bool, true, false, Option, none, some, List, [], ◌∷◌, ◌++◌, ◌≡◌, ◌⊎◌, inl, inr, refl,
  subst, first, exists, if◌then◌else◌,
}
use takulife.Common.Exec.{Result, ok, Exec, pure, raise_if, post-bind, post-atomic, ◌>>=◌, ◌>>◌}
use takulife.Discovery.Model.{Run}
use takulife.Submission.Model.{
  Source, SourceType, Stage, Decision, failed, promoted, Cleaned, Candidate, Db, Error, integrity,
}
use takulife.Submission.Store.{
  on_url, renewed, run_with_room, append_candidate, create_or_first, save_failed_candidate,
  source_exists, new_source, with_source, create_candidate, promote_source, fail_duplicate,
  promote_locked, promote,
}
use takulife.Submission.Store.Rows.{room_then}

-- The sources are those of before, or those and one more, of which something holds.
abbrev pub Grown : (Source → Type 0) → List Source → List Source → Type 0
Grown Q before after = (after ≡ before) ⊎ ((s : Source) × (after ≡ before ++ s ∷ []) × Q s)

-- The drafts and events are those of before, and the sources too, but for one at most.
abbrev pub Leaves : {A : Type 0} → (Source → Type 0) → Db → Result Error A × Db → Type 0
Leaves Q db x = (x.1.review ≡ db.review) × Grown Q db.sources x.1.sources

abbrev pub NoMatter : Source → Type 0
NoMatter s = Unit {0}

pub then-Leaves :
    {A B : Type 0} (Q : Source → Type 0) (m : Exec Db Error A) (g : A → B) (db : Db)
    → Leaves Q db (m db)
    → Leaves Q db ((m >>= λ a. pure (g a)) db)
then-Leaves Q m g db h =
    post-bind (Leaves Q db) m (λ a. pure (g a)) db (λ e s q. subst (Leaves Q db) q h)
      (λ a s q. subst (Leaves Q db) q h)

module _ (Q : Source → Type 0) (id : ℕ) (token : String) (now : ℕ) (cleaned : Cleaned) where
  create_or_first-Leaves :
      (run : ℕ) (d : Decision) (db : Db) → Leaves Q db (create_or_first run cleaned d now db)
  unfolding create_or_first
  create_or_first-Leaves run d db = by_case (first (on_url run cleaned.url) db.candidates)
    where
      by_case :
          (o : Option Candidate)
          → Leaves Q db (elim o as (λ x. Result Error Candidate × Db) [
            | some c ↦ (ok c, db)
            | none ↦ append_candidate run cleaned d now db
          ])
      by_case (some c) = (refl, inl refl)
      by_case none = (refl, inl refl)

  pub save_failed-Leaves :
      (stage : Stage) (reason : Option String) (db : Db)
      → Leaves Q db (save_failed_candidate id token now cleaned stage reason db)
  unfolding save_failed_candidate renewed
  save_failed-Leaves stage reason db =
      let store = λ (run : Run). create_or_first run.id cleaned (failed stage reason) now in
      post-atomic (Leaves Q db) (run_with_room id token now >>= store) db
        (λ e s q. (refl, inl refl))
        (λ a s q. subst (Leaves Q db) q (
          room_then (Leaves Q db) id token now store db (λ e. (refl, inl refl))
            (λ e i. (refl, inl refl))
            (λ run same full.
              create_or_first-Leaves run.id (failed stage reason) (renewed run.id now db))))

  fail_duplicate-Leaves : (db : Db) → Leaves Q db (fail_duplicate id token now cleaned db)
  unfolding fail_duplicate
  fail_duplicate-Leaves db =
      then-Leaves Q (save_failed_candidate id token now cleaned Stage.duplicate none)
        (λ c. (c, none)) db (save_failed-Leaves Stage.duplicate none db)

  promote_source-Leaves :
      (run : ℕ) (source : Source) (db : Db)
      → Q source
      → Leaves Q db (promote_source run cleaned now source db)
  unfolding promote_source create_candidate
  promote_source-Leaves run source db held = by_case (exists (on_url run cleaned.url) db.candidates)
    where
      by_case :
          (b : Bool)
          → Leaves {A = Candidate × Option Source} Q db (
              ((raise_if b integrity >> append_candidate run cleaned (promoted source.pk) now)
                  >>= λ c. pure (c, some source))
                (with_source source db))
      by_case true = (refl, inr (source, refl, held))
      by_case false = (refl, inr (source, refl, held))

  pub promote-Leaves :
      (t : SourceType) (enabled : Bool) (db : Db)
      → Q (new_source cleaned t enabled db)
      → Leaves Q db (promote id token now cleaned t enabled db)
  unfolding promote promote_locked renewed
  promote-Leaves t enabled db held =
      let store = promote_locked id token now cleaned t enabled in
      post-atomic (Leaves Q db) (run_with_room id token now >>= store) db
        (λ e s q. (refl, inl refl))
        (λ a s q. subst (Leaves Q db) q (
          room_then (Leaves Q db) id token now store db (λ e. (refl, inl refl))
            (λ e i. (refl, inl refl))
            (λ run same full. by_case run (source_exists cleaned.url db))))
    where
      by_case :
          (run : Run) (b : Bool)
          → Leaves Q db (
              if b
              then fail_duplicate id token now cleaned (renewed run.id now db)
              else promote_source run.id cleaned now
                  (new_source cleaned t enabled db)
                  (renewed run.id now db))
      by_case run true = fail_duplicate-Leaves (renewed run.id now db)
      by_case run false =
          promote_source-Leaves run.id (new_source cleaned t enabled db) (renewed run.id now db)
            held
