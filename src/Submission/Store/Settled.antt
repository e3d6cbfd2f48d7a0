-- ===== src/Submission/Store/Settled.antt =====
-- The candidate that the blocks of drafts/candidate_validation.py store or find.
use takulife.Common.{
  ℕ, Bool, true, false, Option, none, some, List, ◌≡◌, refl, sym, subst, ◌∙◌, String, exists, first,
  exists_of_none, Text, if◌then◌else◌,
}
use takulife.Common.Exec.{Result, ok, Exec, pure, raise_if, post-bind, ◌>>=◌, ◌>>◌}
use takulife.Discovery.Model.{Run}
use takulife.Submission.Model.{
  Source, SourceType, Stage, failed, promoted, Cleaned, Candidate, Db, Error, integrity,
}
use takulife.Submission.Store.{
  on_url, renewed, is_full, run_with_room, new_candidate, append_candidate, create_or_first,
  save_failed_candidate, source_exists, new_source, with_source, create_candidate, promote_source,
  fail_duplicate, promote_locked, promote,
}
use takulife.Submission.Store.Limited.{
  IsLimited, added-IsLimited, with_source-IsLimited, exists_own_source, first-added, Backed,
  is_source,
}
use takulife.Submission.Store.Rows.{Settled, atomic-Settled, renewed-IsLimited, room_then}

not_promoted :
    (stage : Stage) (reason : Option String) (ss : List Source) (c : Candidate)
    → c.decision ≡ failed stage reason
    → Backed ss c
not_promoted stage reason ss c e pk q = cc

create_or_first-Settled :
    (run id : ℕ) (cleaned : Cleaned) (stage : Stage) (reason : Option String) (now : ℕ) (db : Db)
    → run ≡ id
    → is_full run db ≡ false
    → IsLimited db
    → Settled (λ c. c) id cleaned.url (create_or_first run cleaned (failed stage reason) now db)
unfolding create_or_first
create_or_first-Settled run id cleaned stage reason now db same full v =
    subst
      (λ i.
        Settled (λ c. c) i cleaned.url (create_or_first run cleaned (failed stage reason) now db))
      same (by_case (first (on_url run cleaned.url) db.candidates) refl)
  where
    new : Candidate
    new = new_candidate run cleaned (failed stage reason) now db

    by_case :
        (o : Option Candidate)
        → first (on_url run cleaned.url) db.candidates ≡ o
        → Settled
            (λ c. c)
            run
            cleaned.url
            (elim o as (λ x. Result Error Candidate × Db) [
              | some c ↦ (ok c, db)
              | none ↦ append_candidate run cleaned (failed stage reason) now db
            ])
    by_case (some c) e = (v, e)
    by_case none e =
        let absent = exists_of_none (on_url run cleaned.url) db.candidates e in
        (
          added-IsLimited new db full absent (not_promoted stage reason db.sources new refl) v,
          first-added new db absent,
        )

pub save_failed-Settled :
    (id : ℕ) (token : String) (now : ℕ) (cleaned : Cleaned) (stage : Stage) (reason : Option String)
    (db : Db)
    → IsLimited db
    → Settled (λ c. c) id cleaned.url (save_failed_candidate id token now cleaned stage reason db)
unfolding save_failed_candidate
save_failed-Settled id token now cleaned stage reason db v =
    atomic-Settled (λ c. c) id cleaned.url
      (run_with_room id token now >>= λ run.
        create_or_first run.id cleaned (failed stage reason) now)
      db v
      (room_then (Settled (λ c. c) id cleaned.url) id token now
        (λ run. create_or_first run.id cleaned (failed stage reason) now) db (λ e. (v, tt))
        (λ e i. (renewed-IsLimited i now db v, tt))
        (λ run same full.
          create_or_first-Settled run.id id cleaned stage reason now (renewed run.id now db) same
            full (renewed-IsLimited run.id now db v)))

pub then_pure :
    {A B : Type 0} (answer : A → Candidate) (other : B → Candidate) (id : ℕ) (url : Text)
    (m : Exec Db Error A) (g : A → B) (db : Db)
    → ((a : A) → other (g a) ≡ answer a)
    → Settled answer id url (m db)
    → Settled other id url ((m >>= λ a. pure (g a)) db)
then_pure {A} {B} answer other id url m g db same h =
    post-bind (Settled other id url) m (λ a. pure (g a)) db
      (λ e s q. ((subst (Settled answer id url) q h).0, tt))
      (λ a s q.
        let (v, found) = subst (Settled answer id url) q h in
        (v, subst (λ c. first (on_url id url) s.candidates ≡ some c) (sym (same a)) found))

create_candidate-Settled :
    (run : ℕ) (cleaned : Cleaned) (pk now : ℕ) (db : Db)
    → is_full run db ≡ false
    → Backed db.sources (new_candidate run cleaned (promoted pk) now db)
    → IsLimited db
    → Settled (λ c. c) run cleaned.url (create_candidate run cleaned (promoted pk) now db)
unfolding create_candidate
create_candidate-Settled run cleaned pk now db full backed v =
    by_case (exists (on_url run cleaned.url) db.candidates) refl
  where
    new : Candidate
    new = new_candidate run cleaned (promoted pk) now db

    by_case :
        (b : Bool)
        → exists (on_url run cleaned.url) db.candidates ≡ b
        → Settled
            (λ c. c)
            run
            cleaned.url
            ((raise_if b integrity >> append_candidate run cleaned (promoted pk) now) db)
    by_case true e = (v, tt)
    by_case false e = (added-IsLimited new db full e backed v, first-added new db e)

pk_of_promoted : (a b : ℕ) → promoted a ≡ promoted b → a ≡ b
pk_of_promoted a b e = cc

own_source :
    (run pk now : ℕ) (cleaned : Cleaned) (db : Db) (s : Source)
    → s.pk ≡ pk
    → s.url ≡ cleaned.url
    → Backed
        (with_source s db).sources
        (new_candidate run cleaned (promoted pk) now (with_source s db))
own_source run pk now cleaned db s same same_url k e =
    subst (λ i. exists (is_source i cleaned.url) (with_source s db).sources ≡ true)
      (same ∙ pk_of_promoted pk k e)
      (subst (λ u. exists (is_source s.pk u) (with_source s db).sources ≡ true) same_url
        (exists_own_source s db.sources))

promote_locked-Settled :
    (id : ℕ) (token : String) (now : ℕ) (cleaned : Cleaned) (t : SourceType) (enabled : Bool)
    (run : Run) (db : Db)
    → run.id ≡ id
    → is_full run.id db ≡ false
    → IsLimited db
    → Settled
        (λ (a : Candidate × Option Source). a.0)
        id
        cleaned.url
        (promote_locked id token now cleaned t enabled run db)
unfolding promote_locked promote_source fail_duplicate
promote_locked-Settled id token now cleaned t enabled run db same full v =
    by_case (source_exists cleaned.url db) refl
  where
    answer : Candidate × Option Source → Candidate
    answer a = a.0

    new : Source
    new = new_source cleaned t enabled db

    by_case :
        (b : Bool)
        → source_exists cleaned.url db ≡ b
        → Settled
            (λ (a : Candidate × Option Source). a.0)
            id
            cleaned.url
            (if b
              then fail_duplicate id token now cleaned db
              else promote_source run.id cleaned now (new_source cleaned t enabled db) db)
    by_case true e =
        then_pure (λ c. c) answer id cleaned.url
          (save_failed_candidate id token now cleaned Stage.duplicate none) (λ c. (c, none)) db
          (λ c. refl) (save_failed-Settled id token now cleaned Stage.duplicate none db v)
    by_case false e =
        then_pure (λ c. c) answer id cleaned.url
          (create_candidate run.id cleaned (promoted new.pk) now) (λ c. (c, some new))
          (with_source new db) (λ c. refl)
          (subst
            (λ i.
              Settled (λ c. c) i cleaned.url
                (create_candidate run.id cleaned (promoted new.pk) now (with_source new db)))
            same
            (create_candidate-Settled run.id cleaned new.pk now (with_source new db) full
              (own_source run.id new.pk now cleaned db new refl refl)
              (with_source-IsLimited new db e v)))

pub promote-Settled :
    (id : ℕ) (token : String) (now : ℕ) (cleaned : Cleaned) (t : SourceType) (enabled : Bool)
    (db : Db)
    → IsLimited db
    → Settled
        (λ (a : Candidate × Option Source). a.0)
        id
        cleaned.url
        (promote id token now cleaned t enabled db)
unfolding promote
promote-Settled id token now cleaned t enabled db v =
    let answer = λ (a : Candidate × Option Source). a.0 in
    atomic-Settled answer id cleaned.url
      (run_with_room id token now >>= promote_locked id token now cleaned t enabled) db v
      (room_then (Settled answer id cleaned.url) id token now
        (promote_locked id token now cleaned t enabled) db (λ e. (v, tt))
        (λ e i. (renewed-IsLimited i now db v, tt))
        (λ run same full.
          promote_locked-Settled id token now cleaned t enabled run (renewed run.id now db) same
            full (renewed-IsLimited run.id now db v)))
