-- ===== src/Archive/Visits/Raced.antt =====
-- `_ensure_visited_status` against other requests: what it leaves, whoever wins.
use takulife.Common.{
  ℕ, ◌≡◌, refl, sym, ◌∙◌, subst, true, false, Option, none, some, Bool, not, ◌&&◌, is_some, List,
  [], ◌∷◌, select, first, arith, exists, first_of_exists,
}
use takulife.Common.Exec.{Result, err, Exec}
use takulife.Archive.Model.{Db, Error, duplicate_status, StatusRow}
use takulife.Archive.Store.{exactly_one}
use takulife.Archive.Status.{commit_rival}
use takulife.Archive.Visits.{
  Race, withdraw, take_over, Visit, status_of, insert_visited, retry_visited, except_duplicate,
  ensure_visited_status,
}
use takulife.Archive.Visits.Visited.{Ensured, take_over-Ensured}
use takulife.Archive.Visits.Inserted.{on_subject}
use takulife.Archive.Visits.Adding.{
  insert_visited-add, adding-Ensured, adding-taken, except-Ensured,
}

-- The rows of the target that were withdrawn are not found again.
pub withdrawn_none :
    (q : Visit) (rows : List StatusRow)
    → first (on_subject q) (select (λ (r : StatusRow). not (on_subject q r)) rows) ≡ none
unfolding first select
withdrawn_none q [] = refl
withdrawn_none q (r ∷ rows) = ground (arith, withdrawn_none q rows)

abbrev pub is_taken : Visit → Db → Bool
is_taken q db = exists (on_subject q) db.statuses

-- What the other requests leave where they win both insertions.
abbrev pub left_by : Race → Visit → Db → Db
left_by race q db = commit_rival race.second_row (withdraw true q (commit_rival race.first_row db))

-- The user had no row for the target; another request stored one before the insertion, and withdrew
-- it before the rows were read again; and one was stored before the second insertion.
abbrev pub loses_twice : Race → Visit → Db → Bool
loses_twice race q db =
    not (is_some (status_of q db))
    && (is_taken q (commit_rival race.first_row db)
        && (race.is_withdrawn && is_taken q (left_by race q db)))

-- The target ends as visited, or the second loss is raised.
abbrev pub Outcome : {A : Type 0} → Visit → Bool → Db → Result Error A × Db → Type 0
Outcome q lost left x =
    (lost ≡ false → Ensured q x) × (lost ≡ true → x ≡ (err duplicate_status, left))

retry-Outcome :
    (race : Race) (q : Visit) (now : ℕ) (base : Db)
    → exactly_one q.event q.personal_entry ≡ true
    → is_taken q base ≡ true
    → Outcome q
        (race.is_withdrawn && is_taken q (commit_rival race.second_row (withdraw true q base)))
        (commit_rival race.second_row (withdraw true q base))
        (retry_visited race.second_row q now (withdraw race.is_withdrawn q base))
unfolding retry_visited withdraw
retry-Outcome race q now base one taken = by_case race.is_withdrawn
  where
    gone : Db
    gone = withdraw true q base

    absent : status_of q gone ≡ none
    absent = withdrawn_none q base.statuses

    inserted :
        (b : Bool)
        → is_taken q (commit_rival race.second_row gone) ≡ b
        → Outcome q b
            (commit_rival race.second_row gone)
            (insert_visited race.second_row q now gone)
    inserted true e = (
      λ h. cc,
      λ h.
          insert_visited-add race.second_row q now gone absent
          ∙ adding-taken race.second_row q now gone one e,
    )
    inserted false e = (
      λ h.
          subst (Ensured q) (sym (insert_visited-add race.second_row q now gone absent))
            (adding-Ensured race.second_row q now gone one e),
      λ h. cc,
    )

    by_case :
        (w : Bool)
        → Outcome q
            (w && is_taken q (commit_rival race.second_row gone))
            (commit_rival race.second_row gone)
            (retry_visited race.second_row q now (withdraw w q base))
    by_case true =
        subst
          (λ o.
            Outcome q (is_taken q (commit_rival race.second_row gone))
              (commit_rival race.second_row gone)
              (elim o as (λ x. Result Error (Unit {0}) × Db) [
                | some row ↦ take_over row now gone
                | none ↦ insert_visited race.second_row q now gone
              ]))
          (sym absent) (inserted (is_taken q (commit_rival race.second_row gone)) refl)
    by_case false =
        let (row, found) = first_of_exists (on_subject q) base.statuses taken in
        (λ h. rw (retry_visited, found) (take_over-Ensured q row now base found), λ h. cc)

pub ensure-Outcome :
    (race : Race) (q : Visit) (now : ℕ) (db : Db)
    → exactly_one q.event q.personal_entry ≡ true
    → Outcome q (loses_twice race q db) (left_by race q db) (ensure_visited_status race q now db)
unfolding ensure_visited_status
ensure-Outcome race q now db one = by_row (status_of q db) refl
  where
    base : Db
    base = commit_rival race.first_row db

    again : Exec Db Error (Unit {0})
    again s = retry_visited race.second_row q now (withdraw race.is_withdrawn q s)

    lost : Option StatusRow → Bool → Bool
    lost o taken =
        not (is_some o) && (taken && (race.is_withdrawn && is_taken q (left_by race q db)))

    inserted :
        (b : Bool)
        → is_taken q base ≡ b
        → status_of q db ≡ none
        → Outcome q
            (lost none b)
            (left_by race q db)
            (except_duplicate (insert_visited race.first_row q now) again db)
    inserted true t absent =
        subst
          (λ x. Outcome q (lost none true) (left_by race q db) (except_duplicate (λ s. x) again db))
          (sym (
            insert_visited-add race.first_row q now db absent
            ∙ adding-taken race.first_row q now db one t))
          (retry-Outcome race q now base one t)
    inserted false t absent = (
      λ h. except-Ensured q again (insert_visited race.first_row q now db) db (
          subst (Ensured q) (sym (insert_visited-add race.first_row q now db absent))
            (adding-Ensured race.first_row q now db one t)),
      λ h. cc,
    )

    by_row :
        (o : Option StatusRow)
        → status_of q db ≡ o
        → Outcome q
            (lost (status_of q db) (is_taken q base))
            (left_by race q db)
            (elim (status_of q db) as (λ x. Result Error (Unit {0}) × Db) [
              | some row ↦ take_over row now db
              | none ↦ except_duplicate (insert_visited race.first_row q now) again db
            ])
    by_row (some row) e =
        subst
          (λ o.
            Outcome q (lost o (is_taken q base)) (left_by race q db)
              (elim o as (λ x. Result Error (Unit {0}) × Db) [
                | some row ↦ take_over row now db
                | none ↦ except_duplicate (insert_visited race.first_row q now) again db
              ]))
          (sym e) ((λ h. take_over-Ensured q row now db e, λ h. cc))
    by_row none e =
        subst
          (λ o.
            Outcome q (lost o (is_taken q base)) (left_by race q db)
              (elim o as (λ x. Result Error (Unit {0}) × Db) [
                | some row ↦ take_over row now db
                | none ↦ except_duplicate (insert_visited race.first_row q now) again db
              ]))
          (sym e) (inserted (is_taken q base) refl e)
