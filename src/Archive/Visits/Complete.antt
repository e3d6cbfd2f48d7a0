-- ===== src/Archive/Visits/Complete.antt =====
-- `complete_visit_with_record`: what a completed visit leaves, also when another request inserts
-- the status row first.
use takulife.Common.{
  ℕ, ◌≡◌, refl, sym, ap, ◌∙◌, subst, true, false, Option, none, some, Bool, not, ◌&&◌, is_some,
}
use takulife.Common.Exec.{Result, ok, err, ◌>>◌, bind_err}
use takulife.Archive.Model.{Db, Error, duplicate_status, StatusRow, VisitRecord}
use takulife.Archive.Store.{exactly_one}
use takulife.Archive.Status.{commit_rival}
use takulife.Archive.Visits.{
  Race, after_retry, withdraw, Visit, status_of, ensure_visited_status, create_visit_record,
  complete_visit_with_record, aborted,
}
use takulife.Archive.Visits.Kept.{create-Leaves}
use takulife.Archive.Visits.Visited.{Ensured, Leaves-Ensured, Ensured-bind}
use takulife.Archive.Visits.Adding.{insert_visited-add, adding-taken}
use takulife.Archive.Visits.Raced.{
  Outcome, is_taken, left_by, loses_twice, withdrawn_none, ensure-Outcome,
}

aborted-Ensured :
    (q : Visit) (left : Db) (x : Result Error VisitRecord × Db)
    → Ensured q x
    → Ensured q (elim x.0 as (λ r. Result Error VisitRecord × Db) [
      | ok row ↦ (ok row, x.1)
      | err e ↦ (err e, left)
    ])
aborted-Ensured q left (ok row, s) v = v
aborted-Ensured q left (err e, s) v = v

loss_parts :
    (o : Option StatusRow) (taken withdrawn again : Bool)
    → not (is_some o) && (taken && (withdrawn && again)) ≡ true
    → (o ≡ none) × ((taken ≡ true) × (withdrawn ≡ true))
loss_parts none true true again h = (refl, (refl, refl))
loss_parts none true false again h = cc
loss_parts none false withdrawn again h = cc
loss_parts (some row) taken withdrawn again h = cc

after_retry-withdraw :
    (rival : Option StatusRow) (q : Visit) (base : Db)
    → after_retry rival q (withdraw true q base) ≡ commit_rival rival (withdraw true q base)
unfolding withdraw
after_retry-withdraw rival q base =
    let gone = withdraw true q base in
    subst
      (λ o. elim o [ some row ↦ gone | none ↦ commit_rival rival gone ] ≡ commit_rival rival gone)
      (sym (withdrawn_none q base.statuses)) refl

-- An abort after a second loss leaves the other requests' rows only.
aborted-left_by :
    (race : Race) (q : Visit) (now : ℕ) (db : Db)
    → exactly_one q.event q.personal_entry ≡ true
    → loses_twice race q db ≡ true
    → aborted race q now db ≡ left_by race q db
unfolding aborted withdraw
aborted-left_by race q now db one h =
    let base = commit_rival race.first_row db in
    let (absent, (taken, withdrawn)) =
      loss_parts (status_of q db) (is_taken q base) race.is_withdrawn
        (is_taken q (left_by race q db)) h in
    let lost =
      insert_visited-add race.first_row q now db absent
      ∙ adding-taken race.first_row q now db one taken in
    rw (aborted, absent, lost, withdrawn) (after_retry-withdraw race.second_row q base)

-- Completing a visit of one target leaves the user's status for it as visited where it succeeds, also
-- when other requests store or withdraw a row for it meanwhile. A duplicate status is raised exactly
-- where the user had no row, another request stored one before the insertion, it was withdrawn before
-- the rows were read again, and another one was stored before the second insertion; then nothing of
-- the request is stored.
pub complete_visit-Ensured :
    (race : Race) (q : Visit) (now : ℕ) (db : Db)
    → exactly_one q.event q.personal_entry ≡ true
    → Outcome q
        (loses_twice race q db)
        (left_by race q db)
        (complete_visit_with_record race q now db)
unfolding complete_visit_with_record
complete_visit-Ensured race q now db one =
    let (kept, lost) = ensure-Outcome race q now db one in
    (
      λ h.
          aborted-Ensured q (aborted race q now db)
            ((ensure_visited_status race q now >> create_visit_record q now) db)
            (Ensured-bind q (ensure_visited_status race q now) (λ u. create_visit_record q now) db
              (kept h)
              (λ u s v.
                Leaves-Ensured q s.statuses (create_visit_record q now s) v
                  (create-Leaves q now s))),
      λ h.
          rw
            (
              complete_visit_with_record,
              bind_err (ensure_visited_status race q now) (λ u. create_visit_record q now) (lost h),
            )
            (ap (λ (s : Db). (err duplicate_status, s)) (aborted-left_by race q now db one h)),
    )
