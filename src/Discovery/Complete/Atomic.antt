-- ===== src/Discovery/Complete/Atomic.antt =====
-- What `complete_run` leaves behind, by how it ended.
use takulife.Common.{
  ℕ, ◌≤◌, ◌≡◌, refl, String, false, true, Option, some, List, ◌∷◌, arith, Text, Bool-cases, inl,
  inr, length, first, update, first-update_self, subst, sym, map, str_eq,
}
use takulife.Common.Exec.{Result, ok, err, Result-cases}
use takulife.Discovery.Outcomes.Combined.{combine_outcomes-inactive}
use takulife.Discovery.Outcomes.Cleaned.{clean_event_outcomes-Kept}
use takulife.Common.Int.{clamp-le}
use takulife.Discovery.Model.{
  type_error, Run, RunStatus, Candidate, is_active, Db, Error, EventOutcome, lease_invalid,
}
use takulife.Discovery.Outcomes.{
  object, unhashable, has_web_scheme, sanitize_text, clean_items, clean_item, check_reason,
  Reported, classify_event_outcome, classify_candidate_outcome, clean_event_outcomes,
  max_event_outcomes,
}
use takulife.Discovery.Runs.{has_id, check_lease, locked_run_with_valid_lease, max_events_per_run}
use takulife.Discovery.Runs.Lease.{locked_found, first-id}
use takulife.Discovery.Complete.{
  Report, cleaned_attempted, cleaned_failed, final_status, finish, complete_with, created_urls,
  complete_locked, complete_run, run_candidates, run_events,
}

pub final_status-inactive :
    (p : Report) (run : Run) (db : Db) → is_active (final_status p run db).0 ≡ false
unfolding final_status
final_status-inactive p run db = elim (Bool-cases (str_eq p.runner_status "failed")) [
  | inl failed ↦ rw failed (ground arith)
  | inr succeeded ↦ rw succeeded (
      combine_outcomes-inactive
        (classify_candidate_outcome (map (λ (c : Candidate). c.status) (run_candidates run.id db)))
        (classify_event_outcome (cleaned_attempted p) (cleaned_failed p)
          (length (run_events run.id db))))
]

-- What `complete_run` has done: it raised and stored nothing, or it ended the run with the
-- reported counts within their bounds and with the outcomes `os`.
abbrev pub Completes : ℕ → Db → Result Error Run × Db → Type 0
Completes id db (err e, db') = db' ≡ db
Completes id db (ok run, db') =
    (run.events_attempted ≤ max_events_per_run)
    × (run.events_failed ≤ run.events_attempted)
    × (run.events_excluded ≤ max_events_per_run)
    × (length run.event_outcomes ≤ max_event_outcomes)
    × (is_active run.status ≡ false)
    × (first (has_id id) db'.runs ≡ some run)

finish-id :
    (p : Report) (s : RunStatus × String) (os : List EventOutcome) (now : ℕ) (r : Run)
    → (finish p s os now r).id ≡ r.id
unfolding finish
finish-id p (status, summary) os now r = refl

finish-first :
    (p : Report) (s : RunStatus × String) (os : List EventOutcome) (now id : ℕ) (run : Run)
    (db : Db)
    → first (has_id id) db.runs ≡ some run
    → first (has_id id) (update (has_id id) (finish p s os now) db.runs)
      ≡ some (finish p s os now run)
finish-first p s os now id run db found = rw (
  first-update_self (λ (r : Run). r.id) id (finish p s os now) db.runs (finish-id p s os now),
  found,
)

complete_with-Completes :
    (p : Report) (now : ℕ) (run : Run) (db : Db) (r : Result Error (List EventOutcome))
    → ((os : List EventOutcome) → r ≡ ok os → length os ≤ max_event_outcomes)
    → first (has_id run.id) db.runs ≡ some run
    → Completes run.id db (complete_with p now run db r)
unfolding complete_with finish
complete_with-Completes p now run db (err e) few found = refl
complete_with-Completes p now run db (ok os) few found = (
  clamp-le p.events_attempted max_events_per_run,
  clamp-le p.events_failed (cleaned_attempted p),
  clamp-le p.events_excluded max_events_per_run,
  few os refl,
  final_status-inactive p run db,
  finish-first p (final_status p run db) os now run.id run db found,
)

module _ (strip : Text → Option Text) (id : ℕ) (token : String) (p : Report) (now : ℕ)
    (db : Db) where
  -- Whatever the runner reports, `complete_run` raises and stores nothing, or stores an ended run
  -- whose counts and outcomes lie within the server's bounds.
  pub complete_run-Completes : Completes id db (complete_run strip id token p now db)
  unfolding complete_run
  complete_run-Completes = elim (Result-cases (locked_run_with_valid_lease id token now db)) [
    | inl (e, refused) ↦ rw (refused, complete_locked) refl
    | inr (run, leased) ↦
        let found = locked_found id token now db run leased in
        let same = first-id id db.runs run found in
        rw (leased, complete_locked)
          (subst
            (λ k. Completes k db (
              complete_with p now run db
                (clean_event_outcomes strip (created_urls run db) p.event_outcomes)))
            same
            (complete_with-Completes p now run db
              (clean_event_outcomes strip (created_urls run db) p.event_outcomes)
              (λ os e.
                (clean_event_outcomes-Kept strip (created_urls run db) p.event_outcomes os e).1)
              (subst (λ k. first (has_id k) db.runs ≡ some run) (sym same) found)))
  ]

inactive_rejects :
    (run : Run) (token : String) (now : ℕ)
    → is_active run.status ≡ false
    → check_lease token now run ≡ err lease_invalid
unfolding check_lease
inactive_rejects run token now h = ground (arith, h)

-- A run that was completed is never completed again, and no submission under its lease is
-- accepted after that: the lease is refused at any time, whatever the token.
pub complete_once :
    (strip : Text → Option Text) (id : ℕ) (token : String) (p : Report) (now : ℕ) (db db' : Db)
    (run : Run)
    → complete_run strip id token p now db ≡ (ok run, db')
    → (token' : String) (later : ℕ)
    → locked_run_with_valid_lease id token' later db' ≡ err lease_invalid
unfolding locked_run_with_valid_lease
complete_once strip id token p now db db' run e token' later =
    let done : Completes id db (ok run, db') =
      subst (Completes id db) e (complete_run-Completes strip id token p now db) in
    rw (done.5, locked_run_with_valid_lease) (inactive_rejects run token' later done.4)

-- While the lease of a run is valid, a report whose first item has a web address of at most 200
-- characters after it is cleaned, a text as reason, and a list or an object as outcome makes
-- `complete_run` raise `TypeError`, and nothing is stored: the run keeps its lease.
pub complete_run_unhashable :
    (strip : Text → Option Text) (id : ℕ) (token : String) (p : Report) (now : ℕ) (db : Db)
    (run : Run) (url : Text) (reason : String) (rest : List Reported)
    → locked_run_with_valid_lease id token now db ≡ ok run
    → p.event_outcomes ≡ some (object (some url) unhashable (some reason) ∷ rest)
    → has_web_scheme (sanitize_text url) ≡ true
    → length (sanitize_text url) ≤ 200
    → complete_run strip id token p now db ≡ (err type_error, db)
unfolding complete_run complete_locked complete_with clean_event_outcomes clean_items clean_item
    check_reason
complete_run_unhashable strip id token p now db run url reason rest leased reported web short =
    let cleaned : clean_event_outcomes strip (created_urls run db) p.event_outcomes
        ≡ err type_error =
      rw reported (ground (arith, web)) in
    ground (arith, leased, cleaned)
