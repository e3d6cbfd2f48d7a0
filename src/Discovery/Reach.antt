-- ===== src/Discovery/Reach.antt =====
-- Every state that the discovery reaches, by any interleaving of staff requests and runner calls.
use takulife.Common.{
  ℕ, ◌≡◌, refl, String, false, Option, List, ◌∷◌, arith, Text, count-update_each-le,
}
use takulife.Common.Exec.{Result, ok, err}
use takulife.Discovery.Model.{
  Run, RunStatus, is_active, Candidate, RunEvent, EventOutcome, Db, Error,
}
use takulife.Discovery.Outcomes.{clean_event_outcomes}
use takulife.Discovery.Runner.{record_heartbeat, record_offline}
use takulife.Discovery.Runs.{
  has_id, active_run, create_run, claim, locked_run_with_valid_lease, renew_lease,
}
use takulife.Discovery.Runs.Active.{
  IsValid, KeepsRow, update-IsValid, create_run-IsValid, claim-IsValid, renew_lease-IsValid,
}
use takulife.Discovery.Complete.{
  Report, finish, final_status, complete_with, complete_locked, complete_run, created_urls,
}
use takulife.Discovery.Complete.Atomic.{final_status-inactive}

finish-KeepsRow :
    (p : Report) (s : RunStatus × String) (os : List EventOutcome) (now id : ℕ)
    → is_active s.0 ≡ false
    → KeepsRow (has_id id) (finish p s os now)
unfolding finish
finish-KeepsRow p (status, summary) os now id h = record {
  same = λ r. refl;
  counted = λ r l e. (l.0, λ waits. absurd (ground arith));
}

finish-inactive :
    (p : Report) (s : RunStatus × String) (os : List EventOutcome) (now : ℕ) (r : Run)
    → is_active s.0 ≡ false
    → active_run (finish p s os now r) ≡ false
unfolding finish
finish-inactive p (status, summary) os now r h = h

complete_with-IsValid :
    (p : Report) (now : ℕ) (run : Run) (db : Db) (r : Result Error (List EventOutcome))
    → IsValid db
    → IsValid (complete_with p now run db r).1
unfolding complete_with
complete_with-IsValid p now run db (err e) v = v
complete_with-IsValid p now run db (ok os) v =
    let s = final_status p run db in
    let over = final_status-inactive p run db in
    update-IsValid (has_id run.id) (finish p s os now) db (finish-KeepsRow p s os now run.id over)
      (count-update_each-le (λ (r : Run). r.id) active_run (has_id run.id) (finish p s os now)
        db.runs (λ r q e. absurd (cc (finish-inactive p s os now r over))))
      v

module _ (strip : Text → Option Text) where
  complete_locked-IsValid :
      (p : Report) (now : ℕ) (db : Db) (r : Result Error Run)
      → IsValid db
      → IsValid (complete_locked strip p now db r).1
  unfolding complete_locked
  complete_locked-IsValid p now db (err e) v = v
  complete_locked-IsValid p now db (ok run) v =
      complete_with-IsValid p now run db
        (clean_event_outcomes strip (created_urls run db) p.event_outcomes) v

  -- One call of the service, or a submission that stores a candidate or a draft of a run.
  pub data Step : Db → Db → Type 0 where
    heartbeat :
        (provider : String) (phase : Option String) (detail : Option Text) (run : Option ℕ)
        (now : ℕ) (db : Db)
        → Step db (record_heartbeat provider phase detail run now db)
    offline : (now : ℕ) (db : Db) → Step db (record_offline now db)
    create :
        (requested_by : Option ℕ) (query : String) (now : ℕ) (db : Db)
        → Step db (create_run requested_by query now db).1
    lease : (provider token : String) (now : ℕ) (db : Db) → Step db (claim provider token now db).1
    renew :
        (id : ℕ) (token : String) (now : ℕ) (db : Db) (run : Run)
        → locked_run_with_valid_lease id token now db ≡ ok run
        → Step db (renew_lease id now db)
    complete :
        (id : ℕ) (token : String) (p : Report) (now : ℕ) (db : Db)
        → Step db (complete_run strip id token p now db).1
    candidate : (c : Candidate) (db : Db) → Step db (record db { candidates = c ∷ db.candidates })
    draft : (e : RunEvent) (db : Db) → Step db (record db { events = e ∷ db.events })

  pub data Reach (s : Db) : Db → Type 0 where
    start : Reach s s
    next : {t u : Db} → Reach s t → Step t u → Reach s u

  Step-IsValid : {t u : Db} → Step t u → IsValid t → IsValid u
  unfolding record_heartbeat record_offline complete_run
  Step-IsValid (heartbeat provider phase detail run now db) v = record {
    one_active = v.one_active;
    distinct = v.distinct;
    fresh = v.fresh;
    leases = v.leases;
  }
  Step-IsValid (offline now db) v = record {
    one_active = v.one_active;
    distinct = v.distinct;
    fresh = v.fresh;
    leases = v.leases;
  }
  Step-IsValid (create requested_by query now db) v = create_run-IsValid requested_by query now db v
  Step-IsValid (lease provider token now db) v = claim-IsValid provider token now db v
  Step-IsValid (renew id token now db run leased) v = renew_lease-IsValid id now db v
  Step-IsValid (complete id token p now db) v =
      complete_locked-IsValid p now db (locked_run_with_valid_lease id token now db) v
  Step-IsValid (candidate c db) v = record {
    one_active = v.one_active;
    distinct = v.distinct;
    fresh = v.fresh;
    leases = v.leases;
  }
  Step-IsValid (draft e db) v = record {
    one_active = v.one_active;
    distinct = v.distinct;
    fresh = v.fresh;
    leases = v.leases;
  }

  -- Whatever the staff and the runners do, in whatever order, from a valid table of runs: at most
  -- one run waits or is leased, no run is leased more than twice, a waiting run has a lease left,
  -- and keys are never reused.
  pub Reach-IsValid : {s t : Db} → IsValid s → Reach s t → IsValid t
  Reach-IsValid v start = v
  Reach-IsValid v (next r st) = Step-IsValid st (Reach-IsValid v r)
