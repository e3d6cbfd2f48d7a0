-- ===== src/Discovery/Runs/Requests.antt =====
-- Staff requests against the runner's claims.
use takulife.Common.{
  ℕ, ◌+◌, ◌≡◌, refl, subst, String, true, false, Option, some, List, [], ◌∷◌, ◌++◌, arith, exists,
  select, update,
}
use takulife.Common.Exec.{ok}
use takulife.Discovery.Model.{Run, Db}
use takulife.Discovery.Runs.{
  active_run, pending_run, is_stale, release, oldest, lease_to, create_run, claim, release_stale,
  grant, new_run,
}

-- Where no run is active, a new one is the only run that waits, and no lease is stale.
stale_of_idle :
    (now : ℕ) (rs : List Run) (run : Run)
    → exists active_run rs ≡ false
    → pending_run run ≡ true
    → update (is_stale now) (release now) (rs ++ run ∷ []) ≡ rs ++ run ∷ []
unfolding exists update
stale_of_idle now [] run idle waits = ground arith
stale_of_idle now (r ∷ rs) run idle waits = ground (arith, stale_of_idle now rs run)

waiting_of_idle :
    (rs : List Run) (run : Run)
    → exists active_run rs ≡ false
    → pending_run run ≡ true
    → select pending_run (rs ++ run ∷ []) ≡ run ∷ []
unfolding exists select
waiting_of_idle [] run idle waits = ground arith
waiting_of_idle (r ∷ rs) run idle waits = ground (arith, waiting_of_idle rs run)

abbrev stored : Option ℕ → String → ℕ → Db → Db
stored requested_by query now db = record db {
  runs = db.runs ++ new_run db.next_run requested_by query now ∷ [];
  next_run = db.next_run + 1;
}

create_run-stored :
    (requested_by : Option ℕ) (query : String) (now : ℕ) (db db' : Db) (run : Run)
    → create_run requested_by query now db ≡ (ok run, db')
    → (exists active_run db.runs ≡ false)
      × (new_run db.next_run requested_by query now ≡ run)
      × (stored requested_by query now db ≡ db')
unfolding create_run
create_run-stored requested_by query now db db' run e = ground arith

-- The runner's next claim hands out the run that a staff request stored, with its query.
pub claim-create_run :
    (requested_by : Option ℕ) (query : String) (now : ℕ) (db db' : Db) (run : Run)
    → create_run requested_by query now db ≡ (ok run, db')
    → (provider token : String) (t : ℕ)
    → (claim provider token t db').0 ≡ some (lease_to provider token t run)
unfolding claim release_stale grant oldest
claim-create_run requested_by query now db db' run e provider token t =
    let (idle, made, kept) = create_run-stored requested_by query now db db' run e in
    let r = new_run db.next_run requested_by query now in
    subst (λ d. (claim provider token t d).0 ≡ some (lease_to provider token t run)) kept
      (subst
        (λ s.
          (claim provider token t (stored requested_by query now db)).0
          ≡ some (lease_to provider token t s))
        made (rw (stale_of_idle t db.runs r idle refl, waiting_of_idle db.runs r idle refl)))
