-- ===== src/Discovery/Runs/Lease.antt =====
-- What a lease is good for: how long a claimed run may be worked on, and by whom.
use takulife.Common.{
  ℕ, ◌+◌, ◌≡◌, refl, ap, subst, String, Option, none, some, List, [], ◌∷◌, arith, Option-cases, inl,
  inr, first, select, In, In-select, first_of_In, first-update_self, DistinctKeys, ltb, str_eq, ◌∙◌,
  if◌then◌else◌,
}
use mathlib.Core.Option
use takulife.Common.Exec.{Result, ok, err}
use takulife.Discovery.Model.{Run, RunStatus, Db, Error, lease_invalid}
use takulife.Discovery.Runs.{
  pending_run, has_id, oldest, lease_to, save_run, claim, release_stale, grant, check_lease,
  locked_run_with_valid_lease, lease_seconds, renew_lease,
}
use takulife.Discovery.Runs.Active.{key, IsValid, oldest-In, release_stale-IsValid}

pub locked_found :
    (id : ℕ) (token : String) (now : ℕ) (db : Db) (run : Run)
    → locked_run_with_valid_lease id token now db ≡ ok run
    → first (has_id id) db.runs ≡ some run
unfolding locked_run_with_valid_lease
locked_found id token now db run e = elim (Option-cases (first (has_id id) db.runs)) [
  | inl missing ↦ absurd (ground arith)
  | inr (r, found) ↦ ground (arith, found)
]

pub first-id : (id : ℕ) (rs : List Run) (run : Run) → first (has_id id) rs ≡ some run → run.id ≡ id
unfolding first
first-id id [] run e = cc
first-id id (r ∷ rs) run e = ground (arith, first-id id rs run)

-- A lease under `given` that runs until `until`, asked for with `token` at `t`.
abbrev pub lease_answer : Run → String → ℕ → String → ℕ → Result Error Run
lease_answer run given until token t =
    if str_eq given token
    then (if ltb t until then ok run else err lease_invalid)
    else err lease_invalid

check_lease_claimed :
    (run : Run) (until : ℕ) (token : String) (t : ℕ)
    → run.status ≡ RunStatus.claimed
    → run.lease_expires_at ≡ some until
    → check_lease token t run ≡ lease_answer run run.lease_token until token t
unfolding check_lease
check_lease_claimed run until token t s e = ground (arith, s, e)

check_lease-claimed :
    (run : Run) (token : String) (now : ℕ)
    → check_lease token now run ≡ ok run
    → run.status ≡ RunStatus.claimed
unfolding check_lease
check_lease-claimed run token now e = ground arith

-- The run `r`, leased, is the row that a later lock finds.
abbrev Granted : String → ℕ → Db → Run → Type 0
Granted token now db run =
    (first (has_id run.id) db.runs ≡ some run)
    × (run.status ≡ RunStatus.claimed)
    × (run.lease_token ≡ token)
    × (run.lease_expires_at ≡ some (now + lease_seconds))

lease_to-Granted :
    (provider token : String) (now : ℕ) (r : Run) (db : Db)
    → DistinctKeys key db.runs
    → In r db.runs
    → Granted token now
        (save_run r.id (lease_to provider token now) db)
        (lease_to provider token now r)
unfolding lease_to
lease_to-Granted provider token now r db d m = (
  rw
      (
        first-update_self key r.id (lease_to provider token now) db.runs (λ s. refl),
        first_of_In key r db.runs d m,
      )
      refl,
  refl,
  refl,
  refl,
)

grant-Granted :
    (provider token : String) (now : ℕ) (o : Option Run) (db : Db) (run : Run)
    → DistinctKeys key db.runs
    → ((r : Run) → o ≡ some r → In r db.runs)
    → (grant provider token now o db).0 ≡ some run
    → Granted token now (grant provider token now o db).1 run
unfolding grant
grant-Granted provider token now none db run d found e = absurd (ground arith)
grant-Granted provider token now (some r) db run d found e =
    subst (Granted token now (save_run r.id (lease_to provider token now) db)) (ground arith)
      (lease_to-Granted provider token now r db d (found r refl))

-- A claimed run may be worked on with the token of the claim, for 1800 seconds and no longer;
-- any other token, an earlier lease's among them, is refused from the claim on.
pub claim_leases :
    (provider token : String) (now : ℕ) (db : Db) (run : Run)
    → IsValid db
    → (claim provider token now db).0 ≡ some run
    → (asked : String) (t : ℕ)
    → locked_run_with_valid_lease run.id asked t (claim provider token now db).1 ≡ (
        if str_eq token asked
        then (if ltb t (now + lease_seconds) then ok run else err lease_invalid)
        else err lease_invalid)
unfolding claim locked_run_with_valid_lease
claim_leases provider token now db run v e asked t =
    let db₁ = release_stale now db in
    let (found, claimed, given, until) =
      grant-Granted provider token now (oldest (select pending_run db₁.runs)) db₁ run
        (release_stale-IsValid now db v).distinct
        (λ r o. (In-select pending_run r db₁.runs (oldest-In (select pending_run db₁.runs) r o)).0)
        e in
    rw (found, locked_run_with_valid_lease)
      (check_lease_claimed run (now + lease_seconds) asked t claimed until
        ∙ ap (λ g. lease_answer run g (now + lease_seconds) asked t) given)

-- Renewing a lease at `now` extends it to 1800 seconds from then, and changes no other run.
renew_extends :
    (id now : ℕ) (token : String) (db : Db) (run : Run)
    → locked_run_with_valid_lease id token now db ≡ ok run
    → (asked : String) (t : ℕ)
    → locked_run_with_valid_lease id asked t (renew_lease id now db)
      ≡ lease_answer
          (record run { lease_expires_at = some (now + lease_seconds) })
          run.lease_token
          (now + lease_seconds)
          asked
          t
unfolding renew_lease locked_run_with_valid_lease
renew_extends id now token db run e asked t =
    let found = locked_found id token now db run e in
    let f = λ (r : Run). record r { lease_expires_at = some (now + lease_seconds) } in
    let after : first (has_id id) (renew_lease id now db).runs ≡ some (f run) =
      first-update_self key id f db.runs (λ s. refl) ∙ ap (Option.map f) found in
    rw (after, locked_run_with_valid_lease)
      (check_lease_claimed (f run) (now + lease_seconds) asked t
        (check_lease-claimed run token now (ground (arith, found))) refl)
