-- ===== src/Submission/Store/Rows.antt =====
-- What the blocks that store a candidate leave: drafts/candidate_validation.py.
use takulife.Common.{ℕ, Bool, true, false, some, ◌≡◌, refl, subst, String, first, Text}
use takulife.Common.Exec.{
  Result, ok, err, Exec, pure, atomic, raise_if, post-atomic, continue, ◌>>=◌, ◌>>◌,
}
use takulife.Discovery.Model as Discovery
use takulife.Discovery.Model.{Run}
use takulife.Discovery.Runs.{locked_run_with_valid_lease}
use takulife.Discovery.Runs.Lease.{locked_found, first-id}
use takulife.Submission.Model.{Candidate, Db, discovery, Error, candidate_limit}
use takulife.Submission.Store.{
  on_url, leased, leased_run, renewed, is_full, renew_with_room, run_with_room,
}
use takulife.Submission.Store.Limited.{IsLimited}

-- The constraints hold, and where a candidate is answered, it is the run's candidate for the
-- address.
abbrev pub Settled : {A : Type 0} → (A → Candidate) → ℕ → Text → Result Error A × Db → Type 0
Settled answer id url x =
    IsLimited x.1
    × elim x.0 [ ok a ↦ first (on_url id url) x.1.candidates ≡ some (answer a) | err e ↦ Unit {0} ]

pub atomic-Settled :
    {A : Type 0} (answer : A → Candidate) (id : ℕ) (url : Text) (m : Exec Db Error A) (db : Db)
    → IsLimited db
    → Settled answer id url (m db)
    → Settled answer id url (atomic m db)
atomic-Settled {A} answer id url m db v h =
    post-atomic (Settled answer id url) m db (λ e s q. (v, tt))
      (λ a s q. subst (Settled answer id url) q h)

pub renewed-IsLimited : (id now : ℕ) (db : Db) → IsLimited db → IsLimited (renewed id now db)
unfolding renewed
renewed-IsLimited id now db v = record {
  room = v.room;
  once = v.once;
  sources_once = v.sources_once;
  backed = v.backed;
}

pub locked-id :
    (id : ℕ) (token : String) (now : ℕ) (db : Db) (run : Run)
    → locked_run_with_valid_lease id token now (discovery db) ≡ ok run
    → run.id ≡ id
locked-id id token now db run h =
    first-id id db.runs run (locked_found id token now (discovery db) run h)

-- The run is locked, or the block raises and nothing is changed.
pub leased_then {κ} :
    {A : Type 0} (P : Result Error A × Db → Type κ) (id : ℕ) (token : String) (now : ℕ)
    (f : Run → Exec Db Error A) (db : Db)
    → ((e : Error) → P (err e, db))
    → ((run : Run)
        → locked_run_with_valid_lease id token now (discovery db) ≡ ok run
        → run.id ≡ id
        → P (f run db))
    → P ((leased_run id token now >>= f) db)
unfolding leased_run
leased_then {A} P id token now f db fails runs =
    run_lease (locked_run_with_valid_lease id token now (discovery db)) refl
  where
    run_lease :
        (r : Result Discovery.Error Run)
        → locked_run_with_valid_lease id token now (discovery db) ≡ r
        → P (((λ (s : Db). leased s r) >>= f) db)
    run_lease (err e) h = fails _
    run_lease (ok run) h = runs run h (locked-id id token now db run h)

-- The run is locked and has room, or the block raises; only the lease is renewed.
pub room_then {κ} :
    {A : Type 0} (P : Result Error A × Db → Type κ) (id : ℕ) (token : String) (now : ℕ)
    (f : Run → Exec Db Error A) (db : Db)
    → ((e : Error) → P (err e, db))
    → ((e : Error) (i : ℕ) → P (err e, renewed i now db))
    → ((run : Run)
        → run.id ≡ id
        → is_full run.id (renewed run.id now db) ≡ false
        → P (f run (renewed run.id now db)))
    → P ((run_with_room id token now >>= f) db)
unfolding run_with_room renew_with_room
room_then {A} P id token now f db refused full runs =
    leased_then (λ (x : Result Error Run × Db). P (continue (run_with_room id token now) f x)) id
      token now (renew_with_room now) db refused
      (λ run q same. with_room (is_full run.id (renewed run.id now db)) run same refl)
  where
    with_room :
        (b : Bool) (run : Run)
        → run.id ≡ id
        → is_full run.id (renewed run.id now db) ≡ b
        → P (
            continue
              (run_with_room id token now)
              f
              ((raise_if b candidate_limit >> pure run) (renewed run.id now db)))
    with_room true run same e = full candidate_limit run.id
    with_room false run same e = runs run same e
