-- ===== src/Discovery/Runs/Active.antt =====
-- The invariant of the table of runs, and that every operation keeps it.
use takulife.Common.{
  ℕ, ◌+◌, ◌≤◌, ◌<◌, ◌≡◌, refl, ap, String, Bool, true, false, Option, none, some, List, [], ◌∷◌,
  ◌++◌, arith, Bool-cases, inl, inr, All, All-update, All-append, exists, count, select, update,
  count-append, count_of_not_exists, In, here, there, In-select, DistinctKeys, count-update_one-le,
  count-update_each-le, ==_iff, All-and, only_row, subst, ◌⊎◌, leb, DistinctKeys-update,
  DistinctKeys-append,
}
use takulife.Discovery.Model.{Run, Db}
use takulife.Discovery.Runner.{runner_is_online}
use takulife.Discovery.Runs.{
  pending_run, is_stale, release, oldest, earlier, lease_to, create_run, claim, release_stale,
  grant, renew_lease, max_leases, lease_seconds, new_run, has_id, active_run,
}

abbrev pub key : Run → ℕ
key r = r.id

-- A run that waits has a lease left, and no run had more than `max_leases`.
abbrev pub LeasesCounted : Run → Type 0
LeasesCounted r = (r.lease_count ≤ max_leases) × (pending_run r ≡ true → r.lease_count < max_leases)

-- One active run at most, distinct keys below the next one, and leases within their number.
pub record IsValid (db : Db) : Type 0 where
  pub one_active : count active_run db.runs ≤ 1
  pub distinct : DistinctKeys key db.runs
  pub fresh : All (λ r. key r < db.next_run) db.runs
  pub leases : All LeasesCounted db.runs

-- What a rewrite of some rows has to satisfy to keep the invariant.
pub record KeepsRow (q : Run → Bool) (f : Run → Run) : Type 0 where
  pub same : (r : Run) → (f r).id ≡ r.id
  pub counted : (r : Run) → LeasesCounted r → q r ≡ true → LeasesCounted (f r)

pub update-IsValid :
    (q : Run → Bool) (f : Run → Run) (db : Db)
    → KeepsRow q f
    → count active_run (update q f db.runs) ≤ count active_run db.runs
    → IsValid db
    → IsValid (record db { runs = update q f db.runs })
update-IsValid q f db k fewer v = record {
  one_active = omega (arith, v.one_active, fewer);
  distinct = DistinctKeys-update key q f k.same db.runs v.distinct;
  fresh =
      All-update (λ r. key r < db.next_run) (λ r. key r < db.next_run) q f db.runs
        (λ r h e. omega (arith, k.same r)) (λ r h e. h) v.fresh;
  leases = All-update LeasesCounted LeasesCounted q f db.runs k.counted (λ r h e. h) v.leases;
}

release-KeepsRow : (now : ℕ) → KeepsRow (is_stale now) (release now)
unfolding release
release-KeepsRow now = record { same = λ r. ground arith; counted = λ r h e. ground arith }

pub release_stale-IsValid : (now : ℕ) (db : Db) → IsValid db → IsValid (release_stale now db)
unfolding release_stale
release_stale-IsValid now db v =
    update-IsValid (is_stale now) (release now) db (release-KeepsRow now)
      (count-update_each-le key active_run (is_stale now) (release now) db.runs
        (λ r stale e. ground arith))
      v

-- The earlier of two rows is one of them.
earlier-cases : (s : Run) (o : Option Run) (r : Run) → earlier s o ≡ some r → (s ≡ r) ⊎ (o ≡ some r)
earlier-cases s none r e = inl (ground arith)
earlier-cases s (some t) r e = elim (Bool-cases (leb s.created_at t.created_at)) [
  | inl first_is_earlier ↦ inl (ground arith)
  | inr other_is_earlier ↦ inr (ground arith)
]

pub oldest-In : (rs : List Run) (r : Run) → oldest rs ≡ some r → In r rs
unfolding oldest
oldest-In [] r e = cc
oldest-In (s ∷ rs) r e = elim (earlier-cases s (oldest rs) r e) [
  | inl same ↦ subst (λ x. In x (s ∷ rs)) same here
  | inr later ↦ there (oldest-In rs r later)
]

-- The lease counts after the waiting run `r` got one more lease.
lease_to-LeasesCounted :
    (provider token : String) (now : ℕ) (r s : Run)
    → pending_run r ≡ true
    → LeasesCounted s × (key s ≡ key r → s ≡ r)
    → has_id r.id s ≡ true
    → LeasesCounted (lease_to provider token now s)
unfolding lease_to
lease_to-LeasesCounted provider token now r s p h e =
    let same : s ≡ r = h.1 ((==_iff _ _).0 e) in ground (arith, ap pending_run same)

lease_to-id :
    (provider token : String) (now : ℕ) (s : Run) → (lease_to provider token now s).id ≡ s.id
unfolding lease_to
lease_to-id provider token now s = refl

pub grant-IsValid :
    (provider token : String) (now : ℕ) (o : Option Run) (db : Db)
    → ((r : Run) → o ≡ some r → In r db.runs × (pending_run r ≡ true))
    → IsValid db
    → IsValid (grant provider token now o db).1
unfolding grant
grant-IsValid provider token now none db found v = v
grant-IsValid provider token now (some r) db found v =
    let (m, waits) = found r refl in
    let f = lease_to provider token now in
    let same : (s : Run) → (f s).id ≡ s.id = λ s. lease_to-id provider token now s in
    record {
      one_active = omega (
        arith,
        v.one_active,
        count-update_one-le key active_run f r db.runs v.distinct m (ground arith),
      );
      distinct = DistinctKeys-update key (has_id r.id) f same db.runs v.distinct;
      fresh =
          All-update (λ s. key s < db.next_run) (λ s. key s < db.next_run) (has_id r.id) f db.runs
            (λ s h e. omega (arith, same s)) (λ s h e. h) v.fresh;
      leases =
          All-update (λ s. LeasesCounted s × (key s ≡ key r → s ≡ r)) LeasesCounted (has_id r.id) f
            db.runs (λ s h e. lease_to-LeasesCounted provider token now r s waits h e)
            (λ s h e. h.0)
            (All-and LeasesCounted (λ s. key s ≡ key r → s ≡ r) db.runs v.leases
              (only_row key r db.runs v.distinct m));
    }

-- `claim` keeps the invariant.
pub claim-IsValid :
    (provider token : String) (now : ℕ) (db : Db)
    → IsValid db
    → IsValid (claim provider token now db).1
unfolding claim
claim-IsValid provider token now db v =
    let db' = release_stale now db in
    grant-IsValid provider token now (oldest (select pending_run db'.runs)) db'
      (λ r e. In-select pending_run r db'.runs (oldest-In (select pending_run db'.runs) r e))
      (release_stale-IsValid now db v)

create_fresh : (n : ℕ) (rs : List Run) → All (λ r. key r < n) rs → All (λ r. key r < n + 1) rs
create_fresh n [] h = tt
create_fresh n (r ∷ rs) h = (omega (arith, h.0), create_fresh n rs h.1)

-- The state after `create_run` stored a run, where no run was active.
created-IsValid :
    (requested_by : Option ℕ) (query : String) (now : ℕ) (db : Db)
    → exists active_run db.runs ≡ false
    → IsValid db
    → IsValid (record db {
      runs = db.runs ++ new_run db.next_run requested_by query now ∷ [];
      next_run = db.next_run + 1;
    })
unfolding count
created-IsValid requested_by query now db idle v =
    let run = new_run db.next_run requested_by query now in
    record {
      one_active = omega (
        arith,
        count-append active_run db.runs (run ∷ []),
        count_of_not_exists active_run db.runs idle,
      );
      distinct = DistinctKeys-append key run db.runs v.fresh v.distinct;
      fresh =
          All-append (λ r. key r < db.next_run + 1) db.runs (run ∷ [])
            (create_fresh db.next_run db.runs v.fresh) (omega arith, tt);
      leases = All-append LeasesCounted db.runs (run ∷ []) v.leases (ground arith, tt);
    }

-- `create_run` keeps the invariant, whether it stores a run or raises.
pub create_run-IsValid :
    (requested_by : Option ℕ) (query : String) (now : ℕ) (db : Db)
    → IsValid db
    → IsValid (create_run requested_by query now db).1
unfolding create_run
create_run-IsValid requested_by query now db v =
    elim (Bool-cases (runner_is_online db.runner now)) [
      | inr offline ↦ rw offline v
      | inl online ↦ rw online (elim (Bool-cases (exists active_run db.runs)) [
        | inl busy ↦ rw busy v
        | inr idle ↦ rw idle (created-IsValid requested_by query now db idle v)
      ])
    ]

-- `renew_lease` keeps the invariant.
pub renew_lease-IsValid : (id now : ℕ) (db : Db) → IsValid db → IsValid (renew_lease id now db)
unfolding renew_lease
renew_lease-IsValid id now db v =
    let f = λ (r : Run). record r { lease_expires_at = some (now + lease_seconds) } in
    update-IsValid (has_id id) f db (record { same = λ r. refl; counted = λ r h e. h })
      (count-update_each-le key active_run (has_id id) f db.runs (λ r q e. e)) v
