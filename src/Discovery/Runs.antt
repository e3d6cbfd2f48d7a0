-- ===== src/Discovery/Runs.antt =====
-- The life of a run: `create_run`, `claim`, `locked_run_with_valid_lease`, `renew_lease` and
-- `complete_run` of drafts/discovery_runs.py. Each operation reads the clock once, as `now`; the
-- lease token is the one that `uuid.uuid4()` made.
pub mod Active
pub mod Lease
pub mod Requests
use takulife.Common.{
  ℕ, suc, ◌+◌, String, Bool, true, false, not, ◌&&◌, ◌||◌, Option, none, some, List, [], ◌∷◌, ◌++◌,
  map, Text, min, ltb, leb, ◌==◌, str_eq, one_of, first, exists, count, select, update, or_else,
  if◌then◌else◌,
}
use takulife.Common.Exec.{
  Result, ok, err, Exec, pure, raise, gets, atomic, modify, raise_if, ◌>>=◌, ◌>>◌,
}
use takulife.Discovery.Model.{
  Run, RunStatus, is_pending, is_claimed, is_active, Candidate, RunEvent, EventOutcome, Db, Error,
  runner_offline, run_active, lease_invalid, does_not_exist,
}
use takulife.Discovery.Outcomes.{
  Reported, is_promoted, classify_candidate_outcome, classify_event_outcome, combine_outcomes,
  clean_event_outcomes,
}
use takulife.Discovery.Runner.{runner_is_online}

abbrev pub lease_seconds : ℕ
lease_seconds = 1800

abbrev pub max_leases : ℕ
max_leases = 2

-- `drafts.agent_drafts.MAX_EVENTS_PER_RUN`
abbrev pub max_events_per_run : ℕ
max_events_per_run = 20

-- The row that `objects.create` stores: the model's defaults.
abbrev pub new_run : ℕ → Option ℕ → String → ℕ → Run
new_run id requested_by query now = record {
  id = id;
  requested_by = requested_by;
  status = RunStatus.pending;
  provider = "";
  query = query;
  lease_token = "";
  lease_expires_at = none;
  lease_count = 0;
  events_attempted = 0;
  events_failed = 0;
  events_excluded = 0;
  event_outcomes = [];
  error_summary = "";
  created_at = now;
  started_at = none;
  finished_at = none;
}

abbrev pub active_run : Run → Bool
active_run r = is_active r.status

unfoldable pub create_run : Option ℕ → String → ℕ → Exec Db Error Run
unfolding runner_is_online exists
create_run requested_by query now db =
    if not (runner_is_online db.runner now)
    then (err runner_offline, db)
    else if exists active_run db.runs
    then (err run_active, db)
    else let run = new_run db.next_run requested_by query now in
      (ok run, record db { runs = db.runs ++ run ∷ []; next_run = db.next_run + 1 })

-- `lease_expires_at__lt=now`: no row without a date
abbrev pub expired_before : ℕ → Option ℕ → Bool
expired_before now none = false
expired_before now (some t) = ltb t now

-- `status=CLAIMED, lease_expires_at__lt=now`
abbrev pub is_stale : ℕ → Run → Bool
is_stale now r = is_claimed r.status && expired_before now r.lease_expires_at

-- The body of the loop over the stale runs.
unfoldable pub release : ℕ → Run → Run
release now r =
    if leb max_leases r.lease_count
    then record r { status = RunStatus.expired; finished_at = some now; lease_token = "" }
    else record r { status = RunStatus.pending; lease_token = "" }

abbrev earlier : Run → Option Run → Option Run
earlier r none = some r
earlier r (some s) = some (if leb r.created_at s.created_at then r else s)

-- `order_by("created_at").first()`
unfoldable pub oldest : List Run → Option Run
oldest [] = none
oldest (r ∷ rs) = earlier r (oldest rs)

abbrev pub pending_run : Run → Bool
pending_run r = is_pending r.status

abbrev pub has_id : ℕ → Run → Bool
has_id id r = r.id == id

-- What `claim` stores in the run that it hands out.
unfoldable pub lease_to : String → String → ℕ → Run → Run
lease_to provider token now r = record r {
  status = RunStatus.claimed;
  provider = provider;
  lease_token = token;
  lease_expires_at = some (now + lease_seconds);
  lease_count = r.lease_count + 1;
  started_at = some (or_else r.started_at now);
}

-- `run.save(update_fields=...)` after the assignments `f`
abbrev pub save_run : ℕ → (Run → Run) → Db → Db
save_run id f db = record db { runs = update (has_id id) f db.runs }

unfoldable pub release_stale : ℕ → Db → Db
unfolding release update
release_stale now db = record db { runs = update (is_stale now) (release now) db.runs }

unfoldable pub grant : String → String → ℕ → Option Run → Db → Option Run × Db
unfolding lease_to update
grant provider token now none db = (none, db)
grant provider token now (some r) db =
    (some (lease_to provider token now r), save_run r.id (lease_to provider token now) db)

unfoldable pub claim : String → String → ℕ → Db → Option Run × Db
unfolding release_stale grant oldest select
claim provider token now db =
    let db' = release_stale now db in
    grant provider token now (oldest (select pending_run db'.runs)) db'

-- `run.lease_expires_at is None or run.lease_expires_at <= now`
abbrev pub lease_over : ℕ → Option ℕ → Bool
lease_over now none = true
lease_over now (some t) = leb t now

unfoldable pub check_lease : String → ℕ → Run → Result Error Run
check_lease token now run =
    if not (is_claimed run.status)
    then err lease_invalid
    else if not (str_eq run.lease_token token)
    then err lease_invalid
    else if lease_over now run.lease_expires_at
    then err lease_invalid
    else ok run

unfoldable pub locked_run_with_valid_lease : ℕ → String → ℕ → Db → Result Error Run
unfolding check_lease first
locked_run_with_valid_lease id token now db = elim (first (has_id id) db.runs) [
  | none ↦ err does_not_exist
  | some run ↦ check_lease token now run
]

unfoldable pub renew_lease : ℕ → ℕ → Db → Db
unfolding update
renew_lease id now = save_run id (λ r. record r { lease_expires_at = some (now + lease_seconds) })
