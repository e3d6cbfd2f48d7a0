-- ===== src/Discovery/Runner.antt =====
-- The runner's heartbeat row: `runner_is_online`, `clean_heartbeat_detail`, `record_offline`,
-- `normalize_heartbeat_phase` and `record_heartbeat` of drafts/discovery_runs.py.
pub mod Online
use takulife.Common.{
  ℕ, ◌-◌, String, Bool, true, false, ◌&&◌, Option, none, some, [], Text, ltb, leb, ◌==◌, str_eq,
  take, exists, or_else, if◌then◌else◌,
}
use takulife.Discovery.Model.{RunnerStatus, Phase, Db}
use takulife.Discovery.Outcomes.{sanitize_text}

abbrev pub heartbeat_fresh_seconds : ℕ
heartbeat_fresh_seconds = 120

-- Not taken back by a heartbeat: `offline_at` is set and not before the last heartbeat.
abbrev recovered : RunnerStatus → Bool
recovered row = elim row.offline_at [ none ↦ true | some t ↦ ltb t row.last_heartbeat_at ]

unfoldable pub runner_is_online : Option RunnerStatus → ℕ → Bool
runner_is_online none now = false
runner_is_online (some row) now =
    leb (now - heartbeat_fresh_seconds) row.last_heartbeat_at && recovered row

unfoldable pub clean_heartbeat_detail : Text → Text
unfolding sanitize_text
clean_heartbeat_detail detail = take 200 (sanitize_text detail)

abbrev set_offline : ℕ → Option RunnerStatus → Option RunnerStatus
set_offline now none = none
set_offline now (some row) = some (record row { offline_at = some now })

unfoldable pub record_offline : ℕ → Db → Db
record_offline now db = record db { runner = set_offline now db.runner }

-- `phase in Phase.values`, as the value that it names
unfoldable pub normalize_heartbeat_phase : Option String → Option Phase
normalize_heartbeat_phase none = none
normalize_heartbeat_phase (some phase) =
    if str_eq phase "idle"
    then some Phase.idle
    else if str_eq phase "exploring"
    then some Phase.exploring
    else if str_eq phase "reading"
    then some Phase.reading
    else if str_eq phase "submitting"
    then some Phase.submitting
    else if str_eq phase "completing"
    then some Phase.completing
    else none

-- The row that `update_or_create` makes where there is none: the model's defaults.
abbrev pub new_row : ℕ → String → RunnerStatus
new_row now provider = record {
  last_heartbeat_at = now;
  provider = provider;
  phase = Phase.idle;
  phase_detail = [];
  phase_updated_at = none;
  current_run = none;
  offline_at = none;
}

abbrev set_phase : ℕ → Option Phase → RunnerStatus → RunnerStatus
set_phase now none row = row
set_phase now (some phase) row = record row { phase = phase; phase_updated_at = some now }

abbrev set_detail : Option Text → RunnerStatus → RunnerStatus
set_detail none row = row
set_detail (some detail) row = record row { phase_detail = clean_heartbeat_detail detail }

-- A run that does not exist is ignored.
abbrev set_run : Option ℕ → Db → RunnerStatus → RunnerStatus
set_run none db row = row
set_run (some run) db row =
    if exists (λ r. r.id == run) db.runs then record row { current_run = some run } else row

unfoldable pub record_heartbeat : String → Option String → Option Text → Option ℕ → ℕ → Db → Db
unfolding clean_heartbeat_detail normalize_heartbeat_phase exists
record_heartbeat provider phase detail run_id now db =
    let row = record (or_else db.runner (new_row now provider)) {
      last_heartbeat_at = now;
      provider = provider;
    } in
    record db {
      runner = some (
          set_run run_id db
            (set_detail detail (set_phase now (normalize_heartbeat_phase phase) row)));
    }
