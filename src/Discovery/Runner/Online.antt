-- ===== src/Discovery/Runner/Online.antt =====
-- When the dashboard and `create_run` see the runner online.
use takulife.Common.{
  ℕ, ◌+◌, ◌<◌, ◌≡◌, refl, String, Option, none, some, arith, Text, leb, Bool-cases, Option-cases,
  inl, inr, exists, ◌==◌, ap, ◌∙◌,
}
use takulife.Discovery.Model.{RunnerStatus, Phase, Db}
use takulife.Discovery.Runner.{
  runner_is_online, record_heartbeat, heartbeat_fresh_seconds, normalize_heartbeat_phase, set_phase,
  set_detail, set_run, new_row,
}

-- The runner's last report of going offline, if any, is earlier than `now`.
abbrev pub ReportedBefore : ℕ → Option RunnerStatus → Type 0
ReportedBefore now none = Unit
ReportedBefore now (some row) = (t : ℕ) → row.offline_at ≡ some t → t < now

-- What a heartbeat may write beside the time and the provider leaves the online status alone.
SameTimes : RunnerStatus → RunnerStatus → Type 0
SameTimes a b = (a.last_heartbeat_at ≡ b.last_heartbeat_at) × (a.offline_at ≡ b.offline_at)

set_phase-SameTimes :
    (now : ℕ) (phase : Option Phase) (row : RunnerStatus) → SameTimes (set_phase now phase row) row
unfolding SameTimes
set_phase-SameTimes now none row = (refl, refl)
set_phase-SameTimes now (some phase) row = (refl, refl)

set_detail-SameTimes :
    (detail : Option Text) (row : RunnerStatus) → SameTimes (set_detail detail row) row
unfolding SameTimes
set_detail-SameTimes none row = (refl, refl)
set_detail-SameTimes (some detail) row = (refl, refl)

set_run-SameTimes :
    (run : Option ℕ) (db : Db) (row : RunnerStatus) → SameTimes (set_run run db row) row
unfolding SameTimes
set_run-SameTimes none db row = (refl, refl)
set_run-SameTimes (some run) db row = elim (Bool-cases (exists (λ r. r.id == run) db.runs)) [
  | inl known ↦ rw known (refl, refl)
  | inr unknown ↦ rw unknown (refl, refl)
]

online_of_times :
    (a b : RunnerStatus) (t : ℕ)
    → SameTimes a b
    → runner_is_online (some a) t ≡ runner_is_online (some b) t
unfolding SameTimes runner_is_online
online_of_times a b t h = ground (arith, h.0, h.1)

online_of_row :
    (row : RunnerStatus) (t : ℕ)
    → ReportedBefore row.last_heartbeat_at (some row)
    → runner_is_online (some row) t ≡ leb t (row.last_heartbeat_at + heartbeat_fresh_seconds)
unfolding runner_is_online
online_of_row row t before = elim (Option-cases row.offline_at) [
  | inl never ↦ rw never (ground arith)
  | inr (o, reported) ↦ rw reported (ground (arith, before o reported))
]

-- The row before the optional parts.
abbrev beat : String → ℕ → Option RunnerStatus → RunnerStatus
beat provider now none = record (new_row now provider) {
  last_heartbeat_at = now;
  provider = provider;
}
beat provider now (some row) = record row { last_heartbeat_at = now; provider = provider }

beat-online :
    (provider : String) (now : ℕ) (o : Option RunnerStatus) (t : ℕ)
    → ReportedBefore now o
    → runner_is_online (some (beat provider now o)) t ≡ leb t (now + heartbeat_fresh_seconds)
beat-online provider now none t before =
    online_of_row (beat provider now none) t (λ u e. absurd (ground arith))
beat-online provider now (some row) t before = online_of_row (beat provider now (some row)) t before

record_heartbeat-row :
    (provider : String) (phase : Option String) (detail : Option Text) (run : Option ℕ) (now : ℕ)
    (db : Db)
    → (record_heartbeat provider phase detail run now db).runner
      ≡ some (
          set_run run db (
            set_detail detail
              (set_phase now (normalize_heartbeat_phase phase) (beat provider now db.runner))))
unfolding record_heartbeat
record_heartbeat-row provider phase detail run now db = elim (Option-cases db.runner) [
  | inl first_beat ↦ rw first_beat refl
  | inr (row, later_beat) ↦ rw later_beat refl
]

-- A heartbeat puts the runner online for 120 seconds and no longer, where the runner's last
-- offline report, if any, is earlier than the heartbeat.
online_after_heartbeat :
    (provider : String) (phase : Option String) (detail : Option Text) (run : Option ℕ) (now : ℕ)
    (db : Db)
    → ReportedBefore now db.runner
    → (t : ℕ)
    → runner_is_online (record_heartbeat provider phase detail run now db).runner t
      ≡ leb t (now + heartbeat_fresh_seconds)
online_after_heartbeat provider phase detail run now db before t =
    let row = beat provider now db.runner in
    let phased = set_phase now (normalize_heartbeat_phase phase) row in
    let detailed = set_detail detail phased in
    ap (λ o. runner_is_online o t) (record_heartbeat-row provider phase detail run now db)
    ∙ online_of_times (set_run run db detailed) detailed t (set_run-SameTimes run db detailed)
    ∙ online_of_times detailed phased t (set_detail-SameTimes detail phased)
    ∙ online_of_times phased row t (set_phase-SameTimes now (normalize_heartbeat_phase phase) row)
    ∙ beat-online provider now db.runner t before
