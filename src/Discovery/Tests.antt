-- ===== src/Discovery/Tests.antt =====
-- The discovery at concrete inputs.
use takulife.Common.{
  ◌≡◌, refl, Option, none, some, List, [], ◌∷◌, arith, Text, codes, All, count, length, ◌≤◌,
}
use takulife.Common.Exec.{ok, err}
use takulife.Common.Int.{pos, negsuc, clamp}
use takulife.Discovery.Model.{
  Run, RunStatus, RunStatus, RunnerStatus, Phase, Db, EventOutcome, lease_invalid, type_error,
}
use takulife.Discovery.Outcomes.{
  name, unhashable, object, other, has_web_scheme, sanitize_text, clean_event_outcomes,
  max_event_outcomes,
}
use takulife.Discovery.Outcomes.Cleaned.{Kept, clean_event_outcomes-Kept}
use takulife.Discovery.Runner.{runner_is_online, record_heartbeat, record_offline}
use takulife.Discovery.Runs.{
  new_run, create_run, claim, lease_to, locked_run_with_valid_lease, renew_lease,
}
use takulife.Discovery.Runs.Active.{IsValid}
use takulife.Discovery.Runs.Lease.{claim_leases}
use takulife.Discovery.Runs.Requests.{claim-create_run}
use takulife.Discovery.Complete.{Report, complete_run}
use takulife.Discovery.Complete.Atomic.{
  Completes, complete_run-Completes, complete_once, complete_run_unhashable,
}
use takulife.Discovery.Reach.{Step, start, next, Reach-IsValid}

-- An address that has no tracking parameters stays as it is.
abbrev strip : Text → Option Text
strip url = some url

abbrev runner : RunnerStatus
runner = record {
  last_heartbeat_at = 1000;
  provider = "claude-code";
  phase = Phase.idle;
  phase_detail = [];
  phase_updated_at = none;
  current_run = none;
  offline_at = some 900;
}

abbrev idle : Db
idle = record { runs = []; next_run = 1; runner = some runner; candidates = []; events = [] }

abbrev waiting : Run
waiting = new_run 1 (some 7) "popup" 1010

abbrev requested : Db
requested = record idle { runs = waiting ∷ []; next_run = 2 }

abbrev leased : Run
leased = record waiting {
  status = RunStatus.claimed;
  provider = "claude-code";
  lease_token = "t1";
  lease_expires_at = some 2820;
  lease_count = 1;
  started_at = some 1020;
}

abbrev working : Db
working = record requested { runs = leased ∷ [] }

program : Unit {0}
unfolding create_run claim locked_run_with_valid_lease renew_lease complete_run runner_is_online
    record_heartbeat record_offline clean_event_outcomes clamp
program = tt

create_run_at_idle : create_run (some 7) "popup" 1010 idle ≡ (ok waiting, requested)
unfolding program
create_run_at_idle = refl

claim_at_requested : claim "claude-code" "t1" 1020 requested ≡ (some leased, working)
unfolding program
claim_at_requested = refl

-- A lease that ran out is given out once more, and then the run expires.
second_lease_expires :
    (claim "b" "t2" 2821 working).0
    ≡ some (record leased {
      provider = "b";
      lease_token = "t2";
      lease_expires_at = some 4621;
      lease_count = 2;
    })
unfolding program
second_lease_expires = refl

third_lease_refused : (claim "c" "t3" 4622 (claim "b" "t2" 2821 working).1).0 ≡ none
unfolding program
third_lease_refused = refl

idle-IsValid : IsValid idle
unfolding count
idle-IsValid = record { one_active = omega arith; distinct = tt; fresh = tt; leases = tt }

requested-IsValid : IsValid requested
unfolding count
requested-IsValid = record {
  one_active = omega arith;
  distinct = (tt, tt);
  fresh = (omega arith, tt);
  leases = ((omega arith, λ e. omega arith), tt);
}

Reach-IsValid_example :
    IsValid (claim "claude-code" "t1" 1020 (create_run (some 7) "popup" 1010 idle).1).1
Reach-IsValid_example = Reach-IsValid strip idle-IsValid (
    next (next start (Step.create (some 7) "popup" 1010 idle))
      (Step.lease "claude-code" "t1" 1020 (create_run (some 7) "popup" 1010 idle).1))

claim_leases_example :
    locked_run_with_valid_lease 1 "t0" 1030 (claim "claude-code" "t1" 1020 requested).1
    ≡ err lease_invalid
unfolding program
claim_leases_example =
    claim_leases "claude-code" "t1" 1020 requested leased requested-IsValid refl "t0" 1030

claim-create_run_example :
    (claim "claude-code" "t1" 1020 requested).0 ≡ some (lease_to "claude-code" "t1" 1020 waiting)
claim-create_run_example =
    claim-create_run (some 7) "popup" 1010 idle requested waiting create_run_at_idle "claude-code"
      "t1" 1020

-- The runner reports a failure of its agent, and one outcome too many for the list of reasons.
abbrev report : Report
report = record {
  runner_status = "succeeded";
  failure_kind = "";
  events_attempted = pos 25;
  events_failed = pos 30;
  events_excluded = negsuc 0;
  event_outcomes = some (
      object (some (codes "https://a.example/1")) (name "skipped") (some "known_url")
      ∷ object (some (codes "ftp://a.example/2")) (name "skipped") (some "known_url")
      ∷ object (some (codes "https://a.example/3")) (name "created") (some "")
      ∷ other
      ∷ []);
}

abbrev finished : Run
finished = record leased {
  status = RunStatus.failed;
  lease_token = "";
  finished_at = some 2000;
  events_attempted = 20;
  events_failed = 20;
  event_outcomes =
      record { url = codes "https://a.example/1"; outcome = "skipped"; reason = "known_url" } ∷ [];
}

complete_run_at_working :
    complete_run strip 1 "t1" report 2000 working
    ≡ (ok finished, record working { runs = finished ∷ [] })
unfolding program
complete_run_at_working = refl

complete_run-Completes_example : Completes 1 working (complete_run strip 1 "t1" report 2000 working)
complete_run-Completes_example = complete_run-Completes strip 1 "t1" report 2000 working

complete_once_example :
    locked_run_with_valid_lease 1 "t1" 2001 (record working { runs = finished ∷ [] })
    ≡ err lease_invalid
complete_once_example =
    complete_once strip 1 "t1" report 2000 working (record working { runs = finished ∷ [] })
      finished complete_run_at_working "t1" 2001

abbrev broken_report : Report
broken_report = record report {
  event_outcomes = some (object (some (codes "https://a.example/1")) unhashable (some "") ∷ []);
}

complete_run_unhashable_example :
    complete_run strip 1 "t1" broken_report 2000 working ≡ (err type_error, working)
unfolding program has_web_scheme sanitize_text
complete_run_unhashable_example =
    complete_run_unhashable strip 1 "t1" broken_report 2000 working leased
      (codes "https://a.example/1") "" [] refl refl refl (omega arith)

abbrev kept : List EventOutcome
kept = record { url = codes "https://a.example/1"; outcome = "skipped"; reason = "known_url" } ∷ []

clean_event_outcomes-Kept_example : All (Kept strip []) kept × (length kept ≤ max_event_outcomes)
unfolding clean_event_outcomes
clean_event_outcomes-Kept_example =
    clean_event_outcomes-Kept strip [] report.event_outcomes kept refl
