-- ===== src/Discovery.antt =====
-- drafts/discovery_runs.py: the runs of the source discovery, the runner's heartbeat, and the
-- leases under which a runner on another machine works on a run.
pub mod Model
pub mod Outcomes
pub mod Runner
pub mod Runs
pub mod Complete
pub mod Reach
mod Tests
