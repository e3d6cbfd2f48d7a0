-- ===== src/Submission/Store.antt =====
-- The rows that a submission stores: `_save_failed_candidate` of drafts/candidate_validation.py and
-- the blocks of `submit_candidate` and `register_account_source` that store a source.
use takulife.Common.{
  ℕ, ◌+◌, String, Bool, ◌&&◌, Option, none, some, [], ◌∷◌, ◌++◌, ◌==◌, leb, count, exists, first,
  Text, text_eq, if◌then◌else◌,
}
use takulife.Common.Exec.{Result, ok, err, Exec, pure, gets, modify, raise_if, atomic, ◌>>=◌, ◌>>◌}
use takulife.Discovery.Model as Discovery
use takulife.Discovery.Model.{Run}
use takulife.Discovery.Runs.{locked_run_with_valid_lease, renew_lease}
use takulife.Review.Model as Review
use takulife.Submission.Model.{
  Source, SourceType, Stage, Decision, failed, promoted, Cleaned, Candidate, Db, discovery, Error,
  lease, candidate_limit, integrity,
}
pub mod Limited
pub mod Kept
pub mod Rows
pub mod Settled

abbrev pub max_candidates_per_run : ℕ
max_candidates_per_run = 10

abbrev pub of_run : ℕ → Candidate → Bool
of_run run c = c.run == run

abbrev pub on_url : ℕ → Text → Candidate → Bool
on_url run url c = of_run run c && text_eq c.fields.url url

abbrev pub leased : Db → Result Discovery.Error Run → Result Error Run × Db
leased db (ok run) = (ok run, db)
leased db (err e) = (err (lease e), db)

unfoldable pub leased_run : ℕ → String → ℕ → Exec Db Error Run
unfolding locked_run_with_valid_lease
leased_run id token now db = leased db (locked_run_with_valid_lease id token now (discovery db))

unfoldable pub renewed : ℕ → ℕ → Db → Db
unfolding renew_lease
renewed id now db = record db { runs = (renew_lease id now (discovery db)).runs }

abbrev pub is_full : ℕ → Db → Bool
is_full run db = leb max_candidates_per_run (count (of_run run) db.candidates)

unfoldable pub renew_with_room : ℕ → Run → Exec Db Error Run
unfolding renewed count
renew_with_room now run = do
  modify (renewed run.id now)
  full ← gets (is_full run.id)
  raise_if full candidate_limit
  pure run

-- The lease, its renewal and the limit, before a row is stored.
unfoldable pub run_with_room : ℕ → String → ℕ → Exec Db Error Run
unfolding leased_run renew_with_room
run_with_room id token now = leased_run id token now >>= renew_with_room now

abbrev pub new_candidate : ℕ → Cleaned → Decision → ℕ → Db → Candidate
new_candidate run cleaned decision now db = record {
  pk = db.next_id;
  run = run;
  fields = cleaned;
  decision = decision;
  created_at = now;
}

abbrev pub added : Candidate → Db → Db
added c db = record db { candidates = db.candidates ++ c ∷ []; next_id = db.next_id + 1 }

abbrev pub append_candidate : ℕ → Cleaned → Decision → ℕ → Exec Db Error Candidate
append_candidate run cleaned decision now db =
    let c = new_candidate run cleaned decision now db in (ok c, added c db)

-- `objects.create` under the unique constraint on the run and the URL, or the row that is there.
unfoldable pub create_or_first : ℕ → Cleaned → Decision → ℕ → Exec Db Error Candidate
unfolding first
create_or_first run cleaned decision now db = elim (first (on_url run cleaned.url) db.candidates) [
  | some c ↦ (ok c, db)
  | none ↦ append_candidate run cleaned decision now db
]

-- `_save_failed_candidate`
unfoldable pub save_failed_candidate :
    ℕ → String → ℕ → Cleaned → Stage → Option String → Exec Db Error Candidate
unfolding run_with_room create_or_first
save_failed_candidate id token now cleaned stage reason =
    atomic (do
      run ← run_with_room id token now
      create_or_first run.id cleaned (failed stage reason) now)

abbrev pub source_exists : Text → Db → Bool
source_exists url db = exists (λ (s : Source). text_eq s.url url) db.sources

abbrev pub new_source : Cleaned → SourceType → Bool → Db → Source
new_source cleaned source_type enabled db = record {
  pk = db.next_id;
  name = cleaned.name;
  url = cleaned.url;
  source_type = source_type;
  enabled = enabled;
  link_selector = cleaned.link_selector;
}

abbrev pub with_source : Source → Db → Db
with_source s db = record db { sources = db.sources ++ s ∷ []; next_id = db.next_id + 1 }

-- `SourceCandidate.objects.create` where no clause catches the constraint
unfoldable pub create_candidate : ℕ → Cleaned → Decision → ℕ → Exec Db Error Candidate
unfolding exists
create_candidate run cleaned decision now = do
  taken ← gets (λ (db : Db). exists (on_url run cleaned.url) db.candidates)
  raise_if taken integrity
  append_candidate run cleaned decision now

-- The candidate of a source that is stored.
unfoldable pub promote_source : ℕ → Cleaned → ℕ → Source → Exec Db Error (Candidate × Option Source)
unfolding create_candidate
promote_source run cleaned now source = do
  modify (with_source source)
  c ← create_candidate run cleaned (promoted source.pk) now
  pure (c, some source)

unfoldable pub fail_duplicate : ℕ → String → ℕ → Cleaned → Exec Db Error (Candidate × Option Source)
unfolding save_failed_candidate
fail_duplicate id token now cleaned = do
  c ← save_failed_candidate id token now cleaned Stage.duplicate none
  pure (c, none)

-- The block that stores the source and its candidate; `source_type` is not absent then.
unfoldable pub promote_locked :
    ℕ → String → ℕ → Cleaned → SourceType → Bool → Run → Exec Db Error (Candidate × Option Source)
unfolding promote_source fail_duplicate exists
promote_locked id token now cleaned source_type enabled run db =
    if source_exists cleaned.url db
    then fail_duplicate id token now cleaned db
    else promote_source run.id cleaned now (new_source cleaned source_type enabled db) db

unfoldable pub promote :
    ℕ → String → ℕ → Cleaned → SourceType → Bool → Exec Db Error (Candidate × Option Source)
unfolding run_with_room promote_locked
promote id token now cleaned source_type enabled = atomic (do
  run ← run_with_room id token now
  promote_locked id token now cleaned source_type enabled run)
