-- ===== src/Archive/Interests.antt =====
-- Interests in an event or a personal entry: the interest functions of archive/services.py.
use takulife.Common.{
  ℕ, ◌+◌, Bool, not, ◌&&◌, ◌||◌, Option, [], ◌∷◌, ◌++◌, ◌==◌, exists, select, clashes,
  if◌then◌else◌,
}
use takulife.Common.Exec.{ok, err, Exec, pure, raise, gets, modify, atomic, ◌>>=◌, ◌>>◌}
use takulife.Archive.Model.{
  Db, Error, integrity, duplicate_interest, Kind, nothing, InterestRow, EventName,
}
use takulife.Archive.Store.{
  subject_label, record_activity, record_subject_event, exactly_one, except_integrity,
}
use takulife.Archive.Status.{status_activity}

abbrev pub interest_clash : InterestRow → InterestRow → Bool
interest_clash a b =
    a.user == b.user && (clashes a.event b.event || clashes a.personal_entry b.personal_entry)

-- `EventInterest.objects.create`
unfoldable pub insert_interest : InterestRow → Exec Db Error InterestRow
unfolding exists
insert_interest row db =
    if not (exactly_one row.event row.personal_entry) || exists (interest_clash row) db.interests
    then (err integrity, db)
    else (ok row, record db { interests = db.interests ++ row ∷ []; next_id = db.next_id + 1 })

unfoldable pub create_event_interest : ℕ → Option ℕ → Option ℕ → ℕ → Exec Db Error InterestRow
unfolding insert_interest subject_label record_activity record_subject_event
create_event_interest user event personal_entry now = do
  interest ← atomic (do
    id ← gets (λ (db : Db). db.next_id)
    row ←
        except_integrity
          (insert_interest
            (record { id = id; user = user; event = event; personal_entry = personal_entry }))
          (raise duplicate_interest)
    label ← subject_label event personal_entry
    record_activity (status_activity Kind.interest_added user event now label nothing)
    pure row)
  record_subject_event EventName.event_interested user event personal_entry
  pure interest

unfoldable pub remove_event_interest : InterestRow → ℕ → Exec Db Error (Unit {0})
unfolding subject_label select record_activity
remove_event_interest interest now = do
  label ← subject_label interest.event interest.personal_entry
  atomic (do
    modify (λ (db : Db). record db {
      interests = select (λ (r : InterestRow). not (r.id == interest.id)) db.interests;
    })
    record_activity
        (status_activity Kind.interest_removed interest.user interest.event now label nothing))
