-- ===== src/Archive/Visits.antt =====
-- Visit records: `create_visit_record`, `complete_visit_with_record` and `update_visit_record` of
-- archive/services.py, and the deletion of a record.
use takulife.Common.{
  ℕ, ◌+◌, String, Bool, true, false, not, ◌&&◌, ◌||◌, Option, none, some, List, [], ◌∷◌, ◌++◌, ◌==◌,
  first, exists, map, select, update, same_key, clashes, if◌then◌else◌,
}
use takulife.Common.Exec.{
  Result, ok, err, Exec, pure, raise, gets, modify, raise_if, atomic, ◌>>=◌, ◌>>◌,
}
use takulife.Archive.Model.{
  Db, Error, integrity, duplicate_status, Kind, Activity, nothing, visited, StatusRow, VisitRecord,
  Photo, CollectionItem, EventName,
}
use takulife.Archive.Store.{
  found, subject_label, record_activity, record_subject_event, exactly_one,
}
use takulife.Archive.Status.{
  same_status, is_existing, commit_rival, create_user_event_status, mark_visited,
}
pub mod Replay
mod Log
pub mod Visited
mod Kept
mod Inserted
pub mod Deleted
mod Adding
pub mod Raced
pub mod Complete
pub mod Recorded

-- The arguments of `create_visit_record` and of `complete_visit_with_record`.
pub record Visit : Type 0 where
  pub user : ℕ
  pub event : Option ℕ
  pub personal_entry : Option ℕ
  pub visited_on : ℕ
  pub short_review : String
  pub client_token : Option ℕ

-- unique_archive_visit_record_user_client_token
abbrev pub visit_clash : VisitRecord → VisitRecord → Bool
visit_clash a b = a.user == b.user && clashes a.client_token b.client_token

-- `VisitRecord.objects.create`
unfoldable pub insert_visit : VisitRecord → Exec Db Error VisitRecord
unfolding exists
insert_visit row db =
    if not (exactly_one row.event row.personal_entry) || exists (visit_clash row) db.visits
    then (err integrity, db)
    else (ok row, record db { visits = db.visits ++ row ∷ []; next_id = db.next_id + 1 })

abbrev pub visit_row : ℕ → Visit → VisitRecord
visit_row id q = record {
  id = id;
  user = q.user;
  event = q.event;
  personal_entry = q.personal_entry;
  visited_on = q.visited_on;
  short_review = q.short_review;
  client_token = q.client_token;
}

abbrev pub visit_activity : Visit → ℕ → ℕ → String → Activity
visit_activity q id now label = record {
  user = q.user;
  kind = Kind.visit_record_created;
  occurred_at = now;
  event = q.event;
  visit_record = some id;
  collection_item = none;
  subject_label = label;
  change_summary = nothing;
  operation_key = q.client_token;
}

unfoldable pub log_visit : Visit → ℕ → VisitRecord → Exec Db Error VisitRecord
unfolding subject_label record_activity
log_visit q now row = do
  label ← subject_label q.event q.personal_entry
  record_activity (visit_activity q row.id now label)
  pure row

-- The block of `create_visit_record` in the transaction.
unfoldable pub store_visit : Visit → ℕ → Exec Db Error VisitRecord
unfolding insert_visit log_visit
store_visit q now = do
  id ← gets (λ (db : Db). db.next_id)
  row ← insert_visit (visit_row id q)
  log_visit q now row

abbrev pub has_token : ℕ → ℕ → VisitRecord → Bool
has_token user token v = v.user == user && same_key v.client_token (some token)

-- `VisitRecord.objects.get(user=user, client_token=client_token)`
unfoldable pub get_visit : ℕ → ℕ → Exec Db Error VisitRecord
unfolding first
get_visit user token db = (found (first (has_token user token) db.visits), db)

-- What follows the block: `except IntegrityError` returns the row of the token, and otherwise
-- the analytics get their event.
unfoldable pub after_store : Visit → Result Error VisitRecord → Exec Db Error VisitRecord
unfolding get_visit record_subject_event
after_store q (ok row) = do
  record_subject_event EventName.visit_record_created q.user q.event q.personal_entry
  pure row
after_store q (err e) = elim e [
  | integrity ↦ elim q.client_token [ none ↦ raise integrity | some token ↦ get_visit q.user token ]
  | other ↦ raise other
]

unfoldable pub create_visit_record : Visit → ℕ → Exec Db Error VisitRecord
unfolding store_visit after_store
create_visit_record q now db = let (r, db') = atomic (store_visit q now) db in after_store q r db'

-- `existing.select_for_update().first()`
abbrev pub status_of : Visit → Db → Option StatusRow
status_of q db = first (is_existing q.user q.event q.personal_entry) db.statuses

-- The last two lines of `_ensure_visited_status`, for a row that was found.
unfoldable pub take_over : StatusRow → ℕ → Exec Db Error (Unit {0})
unfolding mark_visited
take_over row now =
    if same_status row.status visited then pure tt else (do mark_visited row now; pure tt)

unfoldable pub insert_visited : Option StatusRow → Visit → ℕ → Exec Db Error (Unit {0})
unfolding create_user_event_status
insert_visited rival q now = do
  create_user_event_status rival q.user q.event q.personal_entry visited now
  pure tt

-- What other requests commit while `_ensure_visited_status` runs: a row before its insertion; where
-- that one wins, perhaps its withdrawal before the rows are read again; and a row before the second
-- insertion.
pub record Race : Type 0 where
  pub first_row : Option StatusRow
  pub is_withdrawn : Bool
  pub second_row : Option StatusRow

-- The user's rows for the target are deleted by other requests.
unfoldable pub withdraw : Bool → Visit → Db → Db
unfolding select
withdraw withdrawn q db =
    if withdrawn
    then record db {
      statuses =
          select (λ (r : StatusRow). not (is_existing q.user q.event q.personal_entry r))
            db.statuses;
    }
    else db

-- The insertion lost against another request: its row is taken over; if there is none, the row is
-- inserted once more, and a second loss is not handled.
unfoldable pub retry_visited : Option StatusRow → Visit → ℕ → Exec Db Error (Unit {0})
unfolding first take_over insert_visited
retry_visited rival q now db = elim (status_of q db) [
  | some row ↦ take_over row now db
  | none ↦ insert_visited rival q now db
]

abbrev pub except_duplicate :
    Exec Db Error (Unit {0}) → Exec Db Error (Unit {0}) → Exec Db Error (Unit {0})
except_duplicate m handler db =
    let (r, db') = m db in
    elim r [
      | ok a ↦ (ok a, db')
      | err e ↦ elim e [ duplicate_status ↦ handler db' | other ↦ (err other, db') ]
    ]

unfoldable pub ensure_visited_status : Race → Visit → ℕ → Exec Db Error (Unit {0})
unfolding first take_over insert_visited retry_visited withdraw
ensure_visited_status race q now db = elim (status_of q db) [
  | some row ↦ take_over row now db
  | none ↦
      except_duplicate (insert_visited race.first_row q now)
        (λ s. retry_visited race.second_row q now (withdraw race.is_withdrawn q s)) db
]

abbrev pub is_lost : Result Error (Unit {0}) → Bool
is_lost (ok u) = false
is_lost (err e) = elim e [ duplicate_status ↦ true | other ↦ false ]

-- What the other requests have committed when the rows are read again, and after a second insertion.
abbrev pub after_retry : Option StatusRow → Visit → Db → Db
after_retry rival q db = elim (status_of q db) [ some row ↦ db | none ↦ commit_rival rival db ]

-- What an abort of the transaction leaves: what the other requests committed until then.
unfoldable pub aborted : Race → Visit → ℕ → Db → Db
unfolding first withdraw insert_visited
aborted race q now db = elim (status_of q db) [
  | some row ↦ db
  | none ↦
      let left = commit_rival race.first_row db in
      if is_lost (insert_visited race.first_row q now db).0
      then after_retry race.second_row q (withdraw race.is_withdrawn q left)
      else left
]

unfoldable pub complete_visit_with_record : Race → Visit → ℕ → Exec Db Error VisitRecord
unfolding ensure_visited_status create_visit_record aborted
complete_visit_with_record race q now db =
    let (r, db') = (do ensure_visited_status race q now; create_visit_record q now) db in
    elim r [ ok row ↦ (ok row, db') | err e ↦ (err e, aborted race q now db) ]

unfoldable pub update_visit_record : VisitRecord → ℕ → String → Exec Db Error VisitRecord
unfolding update
update_visit_record row visited_on short_review = do
  modify (λ (db : Db). record db {
    visits =
        update (λ (v : VisitRecord). v.id == row.id)
          (λ (v : VisitRecord). record v { visited_on = visited_on; short_review = short_review })
          db.visits;
  })
  pure (record row { visited_on = visited_on; short_review = short_review })

-- `record.delete()`: the photos go with the record, and the storage is asked to delete their files
-- (the receiver of archive/signals.py); the items and the log keep their rows without the link.
unfoldable pub delete_visit_record : ℕ → Db → Db
unfolding select update
delete_visit_record id db = record db {
  visits = select (λ (v : VisitRecord). not (v.id == id)) db.visits;
  photos = select (λ (p : Photo). not (p.visit_record == id)) db.photos;
  items =
      update (λ (i : CollectionItem). same_key i.visit_record (some id))
        (λ (i : CollectionItem). record i { visit_record = none }) db.items;
  activity =
      update (λ (a : Activity). same_key a.visit_record (some id))
        (λ (a : Activity). record a { visit_record = none }) db.activity;
  deleted_files =
      db.deleted_files
      ++ map (λ (p : Photo). p.image) (select (λ (p : Photo). p.visit_record == id) db.photos);
}
