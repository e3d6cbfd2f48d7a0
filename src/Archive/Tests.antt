-- ===== src/Archive/Tests.antt =====
-- The archive at concrete inputs.
use takulife.Common.{
  ℕ, ◌≡◌, ◌≤◌, refl, true, false, none, some, [], ◌∷◌, All, count, first, select, exists, arith,
}
use takulife.Common.Exec.{ok, err}
use takulife.Common.Int.{pos}
use takulife.Archive.Model.{
  Db, duplicate_status, does_not_exist, visit_record_exists, planned, missed, StatusRow, Photo,
  CollectionItem,
}
use takulife.Archive.Status.{
  insert_status, check_status, add_status, create_user_event_status, mark_missed, revert_to_planned,
}
use takulife.Archive.Visits.{
  Visit, visit_row, Race, withdraw, insert_visited, retry_visited, ensure_visited_status,
  create_visit_record, delete_visit_record, complete_visit_with_record,
}
use takulife.Archive.Visits.Replay.{create_visit_record_again}
use takulife.Archive.Visits.Deleted.{create_visit_record_deleted}
use takulife.Archive.Visits.Raced.{Outcome, loses_twice, left_by}
use takulife.Archive.Visits.Complete.{complete_visit-Ensured}
use takulife.Archive.Visits.Recorded.{recorded-refused}
use takulife.Archive.Photos.{in_record, create_visit_record_photo}
use takulife.Archive.Photos.Laws.{create_photo-Limited}
use takulife.Archive.Photos.Again.{create_photo_again}
use takulife.Archive.Items.Update.{Patch, update_collection_item}
use takulife.Archive.Items.Laws.{InSync}
use takulife.Archive.Items.Sync.{Synced, update_collection_item-InSync}

abbrev empty : Db
empty = record {
  next_id = 1;
  event_title = λ event. "Exhibition";
  entries = [];
  interests = [];
  statuses = [];
  visits = [];
  photos = [];
  items = [];
  activity = [];
  analytics = [];
  deleted_files = [];
}

abbrev visit : Visit
visit = record {
  user = 7;
  event = some 3;
  personal_entry = none;
  visited_on = 20;
  short_review = "good";
  client_token = some 99;
}

abbrev recorded : Db
unfolding create_visit_record
recorded = (create_visit_record visit 1000 empty).1

abbrev planned_row : StatusRow
planned_row = record {
  id = 5;
  user = 7;
  event = some 3;
  personal_entry = none;
  status = planned;
  missed_overridden = false;
}

-- Another request plans the visit while this one completes it.
abbrev planned_meanwhile : Race
planned_meanwhile = record { first_row = some planned_row; is_withdrawn = false; second_row = none }

complete_visit-Ensured_example :
    Outcome visit
      (loses_twice planned_meanwhile visit empty)
      (left_by planned_meanwhile visit empty)
      (complete_visit_with_record planned_meanwhile visit 1000 empty)
complete_visit-Ensured_example = complete_visit-Ensured planned_meanwhile visit 1000 empty refl

-- The other request withdraws its plan and plans the visit once more.
abbrev planned_twice : Race
planned_twice = record {
  first_row = some planned_row;
  is_withdrawn = true;
  second_row = some planned_row;
}

lost_twice : (complete_visit_with_record planned_twice visit 1000 empty).0 ≡ err duplicate_status
unfolding complete_visit_with_record ensure_visited_status insert_visited retry_visited withdraw
    create_user_event_status check_status add_status insert_status exists first select
lost_twice = refl

create_visit_record_again_example :
    create_visit_record visit 2000 recorded ≡ (ok (visit_row 1 visit), recorded)
unfolding recorded create_visit_record
create_visit_record_again_example =
    create_visit_record_again visit 99 1000 2000 empty recorded (visit_row 1 visit) refl refl

create_visit_record_deleted_example :
    create_visit_record visit 2000 (delete_visit_record 1 recorded)
    ≡ (err does_not_exist, delete_visit_record 1 recorded)
unfolding recorded create_visit_record exists
create_visit_record_deleted_example =
    create_visit_record_deleted visit 99 1000 2000 empty recorded (visit_row 1 visit) refl refl refl

abbrev photo : ℕ → Photo
photo id = record { id = id; visit_record = 1; image = "a.png"; client_token = some id }

-- A record that has four photos.
abbrev with_four : Db
unfolding recorded
with_four = record recorded { photos = photo 11 ∷ photo 12 ∷ photo 13 ∷ photo 14 ∷ [] }

create_photo-Limited_example :
    count (in_record 1) (create_visit_record_photo 1 "b.png" (some 15) with_four).1.photos ≤ 5
unfolding with_four recorded count
create_photo-Limited_example = create_photo-Limited 1 1 "b.png" (some 15) with_four (omega arith)

abbrev with_five : Db
unfolding with_four create_visit_record_photo
with_five = (create_visit_record_photo 1 "b.png" (some 15) with_four).1

abbrev fifth : Photo
fifth = record { id = 2; visit_record = 1; image = "b.png"; client_token = some 15 }

create_photo_again_example :
    create_visit_record_photo 1 "c.png" (some 15) with_five ≡ (ok fifth, with_five)
unfolding with_five with_four recorded create_visit_record create_visit_record_photo first
create_photo_again_example =
    create_photo_again 1 15 "b.png" "c.png" with_four with_five (visit_row 1 visit) fifth refl refl

abbrev item : CollectionItem
item = record {
  id = 21;
  user = 7;
  name = "Badge";
  quantity = pos 2;
  tradeable_quantity = pos 1;
  is_wanted = false;
  acquired_on = none;
  event = some 3;
  visit_record = some 1;
  image = none;
  client_token = none;
}

abbrev with_item : Db
unfolding recorded
with_item = record recorded { items = item ∷ [] }

-- A request that takes the event away from a linked item.
abbrev without_event : Patch
without_event = record {
  name = none;
  quantity = some (pos 3);
  tradeable_quantity = none;
  is_wanted = none;
  acquired_on = none;
  event = some none;
  visit_record = none;
  image = none;
}

item-InSync : All (InSync with_item.visits) with_item.items
unfolding with_item recorded create_visit_record first
item-InSync = ((λ id e v found. ground arith), tt)

update_collection_item-InSync_example :
    Synced with_item.visits (update_collection_item (λ i. false) 21 without_event 1000 with_item).1
update_collection_item-InSync_example =
    update_collection_item-InSync (λ i. false) 21 without_event 1000 with_item item-InSync tt

abbrev missed_row : StatusRow
missed_row = record planned_row { status = missed }

abbrev with_missed : Db
with_missed = record empty { statuses = missed_row ∷ [] }

recorded-refused_example :
    (mark_missed planned_row 2000 recorded ≡ (err visit_record_exists, recorded))
    × (revert_to_planned planned_row 2000 recorded ≡ (err visit_record_exists, recorded))
unfolding recorded create_visit_record
recorded-refused_example =
    recorded-refused visit 1000 2000 empty recorded (visit_row 1 visit) planned_row refl refl refl
      refl refl
