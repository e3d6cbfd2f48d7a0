-- ===== src/Archive/Items/Update.antt =====
-- `update_collection_item` of archive/services.py, and `clean` of `CollectionItem`.
use takulife.Common.{
  ℕ, String, Bool, true, false, not, ◌&&◌, ◌||◌, Option, none, some, List, [], ◌∷◌, ◌++◌, ◌==◌,
  or_else, is_some, first, update, same_key, str_eq, if◌then◌else◌,
}
use takulife.Common.Int.{ℤ, pos, ltb_ℤ}
use takulife.Common.Exec.{ok, err, Exec, pure, modify, atomic, ◌>>=◌, ◌>>◌}
use takulife.Archive.Model.{
  Db, Error, validation, Kind, Activity, OrganizeChange, quantity_to, is_wanted_to,
  tradeable_quantity_to, acquired_on_to, organized, VisitRecord, CollectionItem, EventName,
}
use takulife.Archive.Store.{found, record_activity, record_event}
use takulife.Archive.Items.{
  validate_collection_item_quantities, breaks_check, visit_id, is_foreign, is_positive, record_if,
}

-- `fields`: what a request changes; a field that was not sent is `none`.
pub record Patch : Type 0 where
  pub name : Option String
  pub quantity : Option ℤ
  pub tradeable_quantity : Option ℤ
  pub is_wanted : Option Bool
  pub acquired_on : Option (Option ℕ)
  pub event : Option (Option ℕ)
  pub visit_record : Option (Option VisitRecord)
  pub image : Option (Option String)

abbrev pub event_of_record : ℕ → Db → Option (Option ℕ)
event_of_record id db = elim (first (λ (v : VisitRecord). v.id == id) db.visits) [
  | none ↦ none
  | some v ↦ some v.event
]

-- `_event_alone_targets_existing_visit_record`, and the comparison it guards.
abbrev pub event_alone_differs : CollectionItem → Option (Option ℕ) → Db → Bool
event_alone_differs item none db = false
event_alone_differs item (some event) db = elim item.visit_record [
  | none ↦ false
  | some id ↦ elim (event_of_record id db) [ none ↦ false | some e ↦ not (same_key event e) ]
]

-- The event of a patch with a link: `fields["event"] = visit_record.event`, where a visit record is
-- given.
abbrev pub event_of_link : Option VisitRecord → Option (Option ℕ) → Option (Option ℕ)
event_of_link none event = event
event_of_link (some v) event = some v.event

-- The checks of the link, by `visit_record` and `event` of the patch: the event it then carries.
unfoldable pub checked_event :
    CollectionItem
    → Option (Option VisitRecord)
    → Option (Option ℕ)
    → Exec Db Error (Option (Option ℕ))
unfolding first
checked_event item none event db =
    if event_alone_differs item event db
    then (err (validation ("event" ∷ [])), db)
    else (ok event, db)
checked_event item (some link) event db =
    if is_foreign item.user link
    then (err (validation ("visit_record" ∷ [])), db)
    else (ok (event_of_link link event), db)

abbrev pub linked : Option ℕ → Option (Option VisitRecord) → Option ℕ
linked old none = old
linked old (some link) = visit_id link

-- The values after `setattr`.
abbrev pub merged : CollectionItem → Patch → Option (Option ℕ) → CollectionItem
merged item patch event = record item {
  name = or_else patch.name item.name;
  quantity = or_else patch.quantity item.quantity;
  tradeable_quantity = or_else patch.tradeable_quantity item.tradeable_quantity;
  is_wanted = or_else patch.is_wanted item.is_wanted;
  acquired_on = or_else patch.acquired_on item.acquired_on;
  event = or_else event item.event;
  visit_record = linked item.visit_record patch.visit_record;
  image = or_else patch.image item.image;
}

-- `_event_conflicts_with_visit_record`
unfoldable pub event_conflicts : CollectionItem → Db → Bool
unfolding first
event_conflicts item db = elim item.visit_record [
  | none ↦ false
  | some id ↦ elim item.event [
    | none ↦ false
    | some event ↦ elim (event_of_record id db) [
      | none ↦ false
      | some e ↦ not (same_key e (some event))
    ]
  ]
]

-- `full_clean`: the fields by `invalid`, which is Django's, then `clean`, then the constraints.
unfoldable pub full_clean : (CollectionItem → Bool) → CollectionItem → Exec Db Error (Unit {0})
unfolding event_conflicts
full_clean invalid item db =
    if invalid item || event_conflicts item db || breaks_check item
    then (err (validation []), db)
    else (ok tt, db)

abbrev pub same_ℤ : ℤ → ℤ → Bool
same_ℤ a b = not (ltb_ℤ a b) && not (ltb_ℤ b a)

abbrev pub same_bool : Bool → Bool → Bool
same_bool true b = b
same_bool false b = not b

abbrev pub change_if : Bool → OrganizeChange → List OrganizeChange
change_if true c = c ∷ []
change_if false c = []

-- `organize_changes`: the fields of `_COLLECTION_ITEM_ORGANIZE_FIELDS` that were sent and differ.
unfoldable pub organize_changes : Patch → CollectionItem → CollectionItem → List OrganizeChange
organize_changes patch before item =
    change_if (is_some patch.quantity && not (same_ℤ item.quantity before.quantity))
      (quantity_to item.quantity)
    ++ change_if (is_some patch.is_wanted && not (same_bool item.is_wanted before.is_wanted))
        (is_wanted_to item.is_wanted)
    ++ change_if
        (is_some patch.tradeable_quantity
          && not (same_ℤ item.tradeable_quantity before.tradeable_quantity))
        (tradeable_quantity_to item.tradeable_quantity)
    ++ change_if (is_some patch.acquired_on && not (same_key item.acquired_on before.acquired_on))
        (acquired_on_to item.acquired_on)

abbrev pub organize_activity : CollectionItem → List OrganizeChange → ℕ → Activity
organize_activity item changes now = record {
  user = item.user;
  kind = Kind.collection_item_organized;
  occurred_at = now;
  event = none;
  visit_record = none;
  collection_item = some item.id;
  subject_label = item.name;
  change_summary = organized changes;
  operation_key = none;
}

unfoldable pub record_organized :
    CollectionItem → List OrganizeChange → ℕ → Exec Db Error (Unit {0})
unfolding record_activity
record_organized item [] now = pure tt
record_organized item (c ∷ cs) now = record_activity (organize_activity item (c ∷ cs) now)

-- `item.save(update_fields=...)`
abbrev pub save_item : CollectionItem → Exec Db Error (Unit {0})
save_item item = modify (λ (db : Db). record db {
  items = update (λ (i : CollectionItem). i.id == item.id) (λ i. item) db.items;
})

-- The row before and after the update.
pub record Changed : Type 0 where
  pub before : CollectionItem
  pub item : CollectionItem

-- The block of `update_collection_item` in the transaction: the row is read again,
unfoldable pub read_item : ℕ → Exec Db Error CollectionItem
unfolding first
read_item id db = (found (first (λ (i : CollectionItem). i.id == id) db.items), db)

-- and, after the checks, written and logged.
unfoldable pub write_item :
    (CollectionItem → Bool) → CollectionItem → CollectionItem → Patch → ℕ → Exec Db Error Changed
unfolding update full_clean record_organized
write_item invalid before item patch now = do
  full_clean invalid item
  save_item item
  record_organized item (organize_changes patch before item) now
  pure (record { before = before; item = item })

unfoldable pub change_item :
    (CollectionItem → Bool) → Patch → ℕ → CollectionItem → Exec Db Error Changed
unfolding validate_collection_item_quantities checked_event write_item
change_item invalid patch now before = do
  validate_collection_item_quantities (or_else patch.quantity before.quantity)
      (or_else patch.tradeable_quantity before.tradeable_quantity)
  event ← checked_event before patch.visit_record patch.event
  write_item invalid before (merged before patch event) patch now

abbrev pub is_replaced : Option String → Option String → Bool
is_replaced none new = false
is_replaced (some old) none = true
is_replaced (some old) (some new) = not (str_eq old new)

-- The file that the update replaced is deleted.
abbrev pub delete_replaced : Patch → Option String → Option String → Exec Db Error (Unit {0})
delete_replaced patch none new = pure tt
delete_replaced patch (some old) new =
    if is_some patch.image && is_replaced (some old) new
    then modify (λ (db : Db). record db { deleted_files = db.deleted_files ++ old ∷ [] })
    else pure tt

-- The three events that depend on what the update changed.
unfoldable pub record_changes : Bool → Bool → Bool → ℕ → ℕ → Exec Db Error (Unit {0})
unfolding record_event
record_changes is_linked is_wanted is_tradeable user id = do
  record_if is_linked EventName.collection_item_linked_to_visit user id
  record_if is_wanted EventName.collection_item_marked_wanted user id
  record_if is_tradeable EventName.collection_item_marked_tradeable user id

unfoldable pub record_item_updated : Changed → Exec Db Error CollectionItem
unfolding record_event record_changes
record_item_updated c = do
  record_event EventName.collection_item_updated c.item.user "collection_item" c.item.id
  record_changes (is_some c.item.visit_record && not (is_some c.before.visit_record))
      (c.item.is_wanted && not c.before.is_wanted)
      (is_positive c.item.tradeable_quantity && same_ℤ c.before.tradeable_quantity (pos 0))
      c.item.user c.item.id
  pure c.item

unfoldable pub update_collection_item :
    (CollectionItem → Bool) → ℕ → Patch → ℕ → Exec Db Error CollectionItem
unfolding read_item change_item record_item_updated
update_collection_item invalid id patch now = do
  c ← atomic (read_item id >>= change_item invalid patch now)
  delete_replaced patch c.before.image c.item.image
  record_item_updated c
