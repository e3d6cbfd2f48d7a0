-- ===== src/Archive/Items.antt =====
-- Collection items: the constraints of `CollectionItem`, `_validate_collection_item_quantities` and
-- `create_collection_item` of archive/services.py.
use takulife.Common.{
  ℕ, ◌+◌, String, Bool, true, false, not, ◌&&◌, ◌||◌, Option, none, some, List, [], ◌∷◌, ◌++◌, ◌==◌,
  or_else, is_some, first, exists, same_key, clashes, if◌then◌else◌,
}
use takulife.Common.Int.{ℤ, pos, is_negative, ltb_ℤ}
use takulife.Common.Exec.{Result, ok, err, Exec, pure, raise, gets, raise_if, atomic, ◌>>=◌, ◌>>◌}
use takulife.Archive.Model.{
  Db, Error, integrity, validation, Kind, Activity, nothing, VisitRecord, CollectionItem, EventName,
}
use takulife.Archive.Store.{found, record_activity, record_event}
pub mod Update
pub mod Laws
pub mod Sync

-- The errors of `_validate_collection_item_quantities`, by field.
abbrev pub quantity_errors : ℤ → ℤ → List String
quantity_errors quantity tradeable_quantity =
    (if is_negative quantity then "quantity" ∷ [] else [])
    ++ (if is_negative tradeable_quantity || ltb_ℤ quantity tradeable_quantity
        then "tradeable_quantity" ∷ []
        else [])

unfoldable pub validate_collection_item_quantities : ℤ → ℤ → Exec Db Error (Unit {0})
validate_collection_item_quantities quantity tradeable_quantity db =
    elim (quantity_errors quantity tradeable_quantity) [
      | [] ↦ (ok tt, db)
      | f ∷ fs ↦ (err (validation (f ∷ fs)), db)
    ]

-- The arguments of `create_collection_item`; a field that was not sent is `none`.
pub record NewItem : Type 0 where
  pub user : ℕ
  pub name : String
  pub visit_record : Option VisitRecord
  pub event : Option ℕ
  pub client_token : Option ℕ
  pub quantity : Option ℤ
  pub tradeable_quantity : Option ℤ
  pub is_wanted : Option Bool
  pub acquired_on : Option ℕ
  pub image : Option String

-- unique_archive_collection_item_user_client_token
abbrev pub item_clash : CollectionItem → CollectionItem → Bool
item_clash a b = a.user == b.user && clashes a.client_token b.client_token

-- The three check constraints of the table.
abbrev pub breaks_check : CollectionItem → Bool
breaks_check i =
    is_negative i.quantity
    || ltb_ℤ i.quantity i.tradeable_quantity
    || is_negative i.tradeable_quantity

-- `CollectionItem.objects.create`
unfoldable pub insert_item : CollectionItem → Exec Db Error CollectionItem
unfolding exists
insert_item row db =
    if breaks_check row || exists (item_clash row) db.items
    then (err integrity, db)
    else (ok row, record db { items = db.items ++ row ∷ []; next_id = db.next_id + 1 })

abbrev pub visit_id : Option VisitRecord → Option ℕ
visit_id none = none
visit_id (some v) = some v.id

-- The event of the visit record, where one is given.
abbrev pub synced_event : Option VisitRecord → Option ℕ → Option ℕ
synced_event none event = event
synced_event (some v) event = v.event

abbrev pub is_foreign : ℕ → Option VisitRecord → Bool
is_foreign user none = false
is_foreign user (some v) = not (v.user == user)

abbrev pub item_row : ℕ → NewItem → CollectionItem
item_row id q = record {
  id = id;
  user = q.user;
  name = q.name;
  quantity = or_else q.quantity (pos 1);
  tradeable_quantity = or_else q.tradeable_quantity (pos 0);
  is_wanted = or_else q.is_wanted false;
  acquired_on = q.acquired_on;
  event = synced_event q.visit_record q.event;
  visit_record = visit_id q.visit_record;
  image = q.image;
  client_token = q.client_token;
}

abbrev pub item_activity : NewItem → ℕ → ℕ → Activity
item_activity q id now = record {
  user = q.user;
  kind = Kind.collection_item_created;
  occurred_at = now;
  event = none;
  visit_record = none;
  collection_item = some id;
  subject_label = q.name;
  change_summary = nothing;
  operation_key = q.client_token;
}

-- The block of `create_collection_item` in the transaction.
unfoldable pub store_item : NewItem → ℕ → Exec Db Error CollectionItem
unfolding insert_item record_activity
store_item q now = do
  id ← gets (λ (db : Db). db.next_id)
  row ← insert_item (item_row id q)
  record_activity (item_activity q id now)
  pure row

abbrev pub record_if : Bool → EventName → ℕ → ℕ → Exec Db Error (Unit {0})
record_if true name user id = record_event name user "collection_item" id
record_if false name user id = pure tt

abbrev pub is_positive : ℤ → Bool
is_positive n = ltb_ℤ (pos 0) n

unfoldable pub record_item_created : NewItem → CollectionItem → Exec Db Error CollectionItem
unfolding record_event
record_item_created q item = do
  record_event EventName.collection_item_created q.user "collection_item" item.id
  record_if (is_some q.visit_record) EventName.collection_item_linked_to_visit q.user item.id
  record_if (or_else q.is_wanted false) EventName.collection_item_marked_wanted q.user item.id
  record_if (is_positive (or_else q.tradeable_quantity (pos 0)))
      EventName.collection_item_marked_tradeable q.user item.id
  pure item

abbrev pub has_item_token : ℕ → ℕ → CollectionItem → Bool
has_item_token user token i = i.user == user && same_key i.client_token (some token)

-- `CollectionItem.objects.get(user=user, client_token=client_token)`
unfoldable pub get_item : ℕ → ℕ → Exec Db Error CollectionItem
unfolding first
get_item user token db = (found (first (has_item_token user token) db.items), db)

-- What follows the block: `except IntegrityError`, and the events for the analytics.
unfoldable pub after_store_item :
    NewItem → Result Error CollectionItem → Exec Db Error CollectionItem
unfolding record_item_created get_item
after_store_item q (ok item) = record_item_created q item
after_store_item q (err e) = elim e [
  | integrity ↦ elim q.client_token [ none ↦ raise integrity | some token ↦ get_item q.user token ]
  | other ↦ raise other
]

unfoldable pub create_collection_item : NewItem → ℕ → Exec Db Error CollectionItem
unfolding validate_collection_item_quantities store_item after_store_item
create_collection_item q now = do
  validate_collection_item_quantities (or_else q.quantity (pos 1))
      (or_else q.tradeable_quantity (pos 0))
  raise_if (is_foreign q.user q.visit_record) (validation ("visit_record" ∷ []))
  λ db. let (r, db') = atomic (store_item q now) db in after_store_item q r db'
