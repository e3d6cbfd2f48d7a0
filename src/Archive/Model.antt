-- ===== src/Archive/Model.antt =====
-- The rows of archive/models.py, and the exceptions that archive/services.py raises. Dates are
-- days, times are seconds, and a foreign key is the number of a row. The stamps that Django sets
-- by itself are left out.
use takulife.Common.{ℕ, String, Bool, Option, List}
use takulife.Common.Int.{ℤ}

pub data Status : Type 0 where
  planned visited missed : Status

-- `UserEventStatus`
pub record StatusRow : Type 0 where
  pub id : ℕ
  pub user : ℕ
  pub event : Option ℕ
  pub personal_entry : Option ℕ
  pub status : Status
  pub missed_overridden : Bool

-- `EventInterest`
pub record InterestRow : Type 0 where
  pub id : ℕ
  pub user : ℕ
  pub event : Option ℕ
  pub personal_entry : Option ℕ

pub record VisitRecord : Type 0 where
  pub id : ℕ
  pub user : ℕ
  pub event : Option ℕ
  pub personal_entry : Option ℕ
  pub visited_on : ℕ
  pub short_review : String
  pub client_token : Option ℕ

-- `VisitRecordPhoto`
pub record Photo : Type 0 where
  pub id : ℕ
  pub visit_record : ℕ
  pub image : String
  pub client_token : Option ℕ

-- The columns of `PersonalEntry` that the services read; every kind but the official ones is
-- written as the text that was sent.
pub record PersonalEntry : Type 0 where
  pub id : ℕ
  pub user : ℕ
  pub kind : String
  pub title : String
  pub client_token : Option ℕ

-- `CollectionItem`, without the texts that the services neither read nor check.
pub record CollectionItem : Type 0 where
  pub id : ℕ
  pub user : ℕ
  pub name : String
  pub quantity : ℤ
  pub tradeable_quantity : ℤ
  pub is_wanted : Bool
  pub acquired_on : Option ℕ
  pub event : Option ℕ
  pub visit_record : Option ℕ
  pub image : Option String
  pub client_token : Option ℕ

-- `ActivityLogEntry.Kind`
pub data Kind : Type 0 where
  interest_added interest_removed status_changed status_removed visit_record_created : Kind
  collection_item_created collection_item_organized : Kind

-- An entry of `organize_changes`: the field and its new value.
pub data OrganizeChange : Type 0 where
  quantity_to : ℤ → OrganizeChange
  is_wanted_to : Bool → OrganizeChange
  tradeable_quantity_to : ℤ → OrganizeChange
  acquired_on_to : Option ℕ → OrganizeChange

-- What the services write into `change_summary`.
pub data ChangeSummary : Type 0 where
  nothing : ChangeSummary
  to : Status → ChangeSummary
  from_to : Status → Status → ChangeSummary
  organized : List OrganizeChange → ChangeSummary

-- `ActivityLogEntry`
pub record Activity : Type 0 where
  pub user : ℕ
  pub kind : Kind
  pub occurred_at : ℕ
  pub event : Option ℕ
  pub visit_record : Option ℕ
  pub collection_item : Option ℕ
  pub subject_label : String
  pub change_summary : ChangeSummary
  pub operation_key : Option ℕ

-- `AnalyticsEvent.EventName`, as far as the archive records it.
pub data EventName : Type 0 where
  event_interested event_planned event_marked_visited visit_record_created : EventName
  visit_photo_added collection_item_created collection_item_updated : EventName
  collection_item_linked_to_visit : EventName
  collection_item_marked_wanted collection_item_marked_tradeable : EventName

-- `AnalyticsEvent`; the row holds a pseudonym of the user, which stands for the user here.
pub record Analytics : Type 0 where
  pub event_name : EventName
  pub user : ℕ
  pub target_type : String
  pub target_id : ℕ

-- One sequence numbers the rows of all tables. The titles of events are another app's table;
-- `deleted_files` are the files whose deletion the storage was asked for.
pub record Db : Type 0 where
  pub next_id : ℕ
  pub event_title : ℕ → String
  pub entries : List PersonalEntry
  pub interests : List InterestRow
  pub statuses : List StatusRow
  pub visits : List VisitRecord
  pub photos : List Photo
  pub items : List CollectionItem
  pub activity : List Activity
  pub analytics : List Analytics
  pub deleted_files : List String

-- `IntegrityError`, the exceptions of the services, `DoesNotExist`, and what Python raises for
-- an attribute of `None`.
pub data Error : Type 0 where
  integrity duplicate_status duplicate_interest visit_record_exists photo_limit : Error
  does_not_exist attribute_error : Error
  -- `ValidationError`, with the fields it names
  validation : List String → Error
