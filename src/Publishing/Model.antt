-- ===== src/Publishing/Model.antt =====
-- `Event` of events/models.py, `Category` of core/models.py and the exceptions of
-- events/services.py. Dates are days, times are seconds. The columns that Django sets by itself,
-- the view count and the translations are left out.
use takulife.Common.{ℕ, String, Bool, Option, List, Text}

pub data PublishStatus : Type 0 where
  draft published : PublishStatus

-- What `create_published_event` and `update_published_event` are given.
pub record Fields : Type 0 where
  pub title : Text
  pub category : String
  pub work_title : Text
  pub location_name : Text
  pub region : String
  pub start_date : Option ℕ
  pub end_date : Option ℕ
  pub official_url : Option Text
  pub source_name : Text
  pub summary : Text

pub record Event : Type 0 where
  pub pk : ℕ
  pub fields : Fields
  pub publish_status : PublishStatus
  pub verified_at : Option ℕ

pub record Category : Type 0 where
  pub pk : ℕ
  pub slug : String
  pub label : String
  pub is_active : Bool
  pub palette_slot : Option ℕ

-- `StaffActionLog.Action`, as far as events, categories and drafts are concerned
pub data Action : Type 0 where
  event_create event_update event_unpublish event_republish : Action
  event_verify event_delete category_create category_update category_enable : Action
  category_disable : Action

-- The row that a log entry points at, which is forgotten when the row is deleted.
pub data Target : Type 0 where
  event category : ℕ → Target
  nothing : Target

-- `StaffActionLog`, without the actor and the client
pub record ActionLog : Type 0 where
  pub action : Action
  pub target : Target

pub record Db : Type 0 where
  pub events : List Event
  pub categories : List Category
  pub next_id : ℕ
  pub action_log : List ActionLog

-- `integrity`, `data_error`, `database_error` and `does_not_exist` are the database's,
-- `value_error` is raised by `urlsplit`; `validation_error` by
-- `validate_category_slug`; the last is of staff/services.py.
pub data Error : Type 0 where
  duplicate_official_url missing_official_url publish_event invalid_event_period : Error
  publish_event_title publish_event_category publish_event_region : Error
  publish_event_official_url_scheme palette_slots_exhausted : Error
  integrity data_error database_error does_not_exist value_error validation_error : Error
  event_has_archive_references : Error

-- What the program takes from Python and from the database: which network locations pass the
-- checks of `urlsplit` on the address in brackets and on compatibility characters, and which texts
-- fit the widths of their columns.
pub record Platform : Type 0 where
  pub netloc_is_valid : Text → Bool
  pub fits : Fields → Bool
