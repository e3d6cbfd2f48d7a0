-- ===== src/Publishing/Tests.antt =====
-- Runs of the publisher on small inputs, and its theorems at them: events/services.py,
-- core/categories.py and the staff console.
use takulife.Common.{
  ℕ, String, true, false, Option, none, some, List, [], ◌∷◌, ◌≡◌, refl, Text, codes, strip, map,
}
use takulife.Common.Exec.{ok, err}
use takulife.Publishing.Model.{draft, Fields, Category, Db, Platform, value_error}
use takulife.Publishing.Urls.{is_allowed_official_url}
use takulife.Publishing.Urls.Shape.{IsHttp, is_allowed_official_url-IsHttp}
use takulife.Publishing.Checks.{
  normalized_official_url, validate_publish_fields, publish_field_checks,
}
use takulife.Publishing.Checks.Agree.{verdict, validate-publish_field_checks}
use takulife.Publishing.Slots.{create_category, set_active, reconcile_category_palette_slot}
use takulife.Publishing.Events.{
  References, create_published_event, update_published_event, save_fields, insert_event, save_event,
  unpublish_event, republish_event,
}
use takulife.Publishing.Console.Labels.{category_edit}
use takulife.Publishing.Console.{
  category_create, staff_event_create, staff_event_edit, category_set_active, get_category,
  activate, set_publish_status, get_event, move_logged, staff_event_toggle_publish, log_event,
  log_category,
}
use takulife.Publishing.Events.Valid.{IsStored}
use takulife.Publishing.Events.Tidy.{IsTidy}
use takulife.Publishing.Requests.{Request, handle_all}
use takulife.Publishing.Requests.Palette.{handle_all-IsTidy}

-- Ascii addresses in no columns too narrow.
abbrev env : Platform
env = record { netloc_is_valid = λ t. true; fits = λ f. true }

abbrev no_references : ℕ → References
no_references pk = record { interest = 0; status = 0; visit = 0; collection_item = 0 }

abbrev fields : String → String → String → Fields
fields title category url = record {
  title = codes title;
  category = category;
  work_title = [];
  location_name = [];
  region = "seoul";
  start_date = some 10;
  end_date = some 12;
  official_url = some (codes url);
  source_name = [];
  summary = [];
}

abbrev empty : Db
empty = record { events = []; categories = []; next_id = 1; action_log = [] }

abbrev requests : List Request
requests =
    Request.new_category "concert" "Concert"
    ∷ Request.create (fields "Live" "concert" " https://example.com/live ")
    ∷ Request.set_category 1 false
    ∷ Request.set_status 2 draft
    ∷ Request.toggle 2
    ∷ Request.new_category "fan_meeting" "Fan meeting"
    ∷ Request.edit_category 1 "Concerts"
    ∷ []

-- An edit takes the only published event out of an inactive category.
abbrev with_edit : List Request
with_edit =
    Request.new_category "concert" "Concert"
    ∷ Request.create (fields "Live" "concert" "https://example.com/live")
    ∷ Request.set_category 1 false
    ∷ Request.edit 2 (fields "Live" "" "https://example.com/live")
    ∷ []

abbrev slots : Db → List (Option ℕ)
slots db = map (λ (c : Category). c.palette_slot) db.categories

empty-IsStored : IsStored empty
empty-IsStored = record {
  keys = tt;
  below = tt;
  urls = tt;
  table = record { keys = tt; below = tt; slugs = tt; labels = tt; slots = tt; in_palette = tt };
}

empty-IsTidy : IsTidy empty
empty-IsTidy = record { stored = empty-IsStored; named = tt; released = tt }

-- The inactive category gives its slot back with its event, and takes it again.
slots_run : slots (handle_all env requests empty) ≡ some 0 ∷ some 1 ∷ []
unfolding handle_all category_create create_category staff_event_create create_published_event
    validate_publish_fields insert_event reconcile_category_palette_slot category_set_active
    get_category activate set_active set_publish_status get_event move_logged unpublish_event
    republish_event staff_event_toggle_publish log_event log_category save_event category_edit
slots_run = refl

-- The slot is kept after the edit.
slots_run_edit : slots (handle_all env with_edit empty) ≡ some 0 ∷ []
unfolding handle_all category_create create_category staff_event_create create_published_event
    validate_publish_fields insert_event reconcile_category_palette_slot category_set_active
    get_category activate set_active staff_event_edit get_event update_published_event save_fields
    save_event log_event log_category
slots_run_edit = refl

handle_all-IsTidy_example : IsTidy (handle_all env requests empty)
handle_all-IsTidy_example =
    handle_all-IsTidy env requests empty (refl, (refl, (refl, (refl, (refl, (refl, (refl, tt)))))))
      empty-IsTidy

abbrev event_fields : Fields
event_fields = fields "Live" "" "https://example.com/live"

validate-publish_field_checks_example : validate_publish_fields env event_fields none empty ≡ (
  verdict
      (strip event_fields.title, normalized_official_url event_fields)
      (publish_field_checks env event_fields none empty),
  empty,
)
validate-publish_field_checks_example = validate-publish_field_checks env event_fields none empty

abbrev url : Text
url = codes "HTTPS://example.com/live?day=1"

url_allowed : is_allowed_official_url env url ≡ ok true
unfolding is_allowed_official_url
url_allowed = refl

is_allowed_official_url-IsHttp_example : IsHttp url
is_allowed_official_url-IsHttp_example = is_allowed_official_url-IsHttp env url url_allowed

-- A script is refused, and half of a bracket is an exception.
script_refused : is_allowed_official_url env (codes "javascript:alert(1)") ≡ ok false
unfolding is_allowed_official_url
script_refused = refl

bracket_raises : publish_field_checks env (fields "Live" "" "http://[") none empty ≡ err value_error
unfolding publish_field_checks
bracket_raises = refl
