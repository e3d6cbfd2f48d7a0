-- ===== src/Publishing/Requests.antt =====
-- Sequences of requests to the staff console: the views of staff/views/events.py,
-- events_actions.py and categories.py that change events and categories.
use takulife.Common.{ℕ, String, Bool, List, [], ◌∷◌}
use takulife.Publishing.Model.{PublishStatus, Fields, Event, Category, Db, Platform}
use takulife.Publishing.Events.{References}
use takulife.Publishing.Console.{
  staff_event_create, staff_event_edit, set_publish_status, staff_event_toggle_publish,
  staff_event_verify, bulk_unpublish, staff_event_delete, category_create, category_set_active,
}
use takulife.Publishing.Console.Labels.{category_edit}
pub mod Tidy
pub mod TidyCategories
pub mod Palette

-- A request that a member of the staff sends; a deletion carries what the archive holds then.
pub data Request : Type 0 where
  create : Fields → Request
  edit : ℕ → Fields → Request
  set_status : ℕ → PublishStatus → Request
  toggle : ℕ → Request
  verify : ℕ → ℕ → Request
  unpublish_all : List ℕ → Request
  delete : (ℕ → References) → ℕ → Request
  new_category : String → String → Request
  set_category : ℕ → Bool → Request
  edit_category : ℕ → String → Request

-- The stored state after a request, whether it succeeded or not.
unfoldable pub handle : Platform → Request → Db → Db
handle env (create f) db = (staff_event_create env f db).1
handle env (edit pk f) db = (staff_event_edit env pk f db).1
handle env (set_status pk status) db = (set_publish_status env pk status db).1
handle env (toggle pk) db = (staff_event_toggle_publish env pk db).1
handle env (verify pk now) db = (staff_event_verify pk now db).1
handle env (unpublish_all pks) db = (bulk_unpublish pks db).1
handle env (delete references pk) db = (staff_event_delete references pk db).1
handle env (new_category slug label) db = (category_create slug label db).1
handle env (set_category pk enabled) db = (category_set_active pk enabled db).1
handle env (edit_category pk label) db = (category_edit pk label db).1

unfoldable pub handle_all : Platform → List Request → Db → Db
unfolding handle
handle_all env [] db = db
handle_all env (r ∷ rs) db = handle_all env rs (handle env r db)
