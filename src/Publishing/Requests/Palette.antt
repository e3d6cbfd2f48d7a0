-- ===== src/Publishing/Requests/Palette.antt =====
-- The rule of core/categories.py over any requests to the staff console but edits of events.
use takulife.Common.{Bool, true, false, List, [], ◌∷◌, ◌≡◌, All}
use takulife.Publishing.Model.{Db, Platform}
use takulife.Publishing.Events.Tidy.{IsTidy}
use takulife.Publishing.Requests.{Request, handle, handle_all}
use takulife.Publishing.Requests.Tidy.{
  create_request, status_request, toggle_request, verify_request, bulk_request, delete_request,
}
use takulife.Publishing.Requests.TidyCategories.{
  new_category_request, set_category_request, edit_category_request,
}

abbrev pub is_edit : Request → Bool
is_edit (Request.edit pk f) = true
is_edit (Request.create f) = false
is_edit (Request.set_status pk status) = false
is_edit (Request.toggle pk) = false
is_edit (Request.verify pk now) = false
is_edit (Request.unpublish_all pks) = false
is_edit (Request.delete references pk) = false
is_edit (Request.new_category slug label) = false
is_edit (Request.set_category pk enabled) = false
is_edit (Request.edit_category pk label) = false

handle-IsTidy :
    (env : Platform) (r : Request) (db : Db)
    → is_edit r ≡ false
    → IsTidy db
    → IsTidy (handle env r db)
unfolding handle
handle-IsTidy env (Request.edit pk f) db e v = cc
handle-IsTidy env (Request.create f) db e v = create_request env f db v
handle-IsTidy env (Request.set_status pk status) db e v = status_request env pk status db v
handle-IsTidy env (Request.toggle pk) db e v = toggle_request env pk db v
handle-IsTidy env (Request.verify pk now) db e v = verify_request pk now db v
handle-IsTidy env (Request.unpublish_all pks) db e v = bulk_request pks db v
handle-IsTidy env (Request.delete references pk) db e v = delete_request references pk db v
handle-IsTidy env (Request.new_category slug label) db e v = new_category_request slug label db v
handle-IsTidy env (Request.set_category pk enabled) db e v = set_category_request pk enabled db v
handle-IsTidy env (Request.edit_category pk label) db e v = edit_category_request pk label db v

-- From a state under the constraints of the tables in which every category has a name and no
-- inactive category without a published event holds a palette slot, any sequence of console
-- requests other than edits of an event's fields, each of which may fail, leads to such a state.
pub handle_all-IsTidy :
    (env : Platform) (rs : List Request) (db : Db)
    → All (λ r. is_edit r ≡ false) rs
    → IsTidy db
    → IsTidy (handle_all env rs db)
unfolding handle_all
handle_all-IsTidy env [] db e v = v
handle_all-IsTidy env (r ∷ rs) db e v =
    handle_all-IsTidy env rs (handle env r db) e.1 (handle-IsTidy env r db e.0 v)
