-- ===== src/Publishing/Requests/Tidy.antt =====
-- The staff console and the palette slots: every request but an edit of an event keeps the rule of
-- core/categories.py for every category.
use takulife.Common.{
  ℕ, Bool, true, false, Option, none, some, List, [], ◌∷◌, ◌≡◌, refl, subst, In, first,
  if◌then◌else◌,
}
use takulife.Common.Exec.{
  Result, Exec, pure, atomic, post-bind, Preserves, Preserves-bind, Preserves-atomic, ◌>>=◌,
}
use takulife.Publishing.Model.{
  PublishStatus, draft, published, Fields, Event, Category, Action, Target, Db, Error, Platform,
}
use takulife.Publishing.Slots.{is_published}
use takulife.Publishing.Slots.Released.{In-first}
use takulife.Publishing.Events.{
  has_pk, found, create_published_event, unpublish_event, republish_event, mark_event_verified,
  References, delete_event,
}
use takulife.Publishing.Events.Tidy.{IsTidy}
use takulife.Publishing.Events.TidyOps.{
  create-IsTidy, move-IsTidy, republish-IsTidy, delete-IsTidy, verified-IsTidy,
}
use takulife.Publishing.Console.{
  log_action, get_event, log_event, staff_event_create, move_logged, has_status, set_found,
  set_publish_status, opposite, toggle_found, staff_event_toggle_publish, verify_found,
  staff_event_verify, unpublish_found, unpublish_one, bulk_unpublish, delete_found,
  staff_event_delete, log_category,
}

abbrev Tidy : {A : Type 0} → Result Error A × Db → Type 0
Tidy x = IsTidy x.1

log-IsTidy : (action : Action) (target : Target) → Preserves IsTidy (log_action action target)
unfolding log_action
log-IsTidy action target db v = record {
  stored = record {
    keys = v.stored.keys;
    below = v.stored.below;
    urls = v.stored.urls;
    table = v.stored.table;
  };
  named = v.named;
  released = v.released;
}

log_event-IsTidy : (action : Action) (e : Event) → Preserves IsTidy (log_event action e)
unfolding log_event
log_event-IsTidy action e db v = log-IsTidy action (Target.event e.pk) db v

pub log_category-IsTidy :
    (action : Action) (c : Category) → Preserves IsTidy (log_category action c)
unfolding log_category
log_category-IsTidy action c db v = log-IsTidy action (Target.category c.pk) db v

found_then :
    {A : Type 0} (row : Option Event) (f : Event → Exec Db Error A) (db : Db)
    → ((e : Event) → row ≡ some e → IsTidy (f e db).1)
    → IsTidy db
    → IsTidy ((found row >>= f) db).1
found_then none f db h v = v
found_then (some e) f db h v = h e refl

get_then :
    {A : Type 0} (pk : ℕ) (f : Event → Exec Db Error A) (db : Db)
    → ((e : Event) → In e db.events → IsTidy (f e db).1)
    → IsTidy db
    → IsTidy ((get_event pk >>= f) db).1
unfolding get_event
get_then pk f db h v =
    found_then (first (has_pk pk) db.events) f db
      (λ e q. h e (In-first (has_pk pk) e db.events q).0) v

-- What is shown for a row of the table holds for the row that is looked up.
on_event :
    {A : Type 0} (pk : ℕ) (f : Event → Exec Db Error A)
    → ((db : Db) (e : Event) → In e db.events → IsTidy db → IsTidy (f e db).1)
    → Preserves IsTidy (atomic (get_event pk >>= f))
on_event pk f h =
    Preserves-atomic IsTidy (get_event pk >>= f) (λ db v. get_then pk f db (λ e m. h db e m v) v)

-- A function on a row of the table, and its entry in the log.
then_log :
    (m : Exec Db Error Event) (action : Action) (db : Db)
    → IsTidy (m db).1
    → IsTidy ((m >>= log_event action) db).1
then_log m action db h =
    post-bind (Tidy {A = Event}) m (log_event action) db (λ e s q. subst (Tidy {A = Event}) q h)
      (λ a s q. log_event-IsTidy action a s (subst (Tidy {A = Event}) q h))

pub create_request : (env : Platform) (f : Fields) → Preserves IsTidy (staff_event_create env f)
unfolding staff_event_create
create_request env f =
    Preserves-atomic IsTidy (create_published_event env f >>= log_event Action.event_create)
      (λ db v.
        then_log (create_published_event env f) Action.event_create db (create-IsTidy env f db v))

unpublish-IsTidy :
    (row : Event) (db : Db) → In row db.events → IsTidy db → IsTidy (unpublish_event row db).1
unfolding unpublish_event
unpublish-IsTidy row db m v = move-IsTidy row draft db m v

move_logged-IsTidy :
    (env : Platform) (status : PublishStatus) (db : Db) (row : Event)
    → In row db.events
    → IsTidy db
    → IsTidy (move_logged env status row db).1
unfolding move_logged
move_logged-IsTidy env draft db row m v =
    then_log (unpublish_event row) Action.event_unpublish db (unpublish-IsTidy row db m v)
move_logged-IsTidy env published db row m v =
    then_log (republish_event env row) Action.event_republish db (republish-IsTidy env row db m v)

pub choose :
    {A : Type 0} (b : Bool) (m n : Exec Db Error A) (db : Db)
    → IsTidy (m db).1
    → IsTidy (n db).1
    → IsTidy ((if b then m else n) db).1
choose true m n db hm hn = hm
choose false m n db hm hn = hn

pub status_request :
    (env : Platform) (pk : ℕ) (status : PublishStatus)
    → Preserves IsTidy (set_publish_status env pk status)
unfolding set_publish_status set_found
status_request env pk status = on_event pk (set_found env status) (λ db e m v.
    choose (has_status status e) (pure e) (move_logged env status e) db v
      (move_logged-IsTidy env status db e m v))

pub toggle_request :
    (env : Platform) (pk : ℕ) → Preserves IsTidy (staff_event_toggle_publish env pk)
unfolding staff_event_toggle_publish toggle_found
toggle_request env pk =
    on_event pk (toggle_found env) (λ db e m v. move_logged-IsTidy env (opposite e) db e m v)

pub verify_request : (pk now : ℕ) → Preserves IsTidy (staff_event_verify pk now)
unfolding staff_event_verify verify_found
verify_request pk now = on_event pk (verify_found now) (λ db e m v.
    then_log (mark_event_verified e now) Action.event_verify db (verified-IsTidy e now db m v))

unpublish_one-IsTidy : (pk : ℕ) (db : Db) → IsTidy db → IsTidy (unpublish_one pk db).1
unfolding unpublish_one unpublish_found
unpublish_one-IsTidy pk = on_event pk unpublish_found (λ db e m v.
    choose (is_published e.publish_status) (unpublish_event e >>= log_event Action.event_unpublish)
      (pure e) db
      (then_log (unpublish_event e) Action.event_unpublish db (unpublish-IsTidy e db m v)) v)

pub bulk_request : (pks : List ℕ) (db : Db) → IsTidy db → IsTidy (bulk_unpublish pks db).1
unfolding bulk_unpublish
bulk_request [] db v = v
bulk_request (pk ∷ pks) db v =
    bulk_request pks (unpublish_one pk db).1 (unpublish_one-IsTidy pk db v)

pub delete_request :
    (references : ℕ → References) (pk : ℕ) → Preserves IsTidy (staff_event_delete references pk)
unfolding staff_event_delete delete_found
delete_request references pk = on_event pk (delete_found references) (λ db e m v.
    Preserves-bind IsTidy (log_action Action.event_delete (Target.event e.pk))
      (λ u. delete_event references e) (log-IsTidy Action.event_delete (Target.event e.pk))
      (λ u. delete-IsTidy references e) db v)
