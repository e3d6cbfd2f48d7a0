-- ===== src/Publishing/Events/Stored.antt =====
-- The deletion of an event keeps the constraints of the stored state: events/services.py.
use takulife.Common.{◌<◌, not, All-select, DistinctKeys-select, DistinctValues-select}
use takulife.Publishing.Model.{Event}
use takulife.Publishing.Events.{has_pk, hard_delete_event}
use takulife.Publishing.Events.Valid.{Keeps, pk_of, url_of}

pub Keeps-hard_delete : (event : Event) → Keeps (hard_delete_event event)
unfolding hard_delete_event
Keeps-hard_delete event db v = record {
  keys = DistinctKeys-select pk_of (λ e. not (has_pk event.pk e)) db.events v.keys;
  below =
      All-select (λ (e : Event). e.pk < db.next_id) (λ e. not (has_pk event.pk e)) db.events
        v.below;
  urls = DistinctValues-select url_of (λ e. not (has_pk event.pk e)) db.events v.urls;
  table = v.table;
}
