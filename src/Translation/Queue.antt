-- ===== src/Translation/Queue.antt =====
-- The queue of events/translation_queue.py: `pending_events`, `queue_report` and
-- `submit_translation`, without what they log.
use takulife.Common.{
  ℕ, zero, suc, ◌+◌, ◌-◌, Bool, true, false, not, ◌&&◌, ◌||◌, Option, none, some, List, [], ◌∷◌,
  ◌++◌, ◌==◌, String, first, exists, update, is_some, if◌then◌else◌,
}
use takulife.Common.Exec.{Result, ok, err, Exec, pure, gets, modify, raise_if, atomic, ◌>>=◌, ◌>>◌}
use takulife.Translation.Model.{
  Language, en, ja, zh_hans, PerLanguage, Fields, Stored, Event, Translations, Error, not_found,
  manual_locked, stale_source, Outcome, already_current, saved, Rules,
}
use takulife.Translation.Rules.{at_language, hash_matches, Validated, validate_translations}
pub mod Report
pub mod Submitted

-- `stored.get("manual")`
abbrev pub manual_of : Option Stored → Bool
manual_of none = false
manual_of (some s) = s.manual

-- `stored.get("source_hash") == current_hash`
abbrev pub hash_is : ℕ → Option Stored → Bool
hash_is h none = false
hash_is h (some s) = hash_matches s.source_hash h

abbrev pub is_manual : Event → Bool
is_manual e = manual_of e.text_translations

abbrev pub is_current : Rules → Event → Bool
is_current rules e = hash_is (rules.source_hash e.fields) e.text_translations

-- What the loop of `pending_events` appends for an event.
abbrev pub is_pending : Rules → Event → Bool
is_pending rules e = e.is_published && not (is_manual e) && not (is_current rules e)

pub record Item : Type 0 where
  pub event_id : ℕ
  pub source_hash : ℕ
  pub fields : Fields

abbrev pub item_of : Rules → Event → Item
item_of rules e = record {
  event_id = e.pk;
  source_hash = rules.source_hash e.fields;
  fields = e.fields;
}

abbrev pub pending_limit : ℕ
pending_limit = 20

-- The loop ends when the limit is reached.
unfoldable pub pending_events : Rules → ℕ → List Event → List Item
pending_events rules zero es = []
pending_events rules (suc room) [] = []
pending_events rules (suc room) (e ∷ es) =
    let skipped = pending_events rules (suc room) es in
    let taken = pending_events rules room es in
    if is_pending rules e then item_of rules e ∷ taken else skipped

-- `counts`, where `quarantined` counts an event once for each language
pub record Counts : Type 0 where
  pub published : ℕ
  pub pending : ℕ
  pub up_to_date : ℕ
  pub manual : ℕ
  pub quarantined_en : ℕ
  pub quarantined_ja : ℕ
  pub quarantined_zh_hans : ℕ

abbrev pub no_counts : Counts
no_counts = record {
  published = 0;
  pending = 0;
  up_to_date = 0;
  manual = 0;
  quarantined_en = 0;
  quarantined_ja = 0;
  quarantined_zh_hans = 0;
}

abbrev pub one_if : Bool → ℕ
one_if b = if b then 1 else 0

-- `stored.get(language) is None`
abbrev pub is_missing : Language → Event → Bool
is_missing l e = elim e.text_translations [
  | none ↦ true
  | some s ↦ not (is_some (at_language s.languages l))
]

abbrev pub counted_current : Event → Counts → Counts
counted_current e c = record c {
  up_to_date = c.up_to_date + 1;
  quarantined_en = c.quarantined_en + one_if (is_missing en e);
  quarantined_ja = c.quarantined_ja + one_if (is_missing ja e);
  quarantined_zh_hans = c.quarantined_zh_hans + one_if (is_missing zh_hans e);
}

abbrev pub counted_kind : Rules → Event → Counts → Counts
counted_kind rules e c =
    if is_manual e
    then record c { manual = c.manual + 1 }
    else if not (is_current rules e)
    then record c { pending = c.pending + 1 }
    else counted_current e c

abbrev pub counted : Rules → Event → Counts → Counts
counted rules e c =
    if e.is_published then counted_kind rules e (record c { published = c.published + 1 }) else c

-- The loop of `queue_report`, with what is counted so far
unfoldable pub report_from : Rules → Counts → List Event → Counts
report_from rules c [] = c
report_from rules c (e ∷ es) = report_from rules (counted rules e c) es

unfoldable pub queue_report : Rules → List Event → Counts
unfolding report_from
queue_report rules es = report_from rules no_counts es

-- `pk=event_id, publish_status=PUBLISHED`
abbrev pub is_row : ℕ → Event → Bool
is_row pk e = e.pk == pk && e.is_published

abbrev pub found : Option Event → Exec (List Event) Error Event
found none db = (err not_found, db)
found (some e) db = (ok e, db)

-- The languages that are not quarantined, in the order of `TARGET_LANGUAGES`.
abbrev pub named_if : Option String → Language → List Language
named_if none l = l ∷ []
named_if (some reason) l = []

abbrev pub saved_languages : PerLanguage (Option String) → List Language
saved_languages q = named_if q.in_en en ++ named_if q.in_ja ja ++ named_if q.in_zh_hans zh_hans

abbrev pub outcome_of : Validated → Outcome
outcome_of v = saved (saved_languages v.quarantined) v.quarantined

abbrev pub translated : Rules → Validated → Event → Event
translated rules v e = record e {
  text_translations = some (record {
    source_hash = some (rules.source_hash e.fields);
    manual = false;
    languages = v.languages;
  });
}

-- `event.save(update_fields=["text_translations"])` of the locked row
unfoldable pub write_event : Event → Exec (List Event) Error (Unit {0})
unfolding update
write_event e =
    modify (
      update (λ row. row.pk == e.pk)
        (λ row. record row { text_translations = e.text_translations }))

unfoldable pub store_translation : Rules → Event → Validated → Exec (List Event) Error Outcome
unfolding write_event
store_translation rules e v = do write_event (translated rules v e); pure (outcome_of v)

abbrev pub validated : Rules → Event → Translations → Exec (List Event) Error Validated
validated rules e translations = λ db. (validate_translations rules e.fields translations, db)

unfoldable pub submit_stale : Rules → Translations → Event → Exec (List Event) Error Outcome
unfolding validate_translations store_translation
submit_stale rules translations e = validated rules e translations >>= store_translation rules e

unfoldable pub submit_found : Rules → ℕ → Translations → Event → Exec (List Event) Error Outcome
unfolding submit_stale
submit_found rules source_hash translations e = do
  raise_if (is_manual e) manual_locked
  raise_if (not (source_hash == rules.source_hash e.fields)) stale_source
  if is_current rules e then pure already_current else submit_stale rules translations e

-- `_submit_translation_locked`, which `submit_translation` calls
unfoldable pub submit_translation : Rules → ℕ → ℕ → Translations → Exec (List Event) Error Outcome
unfolding first submit_found
submit_translation rules event_id source_hash translations = atomic (do
  row ← gets (first (is_row event_id))
  e ← found row
  submit_found rules source_hash translations e)
