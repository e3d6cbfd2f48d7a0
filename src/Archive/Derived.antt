-- ===== src/Archive/Derived.antt =====
-- `with_derived_status` of archive/querysets.py: the status that a user sees.
use takulife.Common.{
  ℕ, Bool, true, false, not, ◌&&◌, Option, none, some, List, ◌==◌, ltb, exists, same_key, clashes,
  if◌then◌else◌,
}
pub mod Laws
use takulife.Archive.Model.{Db, Status, planned, visited, missed, StatusRow, VisitRecord}

-- `Exists(VisitRecord.objects.filter(user=..., event=...))`: a row without an event matches none.
unfoldable pub has_event_visit : StatusRow → Db → Bool
unfolding exists
has_event_visit row db =
    exists (λ (v : VisitRecord). v.user == row.user && clashes v.event row.event) db.visits

-- `event__end_date__isnull=False, event__end_date__lt=today`; `end_date` are the events' end dates.
abbrev pub has_ended : (ℕ → Option ℕ) → Option ℕ → ℕ → Bool
has_ended end_date none today = false
has_ended end_date (some event) today = elim (end_date event) [
  | none ↦ false
  | some day ↦ ltb day today
]

unfoldable pub derived_status : (ℕ → Option ℕ) → ℕ → Db → StatusRow → Status
unfolding has_event_visit
derived_status end_date today db row = elim row.status [
  | visited ↦ visited
  | missed ↦ missed
  | planned ↦
      if not (has_event_visit row db)
        && not row.missed_overridden
        && has_ended end_date row.event today
      then missed
      else planned
]
