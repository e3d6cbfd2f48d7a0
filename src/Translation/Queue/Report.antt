-- ===== src/Translation/Queue/Report.antt =====
-- `pending_events` against `queue_report` of events/translation_queue.py.
use takulife.Common.{
  ℕ, zero, suc, ◌+◌, Bool-cases, List, [], ◌∷◌, ◌≡◌, refl, inl, inr, arith, min, length,
  if◌then◌else◌,
}
use takulife.Translation.Model.{Event, Rules}
use takulife.Translation.Queue.{
  pending_events, queue_report, report_from, Counts, counted, is_pending, is_manual, is_current,
  no_counts, one_if,
}

-- The pending events of a list, as `is_pending` finds them.
unfoldable pub count_pending : Rules → List Event → ℕ
count_pending rules [] = 0
count_pending rules (e ∷ es) =
    let rest = count_pending rules es in if is_pending rules e then suc rest else rest

pending_events-length :
    (rules : Rules) (room : ℕ) (es : List Event)
    → length (pending_events rules room es) ≡ min room (count_pending rules es)
unfolding pending_events count_pending
pending_events-length rules zero es = grind arith
pending_events-length rules (suc room) [] = omega arith
pending_events-length rules (suc room) (e ∷ es) =
    ground (arith, pending_events-length rules (suc room) es, pending_events-length rules room es)

abbrev Balanced : Counts → Type 0
Balanced c = c.published ≡ c.pending + c.up_to_date + c.manual

counted-Balanced :
    (rules : Rules) (e : Event) (c : Counts)
    → Balanced c
    → Balanced (counted rules e c)
      × ((counted rules e c).pending ≡ c.pending + one_if (is_pending rules e))
counted-Balanced rules e c h = elim (Bool-cases e.is_published) [
  | inr p ↦ rw (p) (h, omega arith)
  | inl p ↦ elim (Bool-cases (is_manual e)) [
    | inl m ↦ rw (p, m) (omega arith, omega arith)
    | inr m ↦ elim (Bool-cases (is_current rules e)) [
      | inl k ↦ rw (p, m, k) (omega arith, omega arith)
      | inr k ↦ rw (p, m, k) (omega arith, omega arith)
    ]
  ]
]

report_from-Balanced :
    (rules : Rules) (c : Counts) (es : List Event)
    → Balanced c
    → Balanced (report_from rules c es)
      × ((report_from rules c es).pending ≡ c.pending + count_pending rules es)
unfolding report_from count_pending
report_from-Balanced rules c [] h = (h, omega arith)
report_from-Balanced rules c (e ∷ es) h =
    let (b, n) = counted-Balanced rules e c h in
    let (b', n') = report_from-Balanced rules (counted rules e c) es b in
    (
      b',
      elim (Bool-cases (is_pending rules e)) [
        | inl p ↦ ground (arith, n, n')
        | inr p ↦ ground (arith, n, n')
      ],
    )

-- The queue hands out as many events as its report counts as pending, up to the limit; and the
-- published events of the report are the pending, the current and the manual ones.
pub pending_events-queue_report :
    (rules : Rules) (limit : ℕ) (es : List Event)
    → (length (pending_events rules limit es) ≡ min limit (queue_report rules es).pending)
      × ((queue_report rules es).published
          ≡ (queue_report rules es).pending
            + (queue_report rules es).up_to_date
            + (queue_report rules es).manual)
unfolding queue_report
pending_events-queue_report rules limit es =
    let (b, n) = report_from-Balanced rules no_counts es refl in
    (ground (arith, n, pending_events-length rules limit es), b)
