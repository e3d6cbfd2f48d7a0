-- ===== src/Archive/Items/Laws.antt =====
-- The quantities of collection items, and the link of an item to a visit record.
use takulife.Common.{
  ℕ, ◌≡◌, refl, sym, ap, ◌∙◌, subst, true, false, ◌==◌, ◌↔◌, Option, none, some, List, [], ◌∷◌,
  post-if, first, same_key, or_else, arith,
}
use takulife.Common.Exec.{Result, ok, err}
use takulife.Archive.Model.{Db, Error, validation, VisitRecord, CollectionItem}
use takulife.Archive.Items.{quantity_errors, breaks_check, is_foreign}
use takulife.Archive.Items.Update.{checked_event, linked, event_of_link, event_alone_differs}

-- The service's check of the quantities finds no error exactly where the constraints of the table
-- hold.
quantity_errors-breaks_check :
    (i : CollectionItem)
    → (quantity_errors i.quantity i.tradeable_quantity ≡ []) ↔ (breaks_check i ≡ false)
quantity_errors-breaks_check i = ground arith

-- The item's event is the event of the visit record that it is linked to.
abbrev pub InSync : List VisitRecord → CollectionItem → Type 0
InSync vs i =
    (id : ℕ)
    → i.visit_record ≡ some id
    → (v : VisitRecord) → first (λ (r : VisitRecord). r.id == id) vs ≡ some v
    → i.event ≡ v.event

-- The visit record that a request links to is a row of the table.
abbrev pub IsRow : List VisitRecord → Option (Option VisitRecord) → Type 0
IsRow vs none = Unit
IsRow vs (some none) = Unit
IsRow vs (some (some v)) = first (λ (r : VisitRecord). r.id == v.id) vs ≡ some v

same_key→≡ : (a b : Option ℕ) → same_key a b ≡ true → a ≡ b
same_key→≡ a b h = ground arith

-- What the checks of the link let through: an event that fits the link.
abbrev pub Fits :
    CollectionItem → Option (Option VisitRecord) → List VisitRecord → Option (Option ℕ) → Type 0
Fits before link vs event =
    (id : ℕ)
    → linked before.visit_record link ≡ some id
    → (v : VisitRecord) → first (λ (r : VisitRecord). r.id == id) vs ≡ some v
    → or_else event before.event ≡ v.event

abbrev pub Checked :
    CollectionItem
    → Option (Option VisitRecord)
    → List VisitRecord
    → Result Error (Option (Option ℕ)) × Db
    → Type 0
Checked before link vs (err e, s) = Unit
Checked before link vs (ok event, s) = Fits before link vs event × (s.visits ≡ vs)

unlinked_patch :
    (before : CollectionItem) (event : Option (Option ℕ)) (db : Db) (id : ℕ) (v : VisitRecord)
    → InSync db.visits before
    → event_alone_differs before event db ≡ false
    → before.visit_record ≡ some id
    → first (λ (r : VisitRecord). r.id == id) db.visits ≡ some v
    → or_else event before.event ≡ v.event
unlinked_patch before none db id v sync same e there = sync id e v there
unlinked_patch before (some event) db id v sync same e there =
    same_key→≡ event v.event (ground (arith, same, e, there))

linked_patch :
    (before : CollectionItem) (link : Option VisitRecord) (event : Option (Option ℕ))
    (vs : List VisitRecord)
    → IsRow vs (some link)
    → Fits before (some link) vs (event_of_link link event)
linked_patch before none event vs row id e v there = cc
linked_patch before (some w) event vs row id e v there =
    let same : w.id ≡ id = ground (arith, e) in
    ap (λ (o : Option VisitRecord). elim o as (λ x. Option ℕ) [ none ↦ w.event | some r ↦ r.event ])
      (sym row ∙ subst (λ k. first (λ (r : VisitRecord). r.id == k) vs ≡ some v) (sym same) there)

pub checked_event-Checked :
    (before : CollectionItem) (link : Option (Option VisitRecord)) (event : Option (Option ℕ))
    (db : Db)
    → InSync db.visits before
    → IsRow db.visits link
    → Checked before link db.visits (checked_event before link event db)
unfolding checked_event
checked_event-Checked before none event db sync row =
    post-if (Checked before none db.visits) (event_alone_differs before event db)
      (err (validation ("event" ∷ [])), db) (ok event, db) (λ d. tt)
      (λ same. (λ id e v there. unlinked_patch before event db id v sync same e there, refl))
checked_event-Checked before (some link) event db sync row =
    post-if (Checked before (some link) db.visits) (is_foreign before.user link)
      (err (validation ("visit_record" ∷ [])), db) (ok (event_of_link link event), db) (λ d. tt)
      (λ same. (linked_patch before link event db.visits row, refl))
