-- ===== src/Translation/Queue/Submitted.antt =====
-- What `submit_translation` of events/translation_queue.py leaves, and what `select_display` of
-- events/content_translation.py shows then.
use takulife.Common.{
  ℕ, true, false, Bool-cases, Option, Option-cases, some, List, [], ◌∷◌, ◌≡◌, refl, sym, subst,
  arith, inl, inr, ◌==◌, ==_refl, some-injective, first, update,
}
use takulife.Common.Exec.{Result, ok, err, atomic, ok-injective, atomic_ok, ◌>>=◌}
use takulife.Translation.Model.{
  Language, en, ja, zh_hans, Fields, Stored, Event, Translations, Error, Outcome, already_current,
  saved, Rules,
}
use takulife.Translation.Rules.{
  Validated, validate_translations, select_display, shown, kept_at, has_schema, any_nul, each,
  reason_at,
}
use takulife.Translation.Queue.{
  is_row, is_manual, is_current, translated, found, write_event, store_translation, submit_found,
  submit_translation,
}

-- The event is found under its number, before and after, with the same fields.
module _ (rules : Rules) (pk source_hash : ℕ) (tr : Translations) where
  -- In each language the event shows the translation that was submitted, normalized, or its own
  -- fields where the rules quarantine it.
  abbrev pub Shows : Event → Type 0
  Shows e =
      (l : Language)
      → select_display rules e.fields e.text_translations (some l)
        ≡ shown e.fields (kept_at rules e.fields tr l)

  abbrev pub Settled : Outcome → Event → Event → Type 0
  Settled already_current before after = after ≡ before
  Settled (saved languages quarantined) before after =
      (after.fields ≡ before.fields)
      × Shows after
      × (quarantined ≡ each (reason_at rules before.fields tr))

  abbrev pub Submitted : List Event → Result Error Outcome × List Event → Type 0
  Submitted db x = elim x.0 [
    | err e ↦ x.1 ≡ db
    | ok o ↦
        (before : Event) × (after : Event) × (first (is_row pk) db ≡ some before)
        × (first (is_row pk) x.1 ≡ some after)
        × Settled o before after
        × (is_current rules after ≡ true)
        × (submit_translation rules pk source_hash tr x.1 ≡ (ok already_current, x.1))
  ]

  -- A row that is current, not manual, and has the hash that is sent.
  again :
      (db : List Event) (e : Event)
      → first (is_row pk) db ≡ some e
      → is_manual e ≡ false
      → (source_hash == rules.source_hash e.fields) ≡ true
      → is_current rules e ≡ true
      → submit_translation rules pk source_hash tr db ≡ (ok already_current, db)
  unfolding submit_translation submit_found
  again db e f m h c =
      subst
        (λ (o : Option Event).
          atomic (found o >>= λ e. submit_found rules source_hash tr e) db
          ≡ (ok already_current, db))
        (sym f) (atomic_ok (submit_found rules source_hash tr e) {s = db} (rw (m, h, c) refl))

  abbrev result : Fields → Validated
  result source = record {
    languages = each (kept_at rules source tr);
    quarantined = each (reason_at rules source tr);
  }

  valid_lem :
      (source : Fields) (v : Validated)
      → validate_translations rules source tr ≡ ok v
      → result source ≡ v
  unfolding validate_translations
  valid_lem source v h = elim (Bool-cases (has_schema tr)) [
    | inr s ↦ ground (arith, rw s at h)
    | inl s ↦ elim (Bool-cases (any_nul tr)) [
      | inl n ↦ ground (arith, rw (s, n) at h)
      | inr n ↦ ok-injective (rw (s, n) at h)
    ]
  ]

  Shows-result : (e : Event) → Shows (translated rules (result e.fields) e)
  unfolding select_display
  Shows-result e en = rw (==_refl (rules.source_hash e.fields)) refl
  Shows-result e ja = rw (==_refl (rules.source_hash e.fields)) refl
  Shows-result e zh_hans = rw (==_refl (rules.source_hash e.fields)) refl

  shows :
      (e : Event) (v : Validated)
      → validate_translations rules e.fields tr ≡ ok v
      → Shows (translated rules v e) × (v.quarantined ≡ each (reason_at rules e.fields tr))
  shows e v h =
      subst
        (λ (w : Validated).
          Shows (translated rules w e) × (w.quarantined ≡ each (reason_at rules e.fields tr)))
        (valid_lem e.fields v h) (Shows-result e, refl)

-- The row that is written, found again.
first-write :
    (pk : ℕ) (e : Event) (o : Option Stored) (db : List Event)
    → first (is_row pk) db ≡ some e
    → first
        (is_row pk)
        (update (λ row. row.pk == e.pk) (λ row. record row { text_translations = o }) db)
      ≡ some (record e { text_translations = o })
unfolding first update
first-write pk e o [] h = cc
first-write pk e o (x ∷ db) h = elim (Bool-cases (is_row pk x)) [
  | inl t ↦
      let same : x ≡ e = some-injective (rw (first, t) at h) in
      subst
        (λ (y : Event).
          first (is_row pk) (
            update (λ (row : Event). row.pk == y.pk) (λ row. record row { text_translations = o })
              (x ∷ db))
          ≡ some (record y { text_translations = o }))
        same (rw (==_refl x.pk, t) refl)
  | inr f ↦ ground (arith, f, h, first-write pk e o db)
]

module _ (rules : Rules) (pk source_hash : ℕ) (tr : Translations) where
  validated-Submitted :
      (db : List Event) (e : Event) (r : Result Error Validated)
      → validate_translations rules e.fields tr ≡ r
      → first (is_row pk) db ≡ some e
      → is_manual e ≡ false
      → (source_hash == rules.source_hash e.fields) ≡ true
      → Submitted rules pk source_hash tr db
          (atomic ((λ s. (r, s)) >>= store_translation rules e) db)
  unfolding store_translation write_event
  validated-Submitted db e (err x) g f m h = refl
  validated-Submitted db e (ok v) g f m h =
      let written = first-write pk e (translated rules v e).text_translations db f in
      let (show, reasons) = shows rules pk source_hash tr e v g in
      let current = ==_refl (rules.source_hash e.fields) in
      (
        e,
        translated rules v e,
        f,
        written,
        (refl, show, reasons),
        current,
        again rules pk source_hash tr (store_translation rules e v db).1 (translated rules v e)
            written refl h current,
      )

  -- The part after the row is found.
  found-Submitted :
      (db : List Event) (e : Event)
      → first (is_row pk) db ≡ some e
      → Submitted rules pk source_hash tr db (atomic (submit_found rules source_hash tr e) db)
  unfolding submit_found
  found-Submitted db e f = elim (Bool-cases (is_manual e)) [
    | inl m ↦ rw (m) refl
    | inr m ↦ elim (Bool-cases (source_hash == rules.source_hash e.fields)) [
      | inr h ↦ rw (m, h) refl
      | inl h ↦ elim (Bool-cases (is_current rules e)) [
        | inl c ↦ rw (m, h, c) (e, e, f, f, refl, c, again rules pk source_hash tr db e f m h c)
        | inr c ↦
            rw (m, h, c)
              (validated-Submitted db e (validate_translations rules e.fields tr) refl f m h)
      ]
    ]
  ]

  -- A submission that is refused stores nothing. One that is accepted is for a published event
  -- that has the same fields afterwards and is current then, and the same submission again is
  -- answered as already current and stores nothing. Where it was saved, `select_display` shows in
  -- each language the translation that was submitted, normalized, or the event's own fields where
  -- the rules quarantine it, and the outcome names their reasons; where it was not, the event was
  -- already current, and is unchanged.
  pub submit-Submitted :
      (db : List Event)
      → Submitted rules pk source_hash tr db (submit_translation rules pk source_hash tr db)
  unfolding submit_translation
  submit-Submitted db = elim (Option-cases (first (is_row pk) db)) [
    | inl n ↦
        subst
          (λ (o : Option Event).
            Submitted rules pk source_hash tr db
              (atomic (found o >>= λ e. submit_found rules source_hash tr e) db))
          (sym n) refl
    | inr (e, f) ↦
        subst
          (λ (o : Option Event).
            Submitted rules pk source_hash tr db
              (atomic (found o >>= λ e. submit_found rules source_hash tr e) db))
          (sym f) (found-Submitted db e f)
  ]
