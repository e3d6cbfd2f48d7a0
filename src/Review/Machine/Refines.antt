-- ===== src/Review/Machine/Refines.antt =====
-- Each function of drafts/services.py is a step of the abstract machine.
use mathlib.Core.Path.{fun_ext}
use mathlib.Core.List.{map-append}
use takulife.Common.{
  ℕ, ◌<◌, not, some, List, [], ◌∷◌, ◌++◌, map, ◌≡◌, refl, sym, subst, ap, ◌∙◌, inl, inr, All, first,
  exists, update, Bool-cases, ◌==◌, ==_iff, strip,
}
use mathlib.Core.Option
use takulife.Common.Exec.{
  Result, ok, err, Exec, raise_if, atomic, post-bind, post-raise_if, ◌>>=◌, ◌>>◌,
}
use takulife.Publishing.Model as Publishing
use takulife.Publishing.Model.{Event, data_error}
use takulife.Publishing.Events.{create_published_event}
use takulife.Publishing.Events.Created.{Created, create-Created}
use takulife.Review.Model.{
  pending, Payload, Draft, Db, Error, Update, Platform, draft_immutable_field, draft_vocab,
  uncaught,
}
use takulife.Review.Drafts.{
  has_pk, get_draft_for_update, is_other, category_update_invalid, region_update_invalid, set_field,
  set_fields, with_payload, update_found, update_pending, update_known, update_draft, fields_of,
  answered, on_site, as_approved, mark_approved, approve_found, approve_draft, save_as,
}
use takulife.Review.Machine.{
  Review, View, review, set, Step, stay, Steps, here, next, review_of, lookup_review, official_url,
  view, Request, handle, handle_all,
}
use takulife.Review.Machine.Simulates.{
  IsNumbered, Simulates, stays, get_then, Simulates-atomic, create-Simulates, rewritten,
  rewritten-IsNumbered, known, renewed, reject-Simulates, reopen-Simulates,
}

-- No entry of `updates` names the source address.
set_field-source : (u : Update) (p : Payload) → (set_field u p).source_url ≡ p.source_url
set_field-source (Update.source_name value) p = refl
set_field-source (Update.extracted_title value) p = refl
set_field-source (Update.extracted_category value) p = refl
set_field-source (Update.extracted_work_title value) p = refl
set_field-source (Update.extracted_location_name value) p = refl
set_field-source (Update.extracted_region value) p = refl
set_field-source (Update.extracted_start_date value) p = refl
set_field-source (Update.extracted_end_date value) p = refl
set_field-source (Update.extracted_summary value) p = refl
set_field-source (Update.other name) p = refl

set_fields-source : (us : List Update) (p : Payload) → (set_fields us p).source_url ≡ p.source_url
unfolding set_fields
set_fields-source [] p = refl
set_fields-source (u ∷ us) p = set_fields-source us (set_field u p) ∙ set_field-source u p

-- An edit that keeps the source address is not seen by the machine.
edited :
    (pk : ℕ) (q : Payload) (d : Draft) (ds : List Draft)
    → first (has_pk pk) ds ≡ some d
    → q.source_url ≡ d.payload.source_url
    → lookup_review (update (has_pk d.pk) (with_payload q) ds) ≡ lookup_review ds
edited pk q d ds h e =
    let seen : lookup_review ds pk ≡ some (review_of d) = ap (Option.map review_of) h in
    let same : review_of (with_payload q d) ≡ review_of d = ap (review d.review_status) e in
    renewed pk (with_payload q) d ds (λ x. refl) h
    ∙ fun_ext λ p. unchanged p (review_of (with_payload q d)) (seen ∙ ap some (sym same))
  where
    unchanged :
        (p : ℕ) (r : Review)
        → lookup_review ds pk ≡ some r
        → set (lookup_review ds) pk r p ≡ lookup_review ds p
    unchanged p r k = elim (Bool-cases (p == pk)) [
      | inl t ↦ rw t (sym k ∙ ap (lookup_review ds) (sym ((==_iff p pk).0 t)))
      | inr t ↦ rw t refl
    ]

update_found-Simulates :
    (env : Platform) (pk : ℕ) (updates : List Update) (d : Draft) (db : Db)
    → IsNumbered db
    → first (has_pk pk) db.drafts ≡ some d
    → Simulates db (update_found env updates d db)
unfolding update_found
update_found-Simulates env pk updates d db v h =
    let q = set_fields updates d.payload in
    post-raise_if (Simulates {A = Draft} db) (not (env.draft_fits q)) (uncaught data_error)
      (save_as (with_payload q) d) db (λ t. stays db v)
      (λ t. (
        rewritten-IsNumbered d.pk (with_payload q) db (λ x. refl) v,
        stay (
            ap (λ r. record { reviews = r; official_urls = map official_url db.site.events })
              (edited pk q d db.drafts h (set_fields-source updates d.payload))),
      ))

update-Simulates :
    (env : Platform) (pk : ℕ) (updates : List Update) (db : Db)
    → IsNumbered db
    → Simulates db (update_draft env pk updates db)
unfolding update_draft update_known update_pending save_as
update-Simulates env pk updates db v =
    let invalid = category_update_invalid updates db.site in
    let judged = get_draft_for_update pk pending >>= update_found env updates in
    post-raise_if (Simulates {A = Draft} db) (exists is_other updates) draft_immutable_field
      (λ s. update_known env pk updates (category_update_invalid updates s.site) s) db
      (λ t. stays db v)
      (λ t.
        post-raise_if (Simulates {A = Draft} db) invalid draft_vocab
          (raise_if (region_update_invalid updates) draft_vocab >> atomic judged) db
          (λ t'. stays db v)
          (λ t'.
            post-raise_if (Simulates {A = Draft} db) (region_update_invalid updates) draft_vocab
              (atomic judged) db (λ s. stays db v)
              (λ s. Simulates-atomic judged db v (
                get_then pk pending (update_found env updates) db v
                  (λ d h e. update_found-Simulates env pk updates d db v h)))))

-- The outcome of the publisher, seen from the drafts.
abbrev Published : Payload → Db → Result Error Event × Db → Type 0
Published p db x = (x.1.drafts ≡ db.drafts) × (x.1.next_draft ≡ db.next_draft) × elim x.0 [
  | err e ↦ map official_url x.1.site.events ≡ map official_url db.site.events
  | ok row ↦
      map official_url x.1.site.events
      ≡ map official_url db.site.events ++ some (strip p.source_url) ∷ []
]

answered-Published :
    (p : Payload) (db : Db) (x : Result Publishing.Error Event × Publishing.Db)
    → Created (fields_of p) (strip p.source_url) db.site x
    → Published p db (answered db x)
answered-Published p db (err e, site) h =
    (refl, refl, ap (λ (s : Publishing.Db). map official_url s.events) h)
answered-Published p db (ok row, site) h = (
  refl,
  refl,
  ap (map official_url) h.0
      ∙ map-append official_url db.site.events (row ∷ [])
      ∙ ap (λ (e : Event). map official_url db.site.events ++ official_url e ∷ []) h.1,
)

-- Where the publisher raises, the machine sees nothing.
failed :
    (db s : Db)
    → IsNumbered db
    → s.drafts ≡ db.drafts
    → s.next_draft ≡ db.next_draft
    → map official_url s.site.events ≡ map official_url db.site.events
    → IsNumbered s × Step (view db) (view s)
failed db s v drafts bound urls = (
  subst (λ n. All (λ (d : Draft). d.pk < n) s.drafts) (sym bound)
      (subst (λ ds. All (λ (d : Draft). d.pk < db.next_draft) ds) (sym drafts) v),
  stay (λ i. record { reviews = lookup_review (drafts i); official_urls = urls i }),
)

-- Where it publishes the address of a pending draft, the draft is approved.
judged :
    (pk actor now : ℕ) (d : Draft) (db s : Db)
    → IsNumbered db
    → first (has_pk pk) db.drafts ≡ some d
    → d.review_status ≡ pending
    → s.drafts ≡ db.drafts
    → s.next_draft ≡ db.next_draft
    → map official_url s.site.events
      ≡ map official_url db.site.events ++ some (strip d.payload.source_url) ∷ []
    → IsNumbered (rewritten d.pk (as_approved actor now) s)
      × Step (view db) (view (rewritten d.pk (as_approved actor now) s))
judged pk actor now d db s v h e drafts bound urls =
    let f = as_approved actor now in
    (
      subst (λ n. All (λ (x : Draft). x.pk < n) (update (has_pk d.pk) f s.drafts)) (sym bound)
          (subst (λ ds. All (λ (x : Draft). x.pk < db.next_draft) (update (has_pk d.pk) f ds))
            (sym drafts) (rewritten-IsNumbered d.pk f db (λ x. refl) v)),
      Step.approve pk d.payload.source_url (known pk pending d db.drafts h e)
          (ap (λ ds. lookup_review (update (has_pk d.pk) f ds)) drafts
            ∙ renewed pk f d db.drafts (λ x. refl) h)
          urls,
    )

approve_found-Simulates :
    (env : Platform) (pk actor now : ℕ) (d : Draft) (db : Db)
    → IsNumbered db
    → first (has_pk pk) db.drafts ≡ some d
    → d.review_status ≡ pending
    → Simulates db (approve_found env actor now d db)
unfolding approve_found
approve_found-Simulates env pk actor now d db v h e =
    post-bind (Simulates {A = Draft × ℕ} db) publish (mark_approved actor now d) db
      (λ x s q. let o = subst (Published d.payload db) q outcome in failed db s v o.0 o.1 o.2)
      (λ row s q.
        let o = subst (Published d.payload db) q outcome in
        judged pk actor now d db s v h e o.0 o.1 o.2)
  where
    publish : Exec Db Error Event
    publish = on_site (create_published_event env.publisher (fields_of d.payload))

    outcome : Published d.payload db (publish db)
    outcome =
        answered-Published d.payload db
          (create_published_event env.publisher (fields_of d.payload) db.site)
          (create-Created env.publisher (fields_of d.payload) db.site)

approve-Simulates :
    (env : Platform) (pk actor now : ℕ) (db : Db)
    → IsNumbered db
    → Simulates db (approve_draft env pk actor now db)
unfolding approve_draft
approve-Simulates env pk actor now db v =
    Simulates-atomic (get_draft_for_update pk pending >>= approve_found env actor now) db v (
      get_then pk pending (approve_found env actor now) db v
        (λ d h e. approve_found-Simulates env pk actor now d db v h e))

handle-Simulates :
    (env : Platform) (r : Request) (db : Db)
    → IsNumbered db
    → IsNumbered (handle env r db) × Step (view db) (view (handle env r db))
unfolding handle
handle-Simulates env (Request.create payload) db v = create-Simulates env payload db v
handle-Simulates env (Request.edit pk updates) db v = update-Simulates env pk updates db v
handle-Simulates env (Request.approve pk actor now) db v = approve-Simulates env pk actor now db v
handle-Simulates env (Request.reject pk actor now reason) db v =
    reject-Simulates pk actor now reason db v
handle-Simulates env (Request.reopen pk now) db v = reopen-Simulates pk now db v

before : {s t u : View} → Step s t → Steps t u → Steps s u
before st here = next here st
before st (next r st') = next (before st r) st'

-- From a state in which the drafts' primary keys are below the next one, any sequence of service
-- calls on drafts, each of which may fail, leads to such a state, by a sequence of steps
-- of the machine of reviews: a draft is submitted as pending, is rejected from pending, reopened
-- from rejected, or approved from pending, and exactly with an approval its stripped source address
-- is published as one more event.
pub handle_all-refines :
    (env : Platform) (rs : List Request) (db : Db)
    → IsNumbered db
    → IsNumbered (handle_all env rs db) × Steps (view db) (view (handle_all env rs db))
unfolding handle_all
handle_all-refines env [] db v = (v, here)
handle_all-refines env (r ∷ rs) db v =
    let (w, step) = handle-Simulates env r db v in
    let (w', steps) = handle_all-refines env rs (handle env r db) w in (w', before step steps)
