-- ===== src/Review/Machine/Simulates.antt =====
-- The functions of drafts/services.py that create, reject and reopen a draft are steps of the
-- abstract machine.
use takulife.Common.{
  ℕ, ◌+◌, ◌<◌, Bool, true, false, not, Option, none, some, List, [], ◌∷◌, ◌≡◌, refl, sym, subst, ap,
  ◌∙◌, arith, All, All-mono, All-append, All-update, first, exists, update, Text,
}
use mathlib.Core.Option
use takulife.Common.Exec.{Result, Exec, atomic, post-atomic, post-raise_if, ◌>>=◌}
use takulife.Publishing.Model.{data_error}
use takulife.Review.Model.{
  ReviewStatus, pending, approved, rejected, Payload, Draft, Db, Error, Platform,
  draft_creation_duplicate, uncaught,
}
use takulife.Review.Drafts.{
  has_pk, has_source, new_draft, append_draft, insert_unique, create_draft, same_status, expected,
  expecting, get_draft_for_update, as_rejected, save_as, reject_draft, as_reopened, reopen_draft,
}
use takulife.Review.Machine.{review, set, Step, stay, submit, review_of, lookup_review, view}
use takulife.Review.Machine.Lookup.{lookup-update, lookup-append, lookup_unused}

-- The numbers of the drafts are below the next one.
abbrev pub IsNumbered : Db → Type 0
IsNumbered db = All (λ (d : Draft). d.pk < db.next_draft) db.drafts

-- What the machine sees of an action that ended in `x`.
abbrev pub Simulates : {A : Type 0} → Db → Result Error A × Db → Type 0
Simulates db x = IsNumbered x.1 × Step (view db) (view x.1)

pub stays : (db : Db) → IsNumbered db → IsNumbered db × Step (view db) (view db)
stays db v = (v, stay refl)

same_status-eq : (a b : ReviewStatus) → same_status a b ≡ true → b ≡ a
same_status-eq pending pending h = refl
same_status-eq pending approved h = cc
same_status-eq pending rejected h = cc
same_status-eq approved pending h = cc
same_status-eq approved approved h = refl
same_status-eq approved rejected h = cc
same_status-eq rejected pending h = cc
same_status-eq rejected approved h = cc
same_status-eq rejected rejected h = refl

expected_then :
    {A : Type 0} (b : Bool) (d : Draft) (f : Draft → Exec Db Error A) (db : Db)
    → IsNumbered db
    → (b ≡ true → Simulates db (f d db))
    → Simulates db ((expected b d >>= f) db)
expected_then true d f db v h = h refl
expected_then false d f db v h = stays db v

expect_then :
    {A : Type 0} (status : ReviewStatus) (row : Option Draft) (f : Draft → Exec Db Error A)
    (db : Db)
    → IsNumbered db
    → ((d : Draft) → row ≡ some d → d.review_status ≡ status → Simulates db (f d db))
    → Simulates db ((expecting status row >>= f) db)
expect_then status none f db v h = stays db v
expect_then status (some d) f db v h =
    expected_then (same_status status d.review_status) d f db v
      (λ e. h d refl (same_status-eq status d.review_status e))

-- A draft is looked up in the status that is expected, and the rest runs on it.
pub get_then :
    {A : Type 0} (pk : ℕ) (status : ReviewStatus) (f : Draft → Exec Db Error A) (db : Db)
    → IsNumbered db
    → ((d : Draft)
        → first (has_pk pk) db.drafts ≡ some d
        → d.review_status ≡ status
        → Simulates db (f d db))
    → Simulates db ((get_draft_for_update pk status >>= f) db)
unfolding get_draft_for_update
get_then pk status f db v h = expect_then status (first (has_pk pk) db.drafts) f db v h

pub Simulates-atomic :
    {A : Type 0} (m : Exec Db Error A) (db : Db)
    → IsNumbered db
    → Simulates db (m db)
    → Simulates db (atomic m db)
Simulates-atomic {A} m db v h =
    post-atomic (Simulates {A = A} db) m db (λ e s q. stays db v)
      (λ a s q. subst (Simulates {A = A} db) q h)

pub create-Simulates :
    (env : Platform) (payload : Payload) (db : Db)
    → IsNumbered db
    → Simulates db (create_draft env payload db)
unfolding create_draft
create-Simulates env payload db v =
    post-raise_if (Simulates {A = Draft} db) (not (env.draft_fits payload)) (uncaught data_error)
      (insert_unique payload) db (λ t. stays db v)
      (λ t.
        post-raise_if (Simulates {A = Draft} db) (exists (has_source payload.source_url) db.drafts)
          draft_creation_duplicate (append_draft payload) db (λ t'. stays db v)
          (λ t'. (
            All-append (λ (d : Draft). d.pk < db.next_draft + 1) db.drafts
                (new_draft payload db ∷ [])
                (All-mono (λ (d : Draft). d.pk < db.next_draft)
                  (λ (d : Draft). d.pk < db.next_draft + 1) db.drafts (λ d b. omega arith) v)
                (omega arith, tt),
            submit db.next_draft payload.source_url (lookup_unused db.next_draft db.drafts v)
                (lookup-append db.next_draft (new_draft payload db) db.drafts refl v) refl,
          )))

abbrev pub rewritten : ℕ → (Draft → Draft) → Db → Db
rewritten pk f db = record db { drafts = update (has_pk pk) f db.drafts }

pub rewritten-IsNumbered :
    (pk : ℕ) (f : Draft → Draft) (db : Db)
    → ((d : Draft) → (f d).pk ≡ d.pk)
    → IsNumbered db
    → IsNumbered (rewritten pk f db)
rewritten-IsNumbered pk f db same v =
    All-update (λ (d : Draft). d.pk < db.next_draft) (λ (d : Draft). d.pk < db.next_draft)
      (has_pk pk) f db.drafts (λ d b t. subst (λ k. k < db.next_draft) (sym (same d)) b)
      (λ d b t. b) v

found_pk : (pk : ℕ) (d : Draft) (ds : List Draft) → first (has_pk pk) ds ≡ some d → d.pk ≡ pk
unfolding first
found_pk pk d [] h = cc
found_pk pk d (x ∷ ds) h = ground (arith, found_pk pk d ds)

-- The review that the machine knows of a draft that is found.
pub known :
    (pk : ℕ) (status : ReviewStatus) (d : Draft) (ds : List Draft)
    → first (has_pk pk) ds ≡ some d
    → d.review_status ≡ status
    → lookup_review ds pk ≡ some (review status d.payload.source_url)
known pk status d ds h e =
    ap (Option.map review_of) h ∙ ap (λ s. some (review s d.payload.source_url)) e

-- The reviews after the draft that was found is rewritten.
pub renewed :
    (pk : ℕ) (f : Draft → Draft) (d : Draft) (ds : List Draft)
    → ((x : Draft) → (f x).pk ≡ x.pk)
    → first (has_pk pk) ds ≡ some d
    → lookup_review (update (has_pk d.pk) f ds) ≡ set (lookup_review ds) pk (review_of (f d))
renewed pk f d ds same h =
    subst
      (λ k. lookup_review (update (has_pk k) f ds) ≡ set (lookup_review ds) pk (review_of (f d)))
      (sym (found_pk pk d ds h)) (lookup-update pk f ds d same h)

pub reject-Simulates :
    (pk actor now : ℕ) (reason : Text) (db : Db)
    → IsNumbered db
    → Simulates db (reject_draft pk actor now reason db)
unfolding reject_draft
reject-Simulates pk actor now reason db v =
    let f = as_rejected actor now reason in
    Simulates-atomic (get_draft_for_update pk pending >>= save_as f) db v (
      get_then pk pending (save_as f) db v (λ d h e. (
        rewritten-IsNumbered d.pk f db (λ x. refl) v,
        Step.reject pk d.payload.source_url (known pk pending d db.drafts h e)
            (renewed pk f d db.drafts (λ x. refl) h) refl,
      )))

pub reopen-Simulates :
    (pk now : ℕ) (db : Db) → IsNumbered db → Simulates db (reopen_draft pk now db)
unfolding reopen_draft
reopen-Simulates pk now db v =
    let f = as_reopened now in
    Simulates-atomic (get_draft_for_update pk rejected >>= save_as f) db v (
      get_then pk rejected (save_as f) db v (λ d h e. (
        rewritten-IsNumbered d.pk f db (λ x. refl) v,
        Step.reopen pk d.payload.source_url (known pk rejected d db.drafts h e)
            (renewed pk f d db.drafts (λ x. refl) h) refl,
      )))
