-- ===== src/Publishing/Events/Valid.antt =====
-- The constraints on `Event` in events/models.py and on `Category` in core/models.py, and that the
-- operations of events/services.py keep them.
use takulife.Common.{
  ℕ, ◌+◌, ◌<◌, String, Bool, true, false, not, Option, none, some, List, [], ◌∷◌, ◌++◌, ◌≡◌, ◌≢◌,
  refl, sym, subst, arith, inl, inr, All, All-mono, All-append, All-update, Bool-cases,
  All_of_not_exists, exists, count, update, Text, text_eq_iff, DistinctKeys, DistinctKeys-update,
  DistinctKeys-append, DistinctValues, DistinctValues-append, DistinctValues-update_kept, post-if,
  str_eq, if◌then◌else◌,
}
use takulife.Common.Exec.{Result, ok, Exec, post-raise_if, Preserves}
use takulife.Publishing.Model.{published, data_error, integrity, Fields, Event, Db, Error, Platform}
use takulife.Publishing.Checks.{has_url}
use takulife.Publishing.Slots.{
  reconcile_palette_slot, reconcile_category_palette_slot, published_in,
}
use takulife.Publishing.Slots.Reconcile.{reconciled, reconcile-reconciled}
use takulife.Publishing.Slots.Valid.{IsValidTable, IsValidTable-suc, reconciled-IsValidTable}
use takulife.Publishing.Events.{
  has_pk, same_url, insert_event, insert_unique, append_event, url_taken_by_any, save_event,
}

abbrev pub pk_of : Event → ℕ
pk_of e = e.pk

abbrev pub url_of : Event → Option Text
url_of e = e.fields.official_url

-- The stored state meets the constraints of its tables.
pub record IsStored (db : Db) : Type 0 where
  pub keys : DistinctKeys pk_of db.events
  pub below : All (λ (e : Event). e.pk < db.next_id) db.events
  pub urls : DistinctValues url_of db.events
  pub table : IsValidTable db.next_id db.categories

-- The action keeps the constraints, however it ends.
abbrev pub Keeps : {A : Type 0} → Exec Db Error A → Type 0
Keeps m = Preserves IsStored m

abbrev After : {A : Type 0} → Result Error A × Db → Type 0
After x = IsStored x.1

-- `reconcile_category_palette_slot` writes the categories only.
reconcile_run :
    (slug : String) (n : ℕ) (db : Db) (empty : Bool)
    → (if empty then (ok tt, db) else reconcile_palette_slot slug n db) ≡ (
      ok tt,
      record db { categories = if empty then db.categories else reconciled slug n db.categories },
    )
reconcile_run slug n db true = refl
reconcile_run slug n db false = reconcile-reconciled slug n db

pub reconcile_category_lem :
    (slug : String) (db : Db)
    → reconcile_category_palette_slot slug db ≡ (
      ok tt,
      record db {
        categories =
            if str_eq slug ""
            then db.categories
            else reconciled slug (count (published_in slug) db.events) db.categories;
      },
    )
unfolding reconcile_category_palette_slot
reconcile_category_lem slug db =
    reconcile_run slug (count (published_in slug) db.events) db (str_eq slug "")

pub Keeps-reconcile : (slug : String) → Keeps (reconcile_category_palette_slot slug)
Keeps-reconcile slug db v = rw (reconcile_category_lem slug db) (record {
  keys = v.keys;
  below = v.below;
  urls = v.urls;
  table =
      post-if (IsValidTable db.next_id) (str_eq slug "") db.categories
        (reconciled slug (count (published_in slug) db.events) db.categories) (λ t. v.table)
        (λ t.
          reconciled-IsValidTable slug (count (published_in slug) db.events) db.categories v.table);
})

-- An address that the query for the constraint does not find is held by no event.
same_url_lem :
    (w : Option Text) (e : Event)
    → same_url w e ≡ false
    → (v : Text) → w ≡ some v
    → url_of e ≢ some v
same_url_lem w e t v p q =
    let t' : same_url (some v) e ≡ false = subst (λ x. same_url x e ≡ false) p t in
    let u : has_url v (some v) ≡ false = subst (λ x. has_url v x ≡ false) q t' in
    cc (u, (text_eq_iff v v).1 refl)

url_free :
    (w : Option Text) (es : List Event)
    → exists (same_url w) es ≡ false
    → (v : Text) → w ≡ some v
    → All (λ (e : Event). url_of e ≢ some v) es
url_free w es h v p =
    All-mono (λ e. same_url w e ≡ false) (λ (e : Event). url_of e ≢ some v) es
      (λ e t. same_url_lem w e t v p) (All_of_not_exists (same_url w) es h)

added :
    (row : Event) (db : Db)
    → row.pk ≡ db.next_id
    → exists (same_url (url_of row)) db.events ≡ false
    → IsStored db
    → IsStored (record db { events = db.events ++ row ∷ []; next_id = db.next_id + 1 })
added row db e h v = record {
  keys =
      DistinctKeys-append pk_of row db.events
        (subst (λ k. All (λ (e : Event). e.pk < k) db.events) (sym e) v.below) v.keys;
  below =
      All-append (λ (e : Event). e.pk < db.next_id + 1) db.events (row ∷ [])
        (All-mono (λ (e : Event). e.pk < db.next_id) (λ (e : Event). e.pk < db.next_id + 1)
          db.events (λ e b. omega arith) v.below)
        (omega arith, tt);
  urls = DistinctValues-append url_of row db.events (url_free (url_of row) db.events h) v.urls;
  table = IsValidTable-suc db.next_id db.categories v.table;
}

abbrev pub row_of : Fields → Db → Event
row_of f db = record { pk = db.next_id; fields = f; publish_status = published; verified_at = none }

pub insert-IsStored : (env : Platform) (f : Fields) → Keeps (insert_event env f)
unfolding insert_event
insert-IsStored env f db v =
    post-raise_if (After {A = Event}) (not (env.fits f)) data_error (insert_unique f) db (λ t. v)
      (λ t.
        post-raise_if (After {A = Event}) (url_taken_by_any f.official_url db) integrity
          (append_event f) db (λ t'. v) (λ t'. added (row_of f db) db refl t' v))

-- A rewrite of a stored event that leaves its key and its address alone.
changed :
    (pk : ℕ) (change : Event → Event) (db : Db)
    → ((e : Event) → pk_of (change e) ≡ pk_of e)
    → DistinctValues url_of (update (has_pk pk) change db.events)
    → IsStored db
    → IsStored (record db { events = update (has_pk pk) change db.events })
changed pk change db same urls v = record {
  keys = DistinctKeys-update pk_of (has_pk pk) change same db.events v.keys;
  below =
      All-update (λ (e : Event). e.pk < db.next_id) (λ (e : Event). e.pk < db.next_id) (has_pk pk)
        change db.events (λ e h t. subst (λ k. k < db.next_id) (sym (same e)) h) (λ e h t. h)
        v.below;
  urls = urls;
  table = v.table;
}

save_run :
    (pk : ℕ) (change : Event → Event) (db : Db)
    → IsStored (record db { events = update (has_pk pk) change db.events })
    → IsStored db
    → IsStored (save_event pk change db).1
unfolding save_event
save_run pk change db after v = elim (Bool-cases (exists (has_pk pk) db.events)) [
  | inl e ↦ rw e after
  | inr e ↦ rw e v
]

pub save-IsStored :
    (pk : ℕ) (change : Event → Event)
    → ((e : Event) → pk_of (change e) ≡ pk_of e)
    → ((e : Event) → url_of (change e) ≡ url_of e)
    → Keeps (save_event pk change)
save-IsStored pk change same url db v =
    save_run pk change db
      (changed pk change db same
        (DistinctValues-update_kept url_of (has_pk pk) change db.events url v.urls) v)
      v
