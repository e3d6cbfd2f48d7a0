-- ===== src/Publishing/Events/Tidy.antt =====
-- No category holds a palette slot that it should not have: `reconcile_category_palette_slot`
-- after each function of events/services.py that takes an event in or out of publication.
use takulife.Common.{
  ℕ, String, Bool, true, false, not, Option, none, some, List, [], ◌∷◌, ◌++◌, ◌≡◌, ◌≢◌, refl, sym,
  subst, ap, ◌∙◌, arith, inl, inr, In, All, All_of, All-mono, All-update, only_row, count,
  count-append, update, select, first, is_some, All-and, Bool-cases, post-if, str_eq, eq_iff,
  ==_iff,
}
use takulife.Publishing.Model.{Event, Category, Db}
use takulife.Publishing.Slots.{
  palette_slot_count, has_slug, with_slot, is_published, published_in, should_have_slot, free_slot,
  reconcile_category_palette_slot,
}
use takulife.Publishing.Slots as Slots
use takulife.Publishing.Slots.Reconcile.{given, settled_first, reconciled}
use takulife.Publishing.Slots.Released.{Released, AllReleased, ButOf, reconciled-Released}
use takulife.Publishing.Events.{has_pk}
use takulife.Publishing.Events.Valid.{IsStored, reconcile_category_lem, Keeps-reconcile, pk_of}

abbrev pub Named : Category → Type 0
Named c = c.slug ≢ ""

-- The constraints hold, every category has a name, and none holds a slot that it should not have.
pub record IsTidy (db : Db) : Type 0 where
  pub stored : IsStored db
  pub named : All Named db.categories
  pub released : All (AllReleased db.events) db.categories

given-Named :
    (pk : ℕ) (o : Option ℕ) (cs : List Category) → All Named cs → All Named (given pk o cs)
given-Named pk none cs h = h
given-Named pk (some n) cs h =
    All-update Named Named (Slots.has_pk pk) (with_slot (some n)) cs (λ a b t. b) (λ a b t. b) h

settled-Named :
    (o : Option Category) (n : ℕ) (cs : List Category)
    → All Named cs
    → All Named (settled_first o n cs)
settled-Named none n cs h = h
settled-Named (some c) n cs h =
    post-if (All Named) (should_have_slot c n) _ _
      (λ t.
        post-if (All Named) (is_some c.palette_slot) cs _ (λ t'. h)
          (λ t'. given-Named c.pk (free_slot palette_slot_count 0 cs) cs h))
      (λ t.
        post-if (All Named) (is_some c.palette_slot) _ cs
          (λ t'.
            All-update Named Named (Slots.has_pk c.pk) (with_slot none) cs (λ a b s. b) (λ a b s. b)
              h)
          (λ t'. h))

reconciled-Named :
    (slug : String) (n : ℕ) (cs : List Category) → All Named cs → All Named (reconciled slug n cs)
unfolding reconciled
reconciled-Named slug n cs h = settled-Named (first (has_slug slug) cs) n cs h

-- Where all categories but one follow the rule, they all do after the slot of that one is
-- reconciled.
pub reconcile-IsTidy :
    (slug : String) (db : Db)
    → IsStored db
    → All Named db.categories
    → All (ButOf db.events slug) db.categories
    → IsTidy (reconcile_category_palette_slot slug db).1
reconcile-IsTidy slug db v named h = record {
  stored = Keeps-reconcile slug db v;
  named = rw (reconcile_category_lem slug db) (
      post-if (All Named) (str_eq slug "") db.categories _ (λ t. named)
        (λ t. reconciled-Named slug (count (published_in slug) db.events) db.categories named));
  released = rw (reconcile_category_lem slug db) (
      post-if (All (AllReleased db.events)) (str_eq slug "") db.categories _
        (λ t.
          All-mono (λ c. ButOf db.events slug c × Named c) (AllReleased db.events) db.categories
            (λ c b. b.0 (λ q. b.1 (q ∙ (eq_iff slug "").0 t)))
            (All-and (ButOf db.events slug) Named db.categories h named))
        (λ t. reconciled-Released db.events slug db.next_id db.categories v.table h));
}

-- The events of the other categories are the same, as far as they are counted.
pub SameBut : String → List Event → List Event → Type 0
SameBut slug es es' =
    (s : String) → s ≢ slug → count (published_in s) es' ≡ count (published_in s) es

pub ButOf-SameBut :
    (slug : String) (es es' : List Event) (cs : List Category)
    → SameBut slug es es'
    → All (AllReleased es) cs
    → All (ButOf es' slug) cs
unfolding SameBut
ButOf-SameBut slug es es' cs same h =
    All-mono (AllReleased es) (ButOf es' slug) cs
      (λ c r n. subst (λ k. Released k c) (sym (same c.slug n)) r) h

not_in : (s : String) (e : Event) → e.fields.category ≢ s → published_in s e ≡ false
not_in s e n = elim (Bool-cases (str_eq e.fields.category s)) [
  | inl t ↦ absurd (n ((eq_iff e.fields.category s).0 t))
  | inr t ↦ rw t refl
]

pub SameBut-append :
    (row : Event) (es : List Event) → SameBut row.fields.category es (es ++ row ∷ [])
unfolding SameBut count
SameBut-append row es s n =
    count-append (published_in s) es (row ∷ []) ∙ (rw (not_in s row (λ q. n (sym q))) (omega arith))

count-update_all :
    (p q : Event → Bool) (f : Event → Event) (es : List Event)
    → All (λ e. q e ≡ true → p (f e) ≡ p e) es
    → count p (update q f es) ≡ count p es
unfolding count update
count-update_all p q f [] h = refl
count-update_all p q f (e ∷ es) h = ground (arith, count-update_all p q f es h.1, h.0)

count-select_all :
    (p q : Event → Bool) (es : List Event)
    → All (λ e. q e ≡ false → p e ≡ false) es
    → count p (select q es) ≡ count p es
unfolding count select
count-select_all p q [] h = refl
count-select_all p q (e ∷ es) h = ground (arith, count-select_all p q es h.1, h.0)

-- A change of one stored event that keeps its category.
pub SameBut-update :
    (row : Event) (f : Event → Event) (db : Db)
    → IsStored db
    → In row db.events
    → ((e : Event) → (f e).fields.category ≡ e.fields.category)
    → SameBut row.fields.category db.events (update (has_pk row.pk) f db.events)
unfolding SameBut
SameBut-update row f db v m keeps s n =
    count-update_all (published_in s) (has_pk row.pk) f db.events (
      All-mono (λ e. pk_of e ≡ pk_of row → e ≡ row)
        (λ e. has_pk row.pk e ≡ true → published_in s (f e) ≡ published_in s e) db.events
        (λ e only t.
          let same = only ((==_iff e.pk row.pk).0 t) in
          let other : e.fields.category ≢ s =
            λ q. n (sym (ap (λ (x : Event). x.fields.category) (sym same) ∙ q)) in
          not_in s (f e) (λ q. other (sym (keeps e) ∙ q)) ∙ sym (not_in s e other))
        (only_row pk_of row db.events v.keys m))

pub SameBut-select :
    (row : Event) (db : Db)
    → IsStored db
    → In row db.events
    → SameBut row.fields.category db.events (select (λ e. not (has_pk row.pk e)) db.events)
unfolding SameBut
SameBut-select row db v m s n =
    count-select_all (published_in s) (λ e. not (has_pk row.pk e)) db.events
      (All-mono (λ e. pk_of e ≡ pk_of row → e ≡ row)
        (λ e. not (has_pk row.pk e) ≡ false → published_in s e ≡ false) db.events
        (λ e only t.
          let same = only ((==_iff e.pk row.pk).0 (not_false (has_pk row.pk e) t)) in
          not_in s e (λ q. n (sym (ap (λ (x : Event). x.fields.category) (sym same) ∙ q))))
        (only_row pk_of row db.events v.keys m))
  where
    not_false : (b : Bool) → not b ≡ false → b ≡ true
    not_false true h = refl
    not_false false h = cc

-- A change that no count of published events sees.
pub AllReleased-update :
    (q : Event → Bool) (f : Event → Event) (es : List Event) (cs : List Category)
    → ((s : String) (e : Event) → published_in s (f e) ≡ published_in s e)
    → All (AllReleased es) cs
    → All (AllReleased (update q f es)) cs
AllReleased-update q f es cs same h =
    All-mono (AllReleased es) (AllReleased (update q f es)) cs
      (λ c r.
        subst (λ k. Released k c)
          (sym (
            count-update_all (published_in c.slug) q f es (
              All_of (λ e. q e ≡ true → published_in c.slug (f e) ≡ published_in c.slug e) es
                (λ e t. same c.slug e))))
          r)
      h
