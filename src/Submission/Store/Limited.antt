-- ===== src/Submission/Store/Limited.antt =====
-- The constraints on candidates and sources of drafts/models.py, and the limit of
-- drafts/candidate_validation.py, as an invariant; and how the rows are added under them.
use takulife.Common.{
  ℕ, ◌+◌, ◌≤◌, Bool, true, false, ◌&&◌, Bool-cases, some, List, [], ◌∷◌, ◌++◌, ◌≡◌, refl, subst,
  arith, inl, inr, ◌==◌, ==_iff, ==_refl, All, All-append, All-mono, count, count-append,
  count_of_not_exists, exists, exists-append, first, first-append, Text, text_eq, text_eq_iff,
}
use takulife.Review.Model as Review
use takulife.Submission.Model.{Source, promoted, Candidate, Db}
use takulife.Submission.Store.{
  of_run, on_url, is_full, max_candidates_per_run, added, with_source, source_exists,
}

abbrev pub has_url : Text → Source → Bool
has_url url s = text_eq s.url url

-- The source that a decision names, with the address.
abbrev pub is_source : ℕ → Text → Source → Bool
is_source pk url s = s.pk == pk && text_eq s.url url

-- A promoted candidate has a source of its own address.
abbrev pub Backed : List Source → Candidate → Type 0
Backed ss c = (pk : ℕ) → c.decision ≡ promoted pk → exists (is_source pk c.fields.url) ss ≡ true

pub record IsLimited (db : Db) : Type 0 where
  pub room : (run : ℕ) → count (of_run run) db.candidates ≤ max_candidates_per_run
  pub once : (run : ℕ) (url : Text) → count (on_url run url) db.candidates ≤ 1
  pub sources_once : (url : Text) → count (has_url url) db.sources ≤ 1
  pub backed : All (Backed db.sources) db.candidates

text_eq_refl : (t : Text) → text_eq t t ≡ true
text_eq_refl t = (text_eq_iff t t).1 refl

pub on_own_url : (c : Candidate) → on_url c.run c.fields.url c ≡ true
on_own_url c = ground (arith, ==_refl c.run, text_eq_refl c.fields.url)

-- A row that is on an address is not on another one.
on_url-same :
    (run : ℕ) (url : Text) (c : Candidate)
    → on_url run url c ≡ true
    → (c.run ≡ run) × (c.fields.url ≡ url)
on_url-same run url c h =
    let (a, b) = both (c.run == run) (text_eq c.fields.url url) h in
    ((==_iff c.run run).0 a, (text_eq_iff c.fields.url url).0 b)
  where
    both : (a b : Bool) → (a && b) ≡ true → (a ≡ true) × (b ≡ true)
    both true b h = (refl, h)
    both false b h = cc

pub count-added {ℓ} :
    {A : Type ℓ} (p : A → Bool) (xs : List A) (x : A) (n : ℕ)
    → count p xs ≤ n
    → (p x ≡ true → count p xs + 1 ≤ n)
    → count p (xs ++ x ∷ []) ≤ n
unfolding count
count-added p xs x n h k = elim (Bool-cases (p x)) [
  | inl e ↦ ground (arith, count-append p xs (x ∷ []), k e)
  | inr e ↦ ground (arith, count-append p xs (x ∷ []))
]

pub added-IsLimited :
    (c : Candidate) (db : Db)
    → is_full c.run db ≡ false
    → exists (on_url c.run c.fields.url) db.candidates ≡ false
    → Backed db.sources c
    → IsLimited db
    → IsLimited (added c db)
added-IsLimited c db full absent backed v = record {
  room = λ run. count-added (of_run run) db.candidates c max_candidates_per_run (v.room run) (λ e.
      subst (λ r. count (of_run r) db.candidates + 1 ≤ max_candidates_per_run)
        ((==_iff c.run run).0 e) (ground (arith, full)));
  once = λ run url. count-added (on_url run url) db.candidates c 1 (v.once run url) (λ e.
      let (same_run, same_url) = on_url-same run url c e in
      subst (λ r. count (on_url r url) db.candidates + 1 ≤ 1) same_run
        (subst (λ u. count (on_url c.run u) db.candidates + 1 ≤ 1) same_url
          (omega (arith, count_of_not_exists (on_url c.run c.fields.url) db.candidates absent))));
  sources_once = v.sources_once;
  backed = All-append (Backed db.sources) db.candidates (c ∷ []) v.backed (backed, tt);
}

exists-more {ℓ} :
    {A : Type ℓ} (p : A → Bool) (xs ys : List A) → exists p xs ≡ true → exists p (xs ++ ys) ≡ true
exists-more p xs ys h = ground (arith, exists-append p xs ys, h)

pub with_source-IsLimited :
    (s : Source) (db : Db)
    → source_exists s.url db ≡ false
    → IsLimited db
    → IsLimited (with_source s db)
with_source-IsLimited s db absent v = record {
  room = v.room;
  once = v.once;
  sources_once = λ url. count-added (has_url url) db.sources s 1 (v.sources_once url) (λ e.
      subst (λ u. count (has_url u) db.sources + 1 ≤ 1) ((text_eq_iff s.url url).0 e)
        (omega (arith, count_of_not_exists (has_url s.url) db.sources absent)));
  backed =
      All-mono (Backed db.sources) (Backed (db.sources ++ s ∷ [])) db.candidates
        (λ c b pk e. exists-more (is_source pk c.fields.url) db.sources (s ∷ []) (b pk e)) v.backed;
}

pub exists_own_source :
    (s : Source) (ss : List Source) → exists (is_source s.pk s.url) (ss ++ s ∷ []) ≡ true
unfolding exists
exists_own_source s ss =
    ground
      (arith, exists-append (is_source s.pk s.url) ss (s ∷ []), ==_refl s.pk, text_eq_refl s.url)

pub first-added :
    (c : Candidate) (db : Db)
    → exists (on_url c.run c.fields.url) db.candidates ≡ false
    → first (on_url c.run c.fields.url) (added c db).candidates ≡ some c
unfolding first
first-added c db h =
    ground (arith, first-append (on_url c.run c.fields.url) db.candidates (c ∷ []), h, on_own_url c)

-- The constraints do not look at the drafts.
pub rows_kept : (db : Db) (r : Review.Db) → IsLimited db → IsLimited (record db { review = r })
rows_kept db r v = record {
  room = v.room;
  once = v.once;
  sources_once = v.sources_once;
  backed = v.backed;
}
