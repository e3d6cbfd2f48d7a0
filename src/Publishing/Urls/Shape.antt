-- ===== src/Publishing/Urls/Shape.antt =====
-- What an address that `_is_allowed_official_url` of events/services.py allows looks like.
use takulife.Common.{
  Bool, true, false, not, ◌&&◌, ◌||◌, Option, none, some, [], ◌∷◌, ◌++◌, map, ◌≡◌, refl, sym, subst,
  ap, ◌∙◌, arith, ◌⊎◌, inl, inr, All, ◌==◌, Text, text_eq, text_eq_iff, text_in, is_empty,
  Bool-cases, Option-cases, if◌then◌else◌,
}
use takulife.Common.Exec.{ok, err, ok-injective}
use takulife.Publishing.Model.{Platform, value_error}
use takulife.Publishing.Urls.{
  clean, split_colon, scheme_at, split_scheme, split_netloc, take_netloc, ends_netloc, lower,
  unbalanced, urlsplit, allowed_parts, http, https, is_allowed_official_url, starts_with_letter,
  all_scheme_chars,
}

-- The text that stands in an address between "//" and the path, the query or the fragment.
abbrev pub IsNetloc : Text → Type 0
IsNetloc netloc = All (λ c. ends_netloc c ≡ false) netloc × (is_empty netloc ≡ false)

-- A scheme, "://", a network location and the rest, in an address without the characters that
-- `urlsplit` removes.
pub record IsHttp (url : Text) : Type 0 where
  pub scheme : Text
  pub netloc : Text
  pub rest : Text
  pub parts : clean url ≡ scheme ++ b':' ∷ b'/' ∷ b'/' ∷ (netloc ++ rest)
  pub is_http : (map lower scheme ≡ http) ⊎ (map lower scheme ≡ https)
  pub has_netloc : IsNetloc netloc

split_colon_lem :
    (url before after : Text)
    → split_colon url ≡ some (before, after)
    → url ≡ before ++ b':' ∷ after
unfolding split_colon
split_colon_lem [] before after h = cc
split_colon_lem (c ∷ cs) before after h = elim (Option-cases (split_colon cs)) [
  | inl n ↦ ground arith
  | inr ((b, a), e) ↦ ground (arith, split_colon_lem cs b a e)
]

drop_netloc : Text → Text
drop_netloc [] = []
drop_netloc (c ∷ cs) = let rest = drop_netloc cs in if ends_netloc c then c ∷ cs else rest

take-drop_netloc : (t : Text) → t ≡ take_netloc t ++ drop_netloc t
unfolding take_netloc drop_netloc
take-drop_netloc [] = refl
take-drop_netloc (c ∷ cs) = ground (arith, take-drop_netloc cs)

take_netloc-All : (t : Text) → All (λ c. ends_netloc c ≡ false) (take_netloc t)
unfolding take_netloc
take_netloc-All [] = tt
take_netloc-All (c ∷ cs) = elim (Bool-cases (ends_netloc c)) [
  | inl e ↦ rw e tt
  | inr e ↦ rw e (e, take_netloc-All cs)
]

-- Behind the scheme stands "//" where there is a network location.
netloc_lem :
    (t : Text)
    → is_empty (split_netloc t) ≡ false
    → (rest : Text) × (t ≡ b'/' ∷ b'/' ∷ (split_netloc t ++ rest)) × IsNetloc (split_netloc t)
unfolding split_netloc
netloc_lem [] h = cc
netloc_lem (a ∷ []) h = cc
netloc_lem (a ∷ b ∷ t) h = elim (Bool-cases (a == b'/' && b == b'/')) [
  | inl e ↦
      rw e (drop_netloc t, ground (arith, take-drop_netloc t), (take_netloc-All t, (rw e at h)))
  | inr e ↦ let h' : is_empty [] ≡ false = rw e at h in cc h'
]

-- The scheme is split off as it is written, but for the case of its letters.
abbrev SplitOff : Text → Text × Text → Type 0
SplitOff t (scheme, rest) =
    (before : Text) × (t ≡ before ++ b':' ∷ rest) × (map lower before ≡ scheme)

scheme_at_lem :
    (t : Text) (o : Option (Text × Text))
    → split_colon t ≡ o
    → is_empty (scheme_at t o).0 ≡ false
    → SplitOff t (scheme_at t o)
unfolding scheme_at
scheme_at_lem t none e h = cc
scheme_at_lem t (some (before, after)) e h =
    elim (Bool-cases (starts_with_letter before && all_scheme_chars before)) [
      | inl b ↦ rw b (before, split_colon_lem t before after e, refl)
      | inr b ↦ let h' : is_empty [] ≡ false = rw b at h in cc h'
    ]

split_scheme_lem : (t : Text) → is_empty (split_scheme t).0 ≡ false → SplitOff t (split_scheme t)
unfolding split_scheme
split_scheme_lem t h = scheme_at_lem t (split_colon t) refl h

-- One of the two schemes, which are not empty.
one_scheme :
    (s : Text)
    → text_in s (http ∷ https ∷ []) ≡ true
    → ((s ≡ http) ⊎ (s ≡ https)) × (is_empty s ≡ false)
unfolding text_in
one_scheme s h = elim (Bool-cases (text_eq s http)) [
  | inl e ↦
      let q = (text_eq_iff s http).0 e in (inl q, subst (λ t. is_empty t ≡ false) (sym q) refl)
  | inr e ↦
      let q = (text_eq_iff s https).0 (ground arith) in
      (inr q, subst (λ t. is_empty t ≡ false) (sym q) refl)
]

and_true : (a b : Bool) → (a && b) ≡ true → (a ≡ true) × (b ≡ true)
and_true true b h = (refl, h)
and_true false b h = cc

not-true : (b : Bool) → not b ≡ true → b ≡ false
not-true true h = cc
not-true false h = refl

-- Where the address is split and allowed, the two parts are as they should be.
allowed_lem :
    (bad : Bool) (scheme netloc : Text)
    → allowed_parts (if bad then err value_error else ok (scheme, netloc)) ≡ ok true
    → (text_in scheme (http ∷ https ∷ []) ≡ true) × (is_empty netloc ≡ false)
allowed_lem true scheme netloc h = cc
allowed_lem false scheme netloc h =
    let (a, b) =
      and_true (text_in scheme (http ∷ https ∷ [])) (not (is_empty netloc)) (ok-injective h) in
    (a, not-true (is_empty netloc) b)

-- An address that `_is_allowed_official_url` allows reads, without the characters that `urlsplit`
-- removes, as a scheme, "://", a network location that is not empty, and a rest; and the scheme in
-- lower case is http or https.
pub is_allowed_official_url-IsHttp :
    (env : Platform) (url : Text) → is_allowed_official_url env url ≡ ok true → IsHttp url
unfolding is_allowed_official_url urlsplit
is_allowed_official_url-IsHttp env url h =
    let (scheme, tail) = split_scheme (clean url) in
    let netloc = split_netloc tail in
    let bad = unbalanced netloc || not (is_empty netloc || env.netloc_is_valid netloc) in
    let (known, present) = allowed_lem bad scheme netloc h in
    let (one, named) = one_scheme scheme known in
    let (before, split, lowered) = split_scheme_lem (clean url) named in
    let (rest, slashes, is_netloc) = netloc_lem tail present in
    record {
      scheme = before;
      netloc = netloc;
      rest = rest;
      parts = split ∙ ap (λ (t : Text). before ++ b':' ∷ t) slashes;
      is_http = elim one [ inl q ↦ inl (lowered ∙ q) | inr q ↦ inr (lowered ∙ q) ];
      has_netloc = is_netloc;
    }
