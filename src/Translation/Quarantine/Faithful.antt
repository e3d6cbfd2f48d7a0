-- ===== src/Translation/Quarantine/Faithful.antt =====
-- What a translation has to keep of its source, in the words of the rules of
-- events/content_translation.py, and what each of its tests decides.
use takulife.Common.{
  ◌≤◌, Bool, true, false, Bool-cases, not, ◌&&◌, List, [], ◌∷◌, ◌≡◌, refl, arith, inl, inr, All,
  ltb, leb, length, Text, is_empty, strip, ℕ, max, ◌*◌, ◌==◌, ◌||◌, ◌⊎◌, ◌++◌, In, map, subst,
  exists, text_in, text_eq, text_eq_iff, All_of_not_exists,
}
use takulife.Extraction.Delimiters.{contains}
use takulife.Translation.Quarantine.{
  Python, Pattern, Field, field_max_length, has_control_char, currency_changed, invents_number,
  misses_number, strip_leading_zeros, unit_zeros, clean_markup_token, markup_token_is_foreign,
  markup_tokens, source_allowed_digits, raw_digits, translated_digits,
}

-- The numbers that a text holds, as they are written, without the commas inside them.
abbrev pub numbers : Python → Text → List Text
numbers py t = py.findall Pattern.digits (py.erase Pattern.digit_comma (py.nfkc t))

-- The numbers of a translation, without the minutes of a time.
abbrev pub numbers_but_minutes : Python → Text → List Text
numbers_but_minutes py t =
    py.findall Pattern.digits
      (py.erase Pattern.digit_comma (py.erase Pattern.time_minutes (py.nfkc t)))

-- The number `d` is one of the text `s` up to leading zeros, or one that `s` writes with a Korean
-- unit.
abbrev pub IsFrom : Python → Text → Text → Type 0
IsFrom py s d =
    ((e : Text) × (In e (numbers py s) × (strip_leading_zeros d ≡ strip_leading_zeros e)))
    ⊎ ((m : Text × Text) × (In m (py.korean_units (py.nfkc s))
          × (strip_leading_zeros d ≡ strip_leading_zeros (m.0 ++ unit_zeros m.1))))

-- The tag, URL or address `w`, without its trailing punctuation, stands in the text `s`, and is more
-- than a scheme.
abbrev pub IsOwnMarkup : Python → Text → Text → Type 0
IsOwnMarkup py s w =
    (is_empty (clean_markup_token w) ≡ false)
    × (py.search Pattern.bare_scheme (clean_markup_token w) ≡ false)
    × (contains (clean_markup_token w) s ≡ true)

abbrev pub OwnsMarkup : Python → Text → Text → Type 0
OwnsMarkup py s t =
    All (IsOwnMarkup py s)
      (py.findall Pattern.tag t ++ py.findall Pattern.url t ++ py.findall Pattern.email t)

-- What a translation `t` of the text `s` keeps of it, where it is not blank.
pub record Keeps (py : Python) (s t : Text) : Type 0 where
  pub in_proportion :
      length (py.erase Pattern.whitespace (py.nfkc t))
      ≤ max 40 (6 * length (py.erase Pattern.whitespace (py.nfkc s)))
  pub markup : OwnsMarkup py s t
  pub markup_normalized : OwnsMarkup py (py.nfkc s) (py.nfkc t)
  pub currency :
      All
        (λ m. contains (py.upper m) (py.upper (py.nfkc s)) ≡ true)
        (py.findall Pattern.currency (py.nfkc t))
  pub no_new_number : All (IsFrom py s) (numbers_but_minutes py t)
  pub long_numbers : All (λ d. 4 ≤ length d → In d (numbers py t)) (numbers py s)
  pub no_hangul : py.search Pattern.hangul (py.nfkc t) ≡ false

-- The greatest length of a field's translation.
abbrev pub limit : Field → ℕ
limit Field.summary = 2000
limit Field.title = 400
limit Field.work_title = 400
limit Field.location_name = 400

pub record IsFaithful (py : Python) (field : Field) (s t : Text) : Type 0 where
  pub within : length t ≤ limit field
  pub no_control : All (λ c. (c ≡ 10) ⊎ ((c ≡ 9) ⊎ (py.is_control c ≡ false))) t
  pub blank : is_empty (strip s) ≡ is_empty (strip t)
  pub content : is_empty (strip t) ≡ false → Keeps py s t

In-text_in : (d : Text) (ds : List Text) → text_in d ds ≡ true → In d ds
unfolding text_in
In-text_in d [] h = cc
In-text_in d (e ∷ ds) h = elim (Bool-cases (text_eq d e)) [
  | inl b ↦ subst (λ x. In d (x ∷ ds)) ((text_eq_iff d e).0 b) In.here
  | inr b ↦ In.there (In-text_in d ds (rw b at h))
]

-- A value of a mapped list comes from one of the list's.
In-map :
    {A : Type 0} (f : A → Text) (d : Text) (xs : List A)
    → In d (map f xs)
    → (x : A) × (In x xs × (d ≡ f x))
In-map f d [] m = elim m [ ]
In-map f d (x ∷ xs) In.here = (x, (In.here, refl))
In-map f d (x ∷ xs) (In.there m) = let (y, (found, e)) = In-map f d xs m in (y, (In.there found, e))

In-append : (d : Text) (xs ys : List Text) → In d (xs ++ ys) → In d xs ⊎ In d ys
In-append d [] ys m = inr m
In-append d (x ∷ xs) ys In.here = inl In.here
In-append d (x ∷ xs) ys (In.there m) = elim (In-append d xs ys m) [
  | inl n ↦ inl (In.there n)
  | inr n ↦ inr n
]

All-imp :
    {A : Type 0} (P Q : A → Type 0) (xs : List A) → ((x : A) → P x → Q x) → All P xs → All Q xs
All-imp P Q [] f h = tt
All-imp P Q (x ∷ xs) f h = (f x h.0, All-imp P Q xs f h.1)

All_of_map :
    {A B : Type 0} (P : B → Type 0) (f : A → B) (xs : List A)
    → All P (map f xs)
    → All (λ x. P (f x)) xs
All_of_map P f [] h = tt
All_of_map P f (x ∷ xs) h = (h.0, All_of_map P f xs h.1)

control_lem :
    (py : Python) (c : ℕ)
    → (not (c == 10 || c == 9) && py.is_control c) ≡ false
    → (c ≡ 10) ⊎ ((c ≡ 9) ⊎ (py.is_control c ≡ false))
control_lem py c h = elim (Bool-cases (c == 10)) [
  | inl e ↦ inl (ground (arith, e))
  | inr e ↦ elim (Bool-cases (c == 9)) [
    | inl f ↦ inr (inl (ground (arith, f)))
    | inr f ↦ inr (inr (ground (arith, e, f, h)))
  ]
]

true_of_not : (b : Bool) → not b ≡ false → b ≡ true
true_of_not true h = refl
true_of_not false h = cc

pub or_false : (a b : Bool) → (a || b) ≡ false → (a ≡ false) × (b ≡ false)
or_false true b h = cc
or_false false b h = (refl, h)

pub own_lem :
    (py : Python) (s w : Text) → markup_token_is_foreign py s w ≡ false → IsOwnMarkup py s w
unfolding markup_token_is_foreign
own_lem py s w h =
    let cleaned = clean_markup_token w in
    let outside = not (contains cleaned s) in
    let (markup, inside) =
      or_false (is_empty cleaned || py.search Pattern.bare_scheme cleaned) outside h in
    let (more, scheme) =
      or_false (is_empty cleaned) (py.search Pattern.bare_scheme cleaned) markup in
    (more, scheme, true_of_not (contains cleaned s) inside)

pub owns_lem :
    (py : Python) (s t : Text)
    → exists (markup_token_is_foreign py s) (markup_tokens py t) ≡ false
    → OwnsMarkup py s t
owns_lem py s t h =
    All-imp (λ w. markup_token_is_foreign py s w ≡ false) (IsOwnMarkup py s) (markup_tokens py t)
      (own_lem py s) (All_of_not_exists (markup_token_is_foreign py s) (markup_tokens py t) h)

from_lem :
    (py : Python) (s d : Text)
    → text_in (strip_leading_zeros d) (source_allowed_digits py s) ≡ true
    → IsFrom py s d
unfolding source_allowed_digits raw_digits
from_lem py s d h =
    let zeros = λ (m : Text × Text). strip_leading_zeros (m.0 ++ unit_zeros m.1) in
    elim (In-append (strip_leading_zeros d) (map strip_leading_zeros (numbers py s))
      (map zeros (py.korean_units (py.nfkc s))) (In-text_in _ _ h)) [
        | inl m ↦ inl (In-map strip_leading_zeros _ (numbers py s) m)
        | inr m ↦ inr (In-map zeros _ (py.korean_units (py.nfkc s)) m)
      ]

pub no_new_number_lem :
    (py : Python) (s t : Text)
    → invents_number py s t ≡ false
    → All (IsFrom py s) (numbers_but_minutes py t)
unfolding invents_number translated_digits
no_new_number_lem py s t h =
    All-imp (λ d. not (text_in (strip_leading_zeros d) (source_allowed_digits py s)) ≡ false)
      (IsFrom py s) (numbers_but_minutes py t) (λ d k. from_lem py s d (true_of_not _ k))
      (All_of_map (λ d. not (text_in d (source_allowed_digits py s)) ≡ false) strip_leading_zeros
        (numbers_but_minutes py t)
        (All_of_not_exists (λ d. not (text_in d (source_allowed_digits py s)))
          (map strip_leading_zeros (numbers_but_minutes py t)) h))

pub long_numbers_lem :
    (py : Python) (s t : Text)
    → misses_number py s t ≡ false
    → All (λ d. 4 ≤ length d → In d (numbers py t)) (numbers py s)
unfolding misses_number raw_digits
long_numbers_lem py s t h =
    All-imp (λ d. (leb 4 (length d) && not (text_in d (numbers py t))) ≡ false)
      (λ d. 4 ≤ length d → In d (numbers py t)) (numbers py s)
      (λ d k many. In-text_in d (numbers py t) (ground (arith, k, many)))
      (All_of_not_exists (λ d. leb 4 (length d) && not (text_in d (numbers py t))) (numbers py s) h)

pub currency_lem :
    (py : Python) (ks kt : Text)
    → currency_changed py ks kt ≡ false
    → All (λ m. contains (py.upper m) (py.upper ks) ≡ true) (py.findall Pattern.currency kt)
unfolding currency_changed
currency_lem py ks kt h =
    let kept = λ (m : Text). contains (py.upper m) (py.upper ks) in
    All-imp (λ m. not (kept m) ≡ false) (λ m. kept m ≡ true) (py.findall Pattern.currency kt)
      (λ m k. true_of_not _ k)
      (All_of_not_exists (λ m. not (kept m)) (py.findall Pattern.currency kt) h)

pub proportion_lem : (a b : ℕ) → ltb (max 40 (6 * a)) b ≡ false → b ≤ max 40 (6 * a)
proportion_lem a b h = ground arith

pub limit_lem : (field : Field) (n : ℕ) → ltb (field_max_length field) n ≡ false → n ≤ limit field
limit_lem Field.title n h = ground arith
limit_lem Field.work_title n h = ground arith
limit_lem Field.location_name n h = ground arith
limit_lem Field.summary n h = ground arith

pub no_control_lem :
    (py : Python) (t : Text)
    → has_control_char py t ≡ false
    → All (λ c. (c ≡ 10) ⊎ ((c ≡ 9) ⊎ (py.is_control c ≡ false))) t
unfolding has_control_char
no_control_lem py t h =
    All-imp (λ c. (not (c == 10 || c == 9) && py.is_control c) ≡ false)
      (λ c. (c ≡ 10) ⊎ ((c ≡ 9) ⊎ (py.is_control c ≡ false))) t (control_lem py)
      (All_of_not_exists (λ c. not (c == 10 || c == 9) && py.is_control c) t h)
