-- ===== src/Publishing/Checks.antt =====
-- The checks before an event is published: `_validate_publish_fields`, which raises, and
-- `publish_field_checks`, which reports, in events/services.py; `is_valid_category` and
-- `is_valid_region` of core/vocab.py, `category_exists` of core/categories.py.
use takulife.Common.{
  ℕ, String, Bool, true, false, not, ◌&&◌, ◌||◌, Option, none, some, List, [], ◌∷◌, ◌==◌, ltb,
  exists, or_else, one_of, str_eq, Text, text_eq, is_empty, strip, if◌then◌else◌,
}
use takulife.Common.Exec.{Result, ok, err, Exec, pure, gets, raise_if, ◌>>=◌, ◌>>◌}
use takulife.Publishing.Model.{
  Fields, Event, Category, Db, Error, Platform, duplicate_official_url, missing_official_url,
  invalid_event_period, publish_event_title, publish_event_category, publish_event_region,
  publish_event_official_url_scheme,
}
use takulife.Publishing.Urls.{is_allowed_official_url}
pub mod Agree

-- `str.rstrip("/")`
unfoldable pub strip_slashes : Text → Text
strip_slashes [] = []
strip_slashes (c ∷ cs) =
    let rest = strip_slashes cs in if c == b'/' && is_empty rest then [] else c ∷ rest

unfoldable pub category_exists : String → Db → Bool
unfolding exists
category_exists slug db = exists (λ (c : Category). str_eq c.slug slug) db.categories

unfoldable pub is_valid_category : String → Db → Bool
unfolding category_exists
is_valid_category value db = str_eq value "" || category_exists value db

-- The keys of `REGION_LABELS`.
abbrev pub region_labels : List String
region_labels =
    "seoul" ∷ "gyeonggi" ∷ "incheon" ∷ "busan" ∷ "daegu" ∷ "daejeon" ∷ "gwangju" ∷ "online" ∷ []

unfoldable pub is_valid_region : String → Bool
unfolding one_of
is_valid_region value = str_eq value "" || one_of value region_labels

-- `filter(official_url=url)`
abbrev pub has_url : Text → Option Text → Bool
has_url url none = false
has_url url (some u) = text_eq u url

-- `existing_queryset`: every event, or every event but one.
abbrev pub in_queryset : Option ℕ → Event → Bool
in_queryset none e = true
in_queryset (some pk) e = not (e.pk == pk)

unfoldable pub url_taken : Option ℕ → Text → Db → Bool
unfolding exists
url_taken excluded url db =
    exists (λ (e : Event). in_queryset excluded e && has_url url e.fields.official_url) db.events

-- `start_date > end_date` where both are given
abbrev pub period_reversed : Option ℕ → Option ℕ → Bool
period_reversed (some a) (some b) = ltb b a
period_reversed _ _ = false

-- `(official_url or "").strip()`
abbrev pub normalized_official_url : Fields → Text
normalized_official_url f = strip (or_else f.official_url [])

-- `_is_allowed_official_url` as an action, which may raise `ValueError`
abbrev pub allowed : Platform → Text → Exec Db Error Bool
allowed env url = λ db. (is_allowed_official_url env url, db)

-- `_validate_publish_fields`, with the row that the query set leaves out
unfoldable pub validate_publish_fields : Platform → Fields → Option ℕ → Exec Db Error (Text × Text)
unfolding strip is_allowed_official_url strip_slashes url_taken is_valid_category is_valid_region
validate_publish_fields env f excluded = do
  let url = normalized_official_url f
  raise_if (is_empty url) missing_official_url
  url_allowed ← allowed env url
  raise_if (not url_allowed) publish_event_official_url_scheme
  let title = strip f.title
  raise_if (is_empty title) publish_event_title
  raise_if (text_eq (strip_slashes title) (strip_slashes url)) publish_event_title
  taken ← gets (url_taken excluded url)
  raise_if taken duplicate_official_url
  raise_if (period_reversed f.start_date f.end_date) invalid_event_period
  category_ok ← gets (is_valid_category f.category)
  raise_if (not category_ok) publish_event_category
  raise_if (not (is_valid_region f.region)) publish_event_region
  pure (title, url)

-- The "key" of a check.
pub data CheckKey : Type 0 where
  official_url official_url_scheme title title_not_url official_url_unique : CheckKey
  period category region : CheckKey

-- A check without its label.
pub record Check : Type 0 where
  pub key : CheckKey
  pub passed : Bool

abbrev pub check : CheckKey → Bool → Check
check key passed = record { key = key; passed = passed }

-- `official_url_present and _is_allowed_official_url(...)`: the call is made only where there is
-- an address
abbrev pub scheme_passed : Platform → Text → Result Error Bool
scheme_passed env url = if is_empty url then ok false else is_allowed_official_url env url

unfoldable pub publish_field_checks : Platform → Fields → Option ℕ → Db → Result Error (List Check)
unfolding strip is_allowed_official_url strip_slashes url_taken is_valid_category is_valid_region
publish_field_checks env f excluded db =
    let url = normalized_official_url f in
    let name = strip f.title in
    elim (scheme_passed env url) [
      | err e ↦ err e
      | ok scheme ↦ ok (
          check CheckKey.official_url (not (is_empty url))
          ∷ check CheckKey.official_url_scheme scheme
          ∷ check CheckKey.title (not (is_empty name))
          ∷ check CheckKey.title_not_url (
              is_empty name
              || is_empty url
              || not (text_eq (strip_slashes name) (strip_slashes url)))
          ∷ check CheckKey.official_url_unique
              (not (is_empty url) && not (url_taken excluded url db))
          ∷ check CheckKey.period (not (period_reversed f.start_date f.end_date))
          ∷ check CheckKey.category (is_valid_category f.category db)
          ∷ check CheckKey.region (is_valid_region f.region)
          ∷ [])
    ]
