-- ===== src/Publishing/Checks/Agree.antt =====
-- The two forms of the publication checks of events/services.py agree.
use takulife.Common.{
  ℕ, Bool, true, false, not, ◌&&◌, ◌||◌, Option, none, some, List, [], ◌∷◌, ◌≡◌, refl, Text,
  text_eq, is_empty, strip, if◌then◌else◌,
}
use takulife.Common.Exec.{Result, ok, err, pure, gets, raise_if, ◌>>=◌, ◌>>◌}
use takulife.Publishing.Model.{
  Fields, Db, Error, Platform, duplicate_official_url, missing_official_url, invalid_event_period,
  publish_event_title, publish_event_category, publish_event_region,
  publish_event_official_url_scheme,
}
use takulife.Publishing.Urls.{is_allowed_official_url}
use takulife.Publishing.Checks.{
  normalized_official_url, validate_publish_fields, publish_field_checks, Check, CheckKey, check,
  strip_slashes, url_taken, is_valid_category, is_valid_region, period_reversed,
}

-- The exception that stands for a check that is not passed.
abbrev pub error_of : CheckKey → Error
error_of CheckKey.official_url = missing_official_url
error_of CheckKey.official_url_scheme = publish_event_official_url_scheme
error_of CheckKey.title = publish_event_title
error_of CheckKey.title_not_url = publish_event_title
error_of CheckKey.official_url_unique = duplicate_official_url
error_of CheckKey.period = invalid_event_period
error_of CheckKey.category = publish_event_category
error_of CheckKey.region = publish_event_region

-- The exception of the first check that is not passed.
abbrev pub first_error : List Check → Option Error
first_error [] = none
first_error (c ∷ cs) = if c.passed then first_error cs else some (error_of c.key)

abbrev pub settle : Text × Text → Option Error → Result Error (Text × Text)
settle texts none = ok texts
settle texts (some e) = err e

-- What the report says of the call that raises.
abbrev pub verdict : Text × Text → Result Error (List Check) → Result Error (Text × Text)
verdict texts (err e) = err e
verdict texts (ok checks) = settle texts (first_error checks)

-- `_validate_publish_fields` from the check of the category, of the address and from the start, on
-- the outcomes of its tests.
abbrev vocabulary : Text × Text → Bool → Bool → Db → Result Error (Text × Text) × Db
vocabulary texts known region = do
  raise_if (not known) publish_event_category
  raise_if (not region) publish_event_region
  pure texts

abbrev stored :
    Text × Text → Bool → Bool → (Db → Bool) → Bool → Db → Result Error (Text × Text) × Db
stored texts taken reversed known region = do
  raise_if taken duplicate_official_url
  raise_if reversed invalid_event_period
  category_ok ← gets known
  vocabulary texts category_ok region

abbrev raising :
    Text
    → Text
    → Result Error Bool
    → Bool
    → (Db → Bool)
    → Bool
    → (Db → Bool)
    → Bool
    → Db
    → Result Error (Text × Text) × Db
raising url name scheme same taken reversed known region = do
  raise_if (is_empty url) missing_official_url
  url_allowed ← (λ db. (scheme, db))
  raise_if (not url_allowed) publish_event_official_url_scheme
  raise_if (is_empty name) publish_event_title
  raise_if same publish_event_title
  url_taken ← gets taken
  stored (name, url) url_taken reversed known region

-- The last four checks, and all of them, on the outcomes of the tests.
abbrev last_checks : Bool → Bool → Bool → Bool → List Check
last_checks unique reversed known region =
    check CheckKey.official_url_unique unique
    ∷ check CheckKey.period (not reversed)
    ∷ check CheckKey.category known
    ∷ check CheckKey.region region
    ∷ []

abbrev reporting :
    Text → Text → Result Error Bool → Bool → Bool → Bool → Bool → Bool → Result Error (List Check)
reporting url name scheme same taken reversed known region =
    elim (if is_empty url then ok false else scheme) [
      | err e ↦ err e
      | ok s ↦ ok (
          check CheckKey.official_url (not (is_empty url))
          ∷ check CheckKey.official_url_scheme s
          ∷ check CheckKey.title (not (is_empty name))
          ∷ check CheckKey.title_not_url (is_empty name || is_empty url || not same)
          ∷ last_checks (not (is_empty url) && not taken) reversed known region)
    ]

vocabulary_lem :
    (texts : Text × Text) (known region : Bool) (db : Db)
    → vocabulary texts known region db
      ≡ (settle texts (first_error (last_checks true false known region)), db)
vocabulary_lem texts false region db = refl
vocabulary_lem texts true false db = refl
vocabulary_lem texts true true db = refl

stored_lem :
    (texts : Text × Text) (taken reversed : Bool) (known : Db → Bool) (region : Bool) (db : Db)
    → stored texts taken reversed known region db
      ≡ (settle texts (first_error (last_checks (not taken) reversed (known db) region)), db)
stored_lem texts true reversed known region db = refl
stored_lem texts false true known region db = refl
stored_lem texts false false known region db = vocabulary_lem texts (known db) region db

-- The first check that is not passed gives the exception.
raising-reporting :
    (url name : Text) (scheme : Result Error Bool) (same : Bool) (taken : Db → Bool)
    (reversed : Bool) (known : Db → Bool) (region : Bool) (db : Db)
    → raising url name scheme same taken reversed known region db ≡ (
      verdict (name, url) (reporting url name scheme same (taken db) reversed (known db) region),
      db,
    )
raising-reporting [] name scheme same taken reversed known region db = refl
raising-reporting (c ∷ cs) name (err e) same taken reversed known region db = refl
raising-reporting (c ∷ cs) name (ok false) same taken reversed known region db = refl
raising-reporting (c ∷ cs) [] (ok true) same taken reversed known region db = refl
raising-reporting (c ∷ cs) (d ∷ ds) (ok true) true taken reversed known region db = refl
raising-reporting (c ∷ cs) (d ∷ ds) (ok true) false taken reversed known region db =
    stored_lem (d ∷ ds, c ∷ cs) (taken db) reversed known region db

module _ (env : Platform) (f : Fields) (excluded : Option ℕ) (db : Db) where
  -- For all fields and any row left out, the check that raises ends as the report says: with the
  -- exception of the report's first check that did not pass, or with the stripped title and URL
  -- where all passed, or with the exception that the report raises itself; and it leaves the
  -- stored state as it was.
  pub validate-publish_field_checks : validate_publish_fields env f excluded db ≡ (
    verdict (strip f.title, normalized_official_url f) (publish_field_checks env f excluded db),
    db,
  )
  unfolding validate_publish_fields publish_field_checks
  validate-publish_field_checks =
      raising-reporting (normalized_official_url f) (strip f.title)
        (is_allowed_official_url env (normalized_official_url f))
        (text_eq (strip_slashes (strip f.title)) (strip_slashes (normalized_official_url f)))
        (url_taken excluded (normalized_official_url f)) (period_reversed f.start_date f.end_date)
        (is_valid_category f.category) (is_valid_region f.region) db
