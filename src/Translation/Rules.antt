-- ===== src/Translation/Rules.antt =====
-- `validate_translations` and `select_display` of events/content_translation.py, for every rule by
-- which a translation is quarantined.
use takulife.Common.{
  ℕ, String, Bool, true, false, not, ◌&&◌, ◌||◌, Option, none, some, List, [], ◌∷◌, ◌==◌, exists,
  one_of, str_eq, Text, if◌then◌else◌,
}
use takulife.Common.Exec.{Result, ok, err}
use takulife.Translation.Model.{
  Language, en, ja, zh_hans, PerLanguage, Fields, Stored, Value, str, not_str, LanguageValue,
  Translations, Error, schema, nul, Rules,
}

abbrev pub code : Language → String
code en = "en"
code ja = "ja"
code zh_hans = "zh-hans"

abbrev pub each : {A : Type 0} → (Language → A) → PerLanguage A
each f = record { in_en = f en; in_ja = f ja; in_zh_hans = f zh_hans }

abbrev pub at_language : {A : Type 0} → PerLanguage A → Language → A
at_language p en = p.in_en
at_language p ja = p.in_ja
at_language p zh_hans = p.in_zh_hans

abbrev pub target_codes : List String
target_codes = "en" ∷ "ja" ∷ "zh-hans" ∷ []

abbrev pub translated_fields : List String
translated_fields = "title" ∷ "work_title" ∷ "location_name" ∷ "summary" ∷ []

unfoldable pub keys_of : {A : Type 0} → List (String × A) → List String
keys_of [] = []
keys_of ((k, a) ∷ ps) = k ∷ keys_of ps

-- `set(a) != set(b)`
unfoldable pub same_set : List String → List String → Bool
unfolding exists one_of
same_set a b = not (exists (λ s. not (one_of s b)) a) && not (exists (λ s. not (one_of s a)) b)

abbrev pub is_str : Value → Bool
is_str (str text) = true
is_str not_str = false

unfoldable pub all_str : List (String × Value) → Bool
all_str [] = true
all_str ((k, v) ∷ ps) = is_str v && all_str ps

unfoldable pub is_language_value : LanguageValue → Bool
unfolding same_set keys_of all_str
is_language_value (LanguageValue.dict ps) = same_set (keys_of ps) translated_fields && all_str ps
is_language_value LanguageValue.not_dict = false

unfoldable pub all_language_values : List (String × LanguageValue) → Bool
unfolding is_language_value
all_language_values [] = true
all_language_values ((k, v) ∷ ps) = is_language_value v && all_language_values ps

-- The tests that end in "schema".
unfoldable pub has_schema : Translations → Bool
unfolding same_set keys_of all_language_values
has_schema (Translations.dict ps) = same_set (keys_of ps) target_codes && all_language_values ps
has_schema Translations.not_dict = false

-- `"\x00" in value`
unfoldable pub has_nul : Text → Bool
has_nul [] = false
has_nul (c ∷ cs) = c == 0 || has_nul cs

unfoldable pub value_nul : List (String × Value) → Bool
unfolding has_nul
value_nul [] = false
value_nul ((k, str text) ∷ ps) = has_nul text || value_nul ps
value_nul ((k, not_str) ∷ ps) = value_nul ps

unfoldable pub language_nul : List (String × LanguageValue) → Bool
unfolding value_nul
language_nul [] = false
language_nul ((k, LanguageValue.dict vs) ∷ ps) = value_nul vs || language_nul ps
language_nul ((k, LanguageValue.not_dict) ∷ ps) = language_nul ps

unfoldable pub any_nul : Translations → Bool
unfolding language_nul
any_nul (Translations.dict ps) = language_nul ps
any_nul Translations.not_dict = false

-- `d[key]` where the key is known to be there.
unfoldable pub value_at : List (String × Value) → String → Text
value_at [] key = []
value_at ((k, str text) ∷ ps) key =
    let rest = value_at ps key in if str_eq k key then text else rest
value_at ((k, not_str) ∷ ps) key = value_at ps key

unfoldable pub fields_in : LanguageValue → Fields
unfolding value_at
fields_in (LanguageValue.dict vs) = record {
  title = value_at vs "title";
  work_title = value_at vs "work_title";
  location_name = value_at vs "location_name";
  summary = value_at vs "summary";
}
fields_in LanguageValue.not_dict = record {
  title = [];
  work_title = [];
  location_name = [];
  summary = [];
}

unfoldable pub language_at : List (String × LanguageValue) → String → Fields
unfolding fields_in
language_at [] key = fields_in LanguageValue.not_dict
language_at ((k, v) ∷ ps) key =
    let rest = language_at ps key in if str_eq k key then fields_in v else rest

-- `translations[language]`
unfoldable pub fields_at : Translations → Language → Fields
unfolding language_at fields_in
fields_at (Translations.dict ps) l = language_at ps (code l)
fields_at Translations.not_dict l = fields_in LanguageValue.not_dict

abbrev pub normalized : Rules → Fields → Fields
normalized rules f = record {
  title = rules.normalize f.title;
  work_title = rules.normalize f.work_title;
  location_name = rules.normalize f.location_name;
  summary = rules.normalize f.summary;
}

-- `ValidationResult`
pub record Validated : Type 0 where
  pub languages : PerLanguage (Option Fields)
  pub quarantined : PerLanguage (Option String)

-- What is kept of a translation, by the reason to quarantine it.
abbrev pub kept : Rules → Option String → Fields → Option Fields
kept rules none f = some (normalized rules f)
kept rules (some reason) f = none

unfoldable pub reason_at : Rules → Fields → Translations → Language → Option String
unfolding fields_at
reason_at rules source translations l = rules.quarantine_reason l source (fields_at translations l)

unfoldable pub kept_at : Rules → Fields → Translations → Language → Option Fields
unfolding fields_at reason_at
kept_at rules source translations l =
    kept rules (reason_at rules source translations l) (fields_at translations l)

unfoldable pub validate_translations : Rules → Fields → Translations → Result Error Validated
unfolding has_schema any_nul kept_at reason_at
validate_translations rules source translations =
    if not (has_schema translations)
    then err schema
    else if any_nul translations
    then err nul
    else ok (record {
      languages = each (kept_at rules source translations);
      quarantined = each (reason_at rules source translations);
    })

-- `DisplayText`
pub record DisplayText : Type 0 where
  pub fields : Fields
  pub is_translated : Bool

abbrev pub shown : Fields → Option Fields → DisplayText
shown source (some f) = record { fields = f; is_translated = true }
shown source none = record { fields = source; is_translated = false }

-- `d.get("source_hash") == h`
abbrev pub hash_matches : Option ℕ → ℕ → Bool
hash_matches none h = false
hash_matches (some k) h = k == h

abbrev pub display_stored : Rules → Fields → Stored → Language → DisplayText
display_stored rules source stored l =
    if hash_matches stored.source_hash (rules.source_hash source)
    then shown source (at_language stored.languages l)
    else shown source none

-- `select_display` in a target language; a language that is not one shows the source.
unfoldable pub select_display : Rules → Fields → Option Stored → Option Language → DisplayText
select_display rules source (some stored) (some l) = display_stored rules source stored l
select_display rules source none (some l) = shown source none
select_display rules source _ none = shown source none
