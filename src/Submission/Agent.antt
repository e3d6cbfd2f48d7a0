-- ===== src/Submission/Agent.antt =====
-- The payload of an event that a runner found, and the checks of its fields in drafts/agent_drafts.py.
use takulife.Common.{
  ℕ, ◌+◌, String, Bool, true, false, not, ◌&&◌, ◌||◌, Option, none, some, List, [], ◌∷◌, ◌++◌,
  first, is_some, ltb, leb, length, take, str_eq, one_of, Text, codes, is_empty, or_else, strip,
  if◌then◌else◌,
}
use takulife.Common.Exec.{Result, ok, err}
use takulife.Discovery.Outcomes.{sanitize_text, all_of}
use takulife.Extraction.Delimiters.{starts_with}
use takulife.Publishing.Model as Publishing
use takulife.Publishing.Checks.{category_exists, is_valid_category, is_valid_region}
use takulife.Submission.Model.{
  Exclusion, overseas, ended, Error, agent_draft_schema, value_error, type_error, attribute_error,
}
pub mod Parse
pub mod Cleaned

-- A value of the payload; a number, and a list or an object in it, is its text in JSON.
pub data Json : Type 0 where
  text number nested : String → Json
  flag : Bool → Json
  null : Json

pub data Member : Type 0 where
  plain : Json → Member
  object : List (String × Json) → Member

abbrev pub AgentPayload : Type 0
AgentPayload = List (String × Member)

-- What Python does to such values: `str` of what is no text, the truth of a number, a list or an
-- object, `0 <= number <= 1`, `date.fromisoformat` (none where it raises), `_strip_tracking_params`
-- (none where it raises), and `urlsplit(url).hostname`.
pub record Python : Type 0 where
  pub str : Member → String
  pub truth : String → Bool
  pub in_unit : String → Bool
  pub fromisoformat : String → Option ℕ
  pub strip_tracking_params : Text → Option Text
  pub hostname : Text → Option Text

abbrev pub value_of {ℓ} : {A : Type ℓ} → Option (String × A) → Option A
value_of none = none
value_of (some (k, v)) = some v

-- `payload.get(key)`
unfoldable pub look {ℓ} : {A : Type ℓ} → String → List (String × A) → Option A
unfolding first
look key entries = value_of (first (λ e. str_eq e.0 key) entries)

abbrev pub required_keys : List String
required_keys =
    "source_url" ∷ "raw_title" ∷ "raw_text" ∷ "fields" ∷ "confidence" ∷ "note" ∷ "platform"
    ∷ "judgment" ∷ "official_basis" ∷ "source_name" ∷ []

abbrev pub max_source_url_length : ℕ
max_source_url_length = 200

unfoldable pub is_source_url : Text → Bool
unfolding starts_with
is_source_url url =
    (starts_with (codes "http://") url || starts_with (codes "https://") url)
    && leb (length url) max_source_url_length

abbrev pub text_member : Option Member → Option Text
text_member (some (plain (text s))) = some (codes s)
text_member _ = none

abbrev pub or_missing : Option Member → Member
or_missing none = plain null
or_missing (some m) = m

abbrev pub or_text : Option Json → Json
or_text none = text ""
or_text (some j) = j

module _ (py : Python) where
  abbrev pub str_of : Member → String
  str_of (plain (text s)) = s
  str_of m = py.str m

  abbrev pub truth_of : Json → Bool
  truth_of (text s) = not (str_eq s "")
  truth_of (number literal) = py.truth literal
  truth_of (nested literal) = py.truth literal
  truth_of (flag b) = b
  truth_of null = false

  -- `_quote_original_value`
  unfoldable pub quote_original_value : Member → Text
  unfolding sanitize_text
  quote_original_value m = take 80 (sanitize_text (codes (str_of m)))

  abbrev pub mismatch : String → Member → List Text
  mismatch label m = (codes label ++ (quote_original_value m ++ codes ")")) ∷ []

  -- `is_valid_category` of any value: the column is compared with its text, and never with null.
  abbrev pub is_known_category : Json → Publishing.Db → Bool
  is_known_category (text s) site = is_valid_category s site
  is_known_category null site = false
  is_known_category j site = category_exists (py.str (plain j)) site

  -- The value that is left, and what the note is given.
  unfoldable pub check_category : Json → Publishing.Db → String × List Text
  unfolding is_valid_category category_exists quote_original_value
  check_category value site =
      if is_known_category value site
      then (str_of (plain value), [])
      else ("", mismatch "카테고리 값 불일치(원값 " (plain value))

  abbrev pub refused_region : Json → String × List Text
  refused_region value = ("", mismatch "지역 값 불일치(원값 " (plain value))

  -- A list or an object cannot be a key of `REGION_LABELS`.
  unfoldable pub check_region : Json → Result Error (String × List Text)
  unfolding is_valid_region quote_original_value
  check_region (text s) = ok (if is_valid_region s then (s, []) else refused_region (text s))
  check_region (nested literal) = err type_error
  check_region value = ok (refused_region value)

  abbrev pub is_confidence : Member → Bool
  is_confidence (plain (number literal)) = py.in_unit literal
  is_confidence _ = false

  unfoldable pub check_confidence : Member → List Text
  unfolding quote_original_value
  check_confidence m = if is_confidence m then [] else mismatch "confidence 값 불일치(원값 " m

  abbrev pub parsed_date : Json → Option (String × ℕ)
  parsed_date (text s) = elim (py.fromisoformat s) [ none ↦ none | some d ↦ some (s, d) ]
  parsed_date _ = none

  -- `_normalize_unreadable_date`
  unfoldable pub normalize_unreadable_date : Option Json → Option (String × ℕ) × List Text
  unfolding quote_original_value
  normalize_unreadable_date none = (none, [])
  normalize_unreadable_date (some value) =
      if truth_of value
      then (
        parsed_date value,
        if is_some (parsed_date value) then [] else mismatch "날짜 값 불일치(원값 " (plain value),
      )
      else (none, [])

  abbrev pub reversed : String → String → Text
  reversed start end =
      codes "기간 역전(시작 "
      ++ (quote_original_value (plain (text start))
          ++ (codes ", 종료 " ++ (quote_original_value (plain (text end)) ++ codes ")")))

  -- `_check_date_range`
  unfoldable pub check_date_range :
      Option (String × ℕ) → Option (String × ℕ) → (Option ℕ × Option ℕ) × List Text
  unfolding quote_original_value
  check_date_range (some (start, from)) (some (end, to)) =
      if ltb to from then ((none, none), reversed start end ∷ []) else ((some from, some to), [])
  check_date_range start end = ((value_of start, value_of end), [])
