-- ===== src/Submission/Agent/Parse.antt =====
-- `parse_agent_draft_payload`, `_exclusion_reason` and `_build_intake_note` of drafts/agent_drafts.py.
use takulife.Common.{
  ℕ, String, Bool, true, false, not, ◌&&◌, Option, none, some, List, [], ◌∷◌, ◌++◌, is_some, ltb,
  take, str_eq, Text, codes, is_empty, strip, if◌then◌else◌,
}
use takulife.Common.Exec.{Result, ok, err}
use takulife.Discovery.Outcomes.{sanitize_text, all_of}
use takulife.Publishing.Model as Publishing
use takulife.Submission.Model.{
  Exclusion, overseas, ended, Error, agent_draft_schema, value_error, type_error, attribute_error,
}
use takulife.Submission.Agent.{
  Json, text, nested, null, Member, plain, object, AgentPayload, Python, look, required_keys,
  is_source_url, text_member, or_missing, or_text, str_of, truth_of, check_category, check_region,
  check_confidence, normalize_unreadable_date, check_date_range,
}

abbrev pub is_not_kr : Option Member → Bool
is_not_kr (some (plain (text s))) = str_eq s "not_kr"
is_not_kr _ = false

-- `fields.get("end_date") or fields.get("start_date")`
abbrev pub last_day : Option ℕ → Option ℕ → Option ℕ
last_day start none = start
last_day start (some d) = some d

abbrev pub ended_before : ℕ → Option ℕ → Option Exclusion
ended_before today none = none
ended_before today (some d) = if ltb d today then some ended else none

-- `_exclusion_reason`, of the dates that are left; the country is compared as it stands.
unfoldable pub exclusion_reason : ℕ → Option Member → Option ℕ → Option ℕ → Option Exclusion
exclusion_reason today country start end =
    if is_not_kr country then some overseas else ended_before today (last_day start end)

-- `_JUDGMENT_NOTE_PREFIXES.get(...)`: a list or an object cannot be a key.
unfoldable pub judgment_prefix : Option Member → Result Error (Option Text)
judgment_prefix (some (plain (text s))) = ok (
    if str_eq s "unofficial"
    then some (codes "판단: 비공식")
    else if str_eq s "unclear"
    then some (codes "판단: 불명")
    else none)
judgment_prefix (some (plain (nested literal))) = err type_error
judgment_prefix (some (object entries)) = err type_error
judgment_prefix _ = ok none

-- The note as it was given, or the text of the note and its additions.
pub data Note : Type 0 where
  given : Member → Note
  joined : Text → Note

-- `cleaned`, where the contract holds; the dates are those that are left.
pub record AgentEvent : Type 0 where
  pub source_url : Text
  pub fields : List (String × Json)
  pub category : String
  pub region : String
  pub start_date : Option ℕ
  pub end_date : Option ℕ
  pub note : Note

unfoldable pub with_spaces : List Text → Text
with_spaces [] = []
with_spaces (t ∷ ts) = codes " " ++ (t ++ with_spaces ts)

-- `" ".join([cleaned["note"], *note_additions]).strip()`, where there are additions.
unfoldable pub join_note : Member → List Text → Result Error Note
unfolding with_spaces strip
join_note note [] = ok (given note)
join_note (plain (text s)) additions = ok (joined (strip (codes s ++ with_spaces additions)))
join_note note additions = err type_error

abbrev pub is_some_entry : List (String × Json) → Bool
is_some_entry [] = false
is_some_entry (e ∷ es) = true

unfoldable pub has_required_keys : AgentPayload → Bool
unfolding look all_of
has_required_keys p = all_of (λ key. is_some (look key p)) required_keys

module _ (py : Python) where
  -- The event of fields whose region is checked.
  unfoldable pub clean_fields :
      AgentPayload
      → Text
      → List (String × Json)
      → String × List Text
      → Publishing.Db
      → Result Error AgentEvent
  unfolding check_category check_confidence normalize_unreadable_date check_date_range join_note
      look
  clean_fields p url fields (region, region_note) site =
      let (category, category_note) = check_category py (or_text (look "category" fields)) site in
      let (start, start_note) = normalize_unreadable_date py (look "start_date" fields) in
      let (end, end_note) = normalize_unreadable_date py (look "end_date" fields) in
      let (dates, range_note) = check_date_range py start end in
      let additions =
        category_note
        ++ (region_note
            ++ (check_confidence py (or_missing (look "confidence" p))
                ++ (start_note ++ (end_note ++ range_note)))) in
      elim (join_note (or_missing (look "note" p)) additions) [
        | err e ↦ err e
        | ok note ↦ ok (record {
          source_url = url;
          fields = fields;
          category = category;
          region = region;
          start_date = dates.0;
          end_date = dates.1;
          note = note;
        })
      ]

  unfoldable pub clean_members :
      AgentPayload → Text → Option Member → Publishing.Db → Result Error AgentEvent
  unfolding clean_fields check_region look
  clean_members p url (some (object fields)) site =
      elim (check_region py (or_text (look "region" fields))) [
        | err e ↦ err e
        | ok region ↦ clean_fields p url fields region site
      ]
  clean_members p url _ site = err attribute_error

  unfoldable pub clean_source : AgentPayload → Option Text → Publishing.Db → Result Error AgentEvent
  unfolding clean_members look
  clean_source p none site = err value_error
  clean_source p (some url) site = clean_members p url (look "fields" p) site

  unfoldable pub parse_agent_draft_payload : AgentPayload → Publishing.Db → Result Error AgentEvent
  unfolding look is_source_url has_required_keys clean_source
  parse_agent_draft_payload p site = elim (text_member (look "source_url" p)) [
    | none ↦ err agent_draft_schema
    | some url ↦
        if has_required_keys p && is_source_url url
        then clean_source p (py.strip_tracking_params url) site
        else err agent_draft_schema
  ]

  abbrev pub note_text : Note → Text
  note_text (given m) = codes (str_of py m)
  note_text (joined t) = t

  abbrev pub is_noted : Note → Bool
  is_noted (given (plain j)) = truth_of py j
  is_noted (given (object entries)) = is_some_entry entries
  is_noted (joined t) = not (is_empty t)

  abbrev pub note_value : Note → Option Text
  note_value (given (plain null)) = none
  note_value note = some (note_text note)

  -- `_build_intake_note`, none where it gives a note that is null.
  unfoldable pub build_intake_note : AgentPayload → Note → Result Error (Option Text)
  unfolding judgment_prefix look sanitize_text
  build_intake_note p note = elim (judgment_prefix (look "judgment" p)) [
    | err e ↦ err e
    | ok none ↦ ok (note_value note)
    | ok (some label) ↦
        let prefix =
          label
          ++ (codes " — "
              ++ sanitize_text (codes (str_of py (or_missing (look "official_basis" p))))) in
        ok (
          some (
            take 1000 (if is_noted note then prefix ++ (codes "\n" ++ note_text note) else prefix)))
  ]
