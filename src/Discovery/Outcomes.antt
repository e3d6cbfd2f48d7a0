-- ===== src/Discovery/Outcomes.antt =====
-- How a finished run is classified, and which reported outcomes are kept:
-- `_classify_candidate_outcome`, `_classify_event_outcome`, `_combine_outcomes` and
-- `_clean_event_outcomes` of drafts/discovery_runs.py.
pub mod Cleaned
pub mod Combined
use takulife.Common.{
  ℕ, String, Bool, true, false, not, ◌&&◌, Option, none, some, List, [], ◌∷◌, Text, codes, text_in,
  one_of, length, take, leb, ◌==◌, text_eq, str_eq, is_control, if◌then◌else◌, select,
}
use takulife.Common.Exec.{Result, ok, err}
use takulife.Discovery.Model.{
  RunStatus, CandidateStatus, EventOutcome, Error, type_error, value_error,
}

pub data Outcome : Type 0 where
  absent succeeded failed partial : Outcome

abbrev pub is_promoted : CandidateStatus → Bool
is_promoted CandidateStatus.promoted = true
is_promoted _ = false

abbrev pub is_failed : CandidateStatus → Bool
is_failed CandidateStatus.failed = true
is_failed _ = false

-- `all(test(x) for x in xs)`
unfoldable pub all_of {ℓ} : {A : Type ℓ} → (A → Bool) → List A → Bool
all_of p [] = true
all_of p (x ∷ xs) = p x && all_of p xs

unfoldable pub classify_candidate_outcome : List CandidateStatus → Outcome
unfolding all_of
classify_candidate_outcome [] = absent
classify_candidate_outcome (s ∷ ss) =
    if all_of is_promoted (s ∷ ss)
    then succeeded
    else if all_of is_failed (s ∷ ss)
    then failed
    else partial

unfoldable pub classify_event_outcome : ℕ → ℕ → ℕ → Outcome
classify_event_outcome attempted failures created_count =
    if attempted == 0
    then absent
    else if failures == 0
    then succeeded
    else if created_count == 0
    then failed
    else partial

abbrev is_absent : Outcome → Bool
is_absent absent = true
is_absent _ = false

abbrev is_success : Outcome → Bool
is_success succeeded = true
is_success _ = false

abbrev is_failure : Outcome → Bool
is_failure failed = true
is_failure _ = false

-- The list of the outcomes other than "none"; both tests hold of the empty list.
unfoldable pub combine_outcomes : Outcome → Outcome → RunStatus
unfolding all_of select
combine_outcomes candidate_outcome event_outcome =
    let existing = select (λ o. not (is_absent o)) (candidate_outcome ∷ event_outcome ∷ []) in
    if all_of is_success existing
    then RunStatus.succeeded
    else if all_of is_failure existing
    then RunStatus.failed
    else RunStatus.partially_failed

-- What the runner sent as `outcome`: a text, another value that can be a key, or one that cannot.
pub data Key : Type 0 where
  name : String → Key
  hashable unhashable : Key

-- One item of the reported list: no object, or what `get` gives for its keys. `none` stands for
-- a `url` or a `reason` that is missing or no text.
pub data Reported : Type 0 where
  other : Reported
  object : Option Text → Key → Option String → Reported

-- `EVENT_OUTCOME_REASONS.get(outcome)` for a text
unfoldable pub event_outcome_reasons : String → Option (List String)
event_outcome_reasons outcome =
    if str_eq outcome "skipped"
    then some ("known_url" ∷ "agent_ended" ∷ "agent_overseas" ∷ [])
    else if str_eq outcome "failed"
    then some (
        "host_blocked" ∷ "blocked" ∷ "fetch_empty" ∷ "interpret_error" ∷ "no_title" ∷ "submit_error"
        ∷ "fetch_error" ∷ [])
    else if str_eq outcome "excluded"
    then some ("not_event" ∷ "overseas" ∷ "ended" ∷ "server_overseas" ∷ "server_ended" ∷ [])
    else if str_eq outcome "created"
    then some ("" ∷ [])
    else if str_eq outcome "duplicate"
    then some ("" ∷ [])
    else none

-- `drafts.candidate_validation.sanitize_text`
unfoldable pub sanitize_text : Text → Text
unfolding is_control select
sanitize_text = select (λ c. not (is_control c))

abbrev prepend : ℕ → Option Text → Option Text
prepend c none = none
prepend c (some s) = some (c ∷ s)

-- `url.split("://", 1)[0]`, where the separator occurs
unfoldable pub before_separator : Text → Option Text
before_separator [] = none
before_separator (c ∷ s) =
    let rest = prepend c (before_separator s) in
    if text_eq (take 3 (c ∷ s)) (codes "://") then some [] else rest

unfoldable pub has_web_scheme : Text → Bool
unfolding before_separator text_in text_eq
has_web_scheme url = elim (before_separator url) [
  | none ↦ false
  | some scheme ↦ text_in scheme (codes "http" ∷ codes "https" ∷ [])
]

abbrev pub max_event_outcomes : ℕ
max_event_outcomes = 20

-- The next item's part in the loop: a kept item is appended, a raise ends the loop.
abbrev pub keep :
    Option EventOutcome → Result Error (List EventOutcome) → Result Error (List EventOutcome)
keep (some o) (ok os) = ok (o ∷ os)
keep none (ok os) = ok os
keep _ (err e) = err e

abbrev pub and_then :
    Result Error (Option EventOutcome)
    → Result Error (List EventOutcome)
    → Result Error (List EventOutcome)
and_then (ok o) rest = keep o rest
and_then (err e) rest = err e

-- `strip` is `_strip_tracking_params`, `none` where it raises `ValueError`: it is urllib's parser
-- and printer of addresses round a filter of the query.
module _ (strip : Text → Option Text) (known_created_urls : List Text) where
  -- The last test of an item, on an address that is clean and a reason that is allowed.
  unfoldable pub check_created : EventOutcome → Result Error (Option EventOutcome)
  unfolding text_in
  check_created o =
      if str_eq o.outcome "created"
      then elim (strip o.url) [
        | none ↦ err value_error
        | some url ↦ ok (if text_in url known_created_urls then some o else none)
      ]
      else ok (some o)

  unfoldable pub check_reason : Text → Key → String → Result Error (Option EventOutcome)
  unfolding check_created event_outcome_reasons one_of
  check_reason url unhashable reason = err type_error
  check_reason url hashable reason = ok none
  check_reason url (name outcome) reason = elim (event_outcome_reasons outcome) [
    | none ↦ ok none
    | some allowed ↦
        if one_of reason allowed
        then check_created (record { url = url; outcome = outcome; reason = reason })
        else ok none
  ]

  -- The body of the loop: `none` is a dropped item.
  unfoldable pub clean_item : Reported → Result Error (Option EventOutcome)
  unfolding check_reason sanitize_text has_web_scheme
  clean_item (object (some raw_url) outcome (some reason)) =
      let url = sanitize_text raw_url in
      if has_web_scheme url && leb (length url) 200
      then check_reason url outcome reason
      else ok none
  clean_item _ = ok none

  unfoldable pub clean_items : List Reported → Result Error (List EventOutcome)
  unfolding clean_item
  clean_items [] = ok []
  clean_items (item ∷ raw) = and_then (clean_item item) (clean_items raw)

  abbrev first_outcomes : Result Error (List EventOutcome) → Result Error (List EventOutcome)
  first_outcomes (ok os) = ok (take max_event_outcomes os)
  first_outcomes (err e) = err e

  -- `none` stands for a value that is no list.
  unfoldable pub clean_event_outcomes : Option (List Reported) → Result Error (List EventOutcome)
  unfolding clean_items
  clean_event_outcomes none = ok []
  clean_event_outcomes (some raw) = first_outcomes (clean_items raw)
