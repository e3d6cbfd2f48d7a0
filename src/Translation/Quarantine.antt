-- ===== src/Translation/Quarantine.antt =====
-- The rules by which a translation is quarantined, and the hash of an event's fields:
-- `quarantine_reason` and `source_hash` of events/content_translation.py. The modules `re`,
-- `unicodedata` and `hashlib` of Python are parameters.
use takulife.Common.{
  ℕ, ◌+◌, ◌*◌, max, String, Bool, true, false, not, ◌&&◌, ◌||◌, Option, none, some, List, [], ◌∷◌,
  ◌++◌, ◌==◌, ltb, leb, map, length, exists, str_eq, or_else, Text, codes, text_eq, text_in,
  is_empty, strip, if◌then◌else◌,
}
use takulife.Extraction.Delimiters.{contains}
use takulife.Translation.Model.{Language, en, ja, zh_hans, Fields, Rules}
pub mod Faithful
pub mod Kept

-- The patterns of the module, by their names.
pub data Pattern : Type 0 where
  tag url email currency digit_comma digits time_minutes bare_scheme whitespace : Pattern
  hangul latin kana hanja : Pattern

-- `findall`, `sub` with the empty text, and `search` of a pattern; the two groups that
-- `_KOREAN_UNIT_RE` finds; the normal forms, `upper`, the control characters, and the hash.
pub record Python : Type 0 where
  pub findall : Pattern → Text → List Text
  pub erase : Pattern → Text → Text
  pub search : Pattern → Text → Bool
  pub korean_units : Text → List (Text × Text)
  pub nfc : Text → Text
  pub nfkc : Text → Text
  pub upper : Text → Text
  pub is_control : ℕ → Bool
  pub sha256 : Text → ℕ

pub data Field : Type 0 where
  title work_title location_name summary : Field

abbrev pub value : Field → Fields → Text
value Field.title f = f.title
value Field.work_title f = f.work_title
value Field.location_name f = f.location_name
value Field.summary f = f.summary

abbrev pub field_max_length : Field → ℕ
field_max_length Field.summary = 2000
field_max_length _ = 400

-- `_PROPER_NOUN_FIELDS`
abbrev pub is_proper_noun : Field → Bool
is_proper_noun Field.work_title = true
is_proper_noun Field.location_name = true
is_proper_noun _ = false

unfoldable pub source_hash : Python → Fields → ℕ
source_hash py f = py.sha256 (
    py.nfc f.title
    ++ 31 ∷ (py.nfc f.work_title ++ 31 ∷ (py.nfc f.location_name ++ 31 ∷ py.nfc f.summary)))

-- `token.lstrip("0")`
unfoldable pub lstrip_zeros : Text → Text
lstrip_zeros [] = []
lstrip_zeros (c ∷ cs) = let rest = lstrip_zeros cs in if c == b'0' then rest else c ∷ cs

unfoldable pub strip_leading_zeros : Text → Text
unfolding lstrip_zeros
strip_leading_zeros token =
    let stripped = lstrip_zeros token in if is_empty stripped then codes "0" else stripped

unfoldable pub raw_digits : Python → Text → List Text
raw_digits py text = py.findall Pattern.digits (py.erase Pattern.digit_comma (py.nfkc text))

unfoldable pub translated_digits : Python → Text → List Text
unfolding strip_leading_zeros
translated_digits py text = map strip_leading_zeros (
    py.findall Pattern.digits
      (py.erase Pattern.digit_comma (py.erase Pattern.time_minutes (py.nfkc text))))

-- `_UNIT_ZEROS`
abbrev pub unit_zeros : Text → Text
unit_zeros u =
    if text_eq u (codes "만")
    then codes "0000"
    else if text_eq u (codes "천")
    then codes "000"
    else codes "00000000"

unfoldable pub source_allowed_digits : Python → Text → List Text
unfolding strip_leading_zeros raw_digits
source_allowed_digits py text =
    map strip_leading_zeros (raw_digits py text)
    ++ map (λ (m : Text × Text). strip_leading_zeros (m.0 ++ unit_zeros m.1))
        (py.korean_units (py.nfkc text))

-- `_translated_digits(t) - _source_allowed_digits(s)` is not empty
unfoldable pub invents_number : Python → Text → Text → Bool
unfolding translated_digits source_allowed_digits exists
invents_number py s t =
    exists (λ d. not (text_in d (source_allowed_digits py s))) (translated_digits py t)

unfoldable pub misses_number : Python → Text → Text → Bool
unfolding raw_digits exists
misses_number py s t =
    exists (λ d. leb 4 (length d) && not (text_in d (raw_digits py t))) (raw_digits py s)

-- `.,;:!?)]'"`
abbrev pub is_trailing : ℕ → Bool
is_trailing c =
    c == 46
    || c == 44
    || c == 59
    || c == 58
    || c == 33
    || c == 63
    || c == 41
    || c == 93
    || c == 39
    || c == 34

unfoldable pub clean_markup_token : Text → Text
clean_markup_token [] = []
clean_markup_token (c ∷ cs) =
    let rest = clean_markup_token cs in if is_trailing c && is_empty rest then [] else c ∷ rest

unfoldable pub markup_token_is_foreign : Python → Text → Text → Bool
unfolding clean_markup_token contains
markup_token_is_foreign py haystack token =
    let cleaned = clean_markup_token token in
    is_empty cleaned || py.search Pattern.bare_scheme cleaned || not (contains cleaned haystack)

abbrev pub markup_tokens : Python → Text → List Text
markup_tokens py t =
    py.findall Pattern.tag t ++ py.findall Pattern.url t ++ py.findall Pattern.email t

unfoldable pub unexpected_markup : Python → Text → Text → Text → Text → Bool
unfolding markup_token_is_foreign exists
unexpected_markup py s ks t kt =
    exists (markup_token_is_foreign py s) (markup_tokens py t)
    || exists (markup_token_is_foreign py ks) (markup_tokens py kt)

unfoldable pub has_control_char : Python → Text → Bool
unfolding exists
has_control_char py t = exists (λ c. not (c == 10 || c == 9) && py.is_control c) t

unfoldable pub currency_changed : Python → Text → Text → Bool
unfolding exists contains
currency_changed py ks kt =
    exists (λ m. not (contains (py.upper m) (py.upper ks))) (py.findall Pattern.currency kt)

abbrev pub is_asian : Language → Bool
is_asian en = false
is_asian _ = true

-- `is_proper_noun_latin_exception`
abbrev pub latin_exception : Python → Language → Field → Text → Bool
latin_exception py l field kt =
    is_proper_noun field
    && is_asian l
    && py.search Pattern.latin kt
    && not (py.search Pattern.kana kt)
    && not (py.search Pattern.hanja kt)

unfoldable pub wrong_script : Python → Language → Field → Text → Text → Bool
wrong_script py en field kt nospace = not (py.search Pattern.latin kt)
wrong_script py ja field kt nospace =
    not (latin_exception py ja field kt)
    && not (py.search Pattern.kana kt)
    && not (leb (length nospace) 10 && py.search Pattern.hanja kt)
wrong_script py zh_hans field kt nospace =
    not (latin_exception py zh_hans field kt)
    && (not (py.search Pattern.hanja kt) || py.search Pattern.kana kt)

unfoldable pub is_ascii : Text → Bool
unfolding exists
is_ascii t = not (exists (λ c. leb 128 c) t)

-- The reason, where the test holds, or what the rest finds.
abbrev pub reason_or : Bool → String → Option String → Option String
reason_or true reason rest = some reason
reason_or false reason rest = rest

-- The last tests of `_field_quarantine_reason`, after those on the digits
unfoldable pub script_reason : Python → Language → Field → Text → Text → Text → Text → Option String
unfolding wrong_script strip is_ascii
script_reason py l field ks kt ks_nospace kt_nospace =
    if not (is_empty ks_nospace) && is_ascii (strip ks) && text_eq (strip kt) (strip ks)
    then none
    else reason_or (wrong_script py l field kt kt_nospace) "wrong_script" none

unfoldable pub content_reason : Python → Language → Field → Text → Text → Option String
unfolding unexpected_markup currency_changed invents_number misses_number script_reason strip
content_reason py l field s t =
    let ks = py.nfkc s in
    let kt = py.nfkc t in
    let ks_nospace = py.erase Pattern.whitespace ks in
    let kt_nospace = py.erase Pattern.whitespace kt in
    reason_or (ltb (max 40 (6 * length ks_nospace)) (length kt_nospace)) "too_long" (
      reason_or (unexpected_markup py s ks t kt) "unexpected_markup" (
        reason_or (currency_changed py ks kt) "currency_changed" (
          reason_or (invents_number py s t) "number_invented" (
            reason_or (misses_number py s t) "number_missing" (
              reason_or (is_empty (strip s) && not (is_empty (strip t))) "nonempty_for_empty_source"
                (reason_or (not (is_empty (strip s)) && is_empty (strip t)) "empty_translation" (
                  reason_or (py.search Pattern.hangul kt) "hangul_residue"
                    (script_reason py l field ks kt ks_nospace kt_nospace))))))))

-- `_field_quarantine_reason`
unfoldable pub field_quarantine_reason : Python → Language → Field → Text → Text → Option String
unfolding has_control_char content_reason strip
field_quarantine_reason py l field s t =
    reason_or (ltb (field_max_length field) (length t)) "too_long" (
      reason_or (has_control_char py t) "control_char"
        (if is_empty (strip s) && is_empty (strip t) then none else content_reason py l field s t))

unfoldable pub field_reason : Python → Language → Fields → Fields → Field → Option String
unfolding field_quarantine_reason
field_reason py l source target field =
    field_quarantine_reason py l field (value field source) (value field target)

-- The loop over the fields
unfoldable pub first_reason : Python → Language → Fields → Fields → List Field → Option String
unfolding field_reason
first_reason py l source target [] = none
first_reason py l source target (field ∷ fields) =
    let rest = first_reason py l source target fields in
    elim (field_reason py l source target field) [ none ↦ rest | some reason ↦ some reason ]

abbrev pub translated_fields : List Field
translated_fields = Field.title ∷ Field.work_title ∷ Field.location_name ∷ Field.summary ∷ []

unfoldable pub quarantine_reason : Python → Language → Fields → Fields → Option String
unfolding first_reason
quarantine_reason py l source target = first_reason py l source target translated_fields

-- The rules of the program.
unfoldable pub rules_of : Python → Rules
unfolding source_hash quarantine_reason
rules_of py = record {
  source_hash = source_hash py;
  normalize = py.nfc;
  quarantine_reason = quarantine_reason py;
}
