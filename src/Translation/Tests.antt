-- ===== src/Translation/Tests.antt =====
-- A queue of three events, and the theorems at it: events/translation_queue.py and
-- events/content_translation.py.
use takulife.Common.{
  ℕ, ◌+◌, String, Bool, true, false, not, ◌&&◌, ◌||◌, none, some, List, [], ◌∷◌, ◌≡◌, refl, min,
  length, leb, exists, first, update, codes, text_eq, text_in, strip, All, if◌then◌else◌,
}
use takulife.Common.Exec.{ok}
use takulife.Translation.Model.{
  en, ja, Fields, Event, Value, LanguageValue, Translations, Rules, saved,
}
use takulife.Translation.Quarantine.{
  Python, Pattern, rules_of, quarantine_reason, value, translated_fields,
}
use takulife.Translation.Quarantine.Faithful.{IsFaithful}
use takulife.Translation.Quarantine.Kept.{quarantine_reason-IsFaithful}
use takulife.Translation.Queue.{pending_events, queue_report, submit_translation}
use takulife.Translation.Queue.Report.{pending_events-queue_report}
use takulife.Translation.Queue.Submitted.{Submitted, submit-Submitted}

abbrev is_digit : ℕ → Bool
is_digit c = leb 48 c && leb c 57

abbrev is_hangul : ℕ → Bool
is_hangul c = leb 44032 c && leb c 55203

abbrev is_kana : ℕ → Bool
is_kana c = leb 12352 c && leb c 12543

abbrev is_latin : ℕ → Bool
is_latin c = (leb 65 c && leb c 90) || (leb 97 c && leb c 122)

-- Numbers are single digits here, and nothing is erased.
abbrev py : Python
unfolding exists
py = record {
  findall = λ p t. elim p [
    | Pattern.digits ↦ if exists is_digit t then codes "1" ∷ [] else []
    | Pattern.tag ↦ []
    | Pattern.url ↦ []
    | Pattern.email ↦ []
    | Pattern.currency ↦ []
    | Pattern.digit_comma ↦ []
    | Pattern.time_minutes ↦ []
    | Pattern.bare_scheme ↦ []
    | Pattern.whitespace ↦ []
    | Pattern.hangul ↦ []
    | Pattern.latin ↦ []
    | Pattern.kana ↦ []
    | Pattern.hanja ↦ []
  ];
  erase = λ p t. t;
  search = λ p t. elim p [
    | Pattern.hangul ↦ exists is_hangul t
    | Pattern.latin ↦ exists is_latin t
    | Pattern.kana ↦ exists is_kana t
    | Pattern.tag ↦ false
    | Pattern.url ↦ false
    | Pattern.email ↦ false
    | Pattern.currency ↦ false
    | Pattern.digit_comma ↦ false
    | Pattern.digits ↦ false
    | Pattern.time_minutes ↦ false
    | Pattern.bare_scheme ↦ false
    | Pattern.whitespace ↦ false
    | Pattern.hanja ↦ false
  ];
  korean_units = λ t. [];
  nfc = λ t. t;
  nfkc = λ t. t;
  upper = λ t. t;
  is_control = λ c. not (leb 32 c);
  sha256 = λ t. length t;
}

abbrev fields : String → Fields
fields t = record { title = codes t; work_title = []; location_name = []; summary = [] }

abbrev event : ℕ → String → Event
event pk t = record { pk = pk; is_published = true; fields = fields t; text_translations = none }

abbrev db : List Event
db = event 1 "팝업 1" ∷ record (event 2 "x") { is_published = false } ∷ event 3 "전시" ∷ []

abbrev language : String → LanguageValue
language t = LanguageValue.dict (
    ("title", Value.str (codes t))
    ∷ ("work_title", Value.str [])
    ∷ ("location_name", Value.str [])
    ∷ ("summary", Value.str [])
    ∷ [])

-- The Japanese title has no kana.
abbrev translations : Translations
translations =
    Translations.dict
      (("en", language "Popup 1") ∷ ("ja", language "Popup 1") ∷ ("zh-hans", language "快闪 1") ∷ [])

abbrev rules : Rules
unfolding rules_of
rules = rules_of py

two_pending : length (pending_events rules 5 db) ≡ 2
unfolding pending_events rules
two_pending = refl

english_is_kept : quarantine_reason py en (fields "팝업 1") (fields "Popup 1") ≡ none
unfolding quarantine_reason py strip text_eq exists text_in
english_is_kept = refl

japanese_is_not : quarantine_reason py ja (fields "팝업 1") (fields "Popup 1") ≡ some "wrong_script"
unfolding quarantine_reason py strip text_eq exists text_in
japanese_is_not = refl

-- Only the English translation is saved.
english_is_saved :
    (submit_translation rules 1 7 translations db).0
    ≡ ok (
        saved
          (en ∷ [])
          (record { in_en = none; in_ja = some "wrong_script"; in_zh_hans = some "wrong_script" }))
unfolding submit_translation update rules quarantine_reason py strip text_eq text_in exists first
english_is_saved = refl

pending_events-queue_report_example :
    (length (pending_events rules 1 db) ≡ min 1 (queue_report rules db).pending)
    × ((queue_report rules db).published
        ≡ (queue_report rules db).pending
          + (queue_report rules db).up_to_date
          + (queue_report rules db).manual)
pending_events-queue_report_example = pending_events-queue_report rules 1 db

submit-Submitted_example :
    Submitted rules 1 7 translations db (submit_translation rules 1 7 translations db)
submit-Submitted_example = submit-Submitted rules 1 7 translations db

quarantine_reason-IsFaithful_example :
    All
      (λ field. IsFaithful py field (value field (fields "팝업 1")) (value field (fields "Popup 1")))
      translated_fields
quarantine_reason-IsFaithful_example =
    quarantine_reason-IsFaithful py en (fields "팝업 1") (fields "Popup 1") english_is_kept
