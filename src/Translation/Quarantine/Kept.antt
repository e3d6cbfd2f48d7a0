-- ===== src/Translation/Quarantine/Kept.antt =====
-- What `quarantine_reason` of events/content_translation.py lets through.
use takulife.Common.{
  String, Bool, true, false, Bool-cases, not, ◌&&◌, Option, none, some, List, [], ◌∷◌, ◌≡◌, refl,
  arith, inl, inr, All, ltb, length, Text, is_empty, strip, max, ◌*◌, exists,
}
use takulife.Translation.Model.{Language, Fields}
use takulife.Translation.Quarantine.{
  Python, Pattern, Field, value, field_max_length, has_control_char, unexpected_markup, reason_or,
  content_reason, markup_token_is_foreign, markup_tokens, field_quarantine_reason, field_reason,
  first_reason, quarantine_reason, translated_fields,
}
use takulife.Translation.Quarantine.Faithful.{
  IsFaithful, limit_lem, proportion_lem, no_control_lem, currency_lem, long_numbers_lem,
  no_new_number_lem, owns_lem, or_false,
}

reason_none :
    (b : Bool) (reason : String) (rest : Option String)
    → reason_or b reason rest ≡ none
    → (b ≡ false) × (rest ≡ none)
reason_none true reason rest h = cc
reason_none false reason rest h = (refl, h)

differ_lem : (a b : Bool) → (a && not b) ≡ false → (not a && b) ≡ false → a ≡ b
differ_lem true true h k = refl
differ_lem true false h k = cc
differ_lem false true h k = cc
differ_lem false false h k = refl

no_both : {X : Type 0} (a b : Bool) → (a && b) ≡ true → b ≡ false → X
no_both true true h k = cc
no_both true false h k = cc
no_both false b h k = cc

field-IsFaithful :
    (py : Python) (l : Language) (field : Field) (s t : Text)
    → field_quarantine_reason py l field s t ≡ none
    → IsFaithful py field s t
unfolding field_quarantine_reason content_reason unexpected_markup
field-IsFaithful py l field s t h =
    let (long, h1) = reason_none (ltb (field_max_length field) (length t)) _ _ h in
    let short = limit_lem field (length t) long in
    let (clean, h2) = reason_none (has_control_char py t) _ _ h1 in
    elim (Bool-cases (is_empty (strip s) && is_empty (strip t))) [
      | inl b ↦ record {
        within = short;
        no_control = no_control_lem py t clean;
        blank = ground arith;
        content = λ k. no_both (is_empty (strip s)) (is_empty (strip t)) b k;
      }
      | inr b ↦
          let (long, g0) =
            reason_none
              (ltb (max 40 (6 * length (py.erase Pattern.whitespace (py.nfkc s))))
                (length (py.erase Pattern.whitespace (py.nfkc t))))
              _ _ (rw b at h2) in
          let (foreign, g1) = reason_none _ _ _ g0 in
          let (own, own_normalized) =
            or_false (exists (markup_token_is_foreign py s) (markup_tokens py t)) _ foreign in
          let (changed, g2) = reason_none _ _ _ g1 in
          let (invented, g3) = reason_none _ _ _ g2 in
          let (missing, g4) = reason_none _ _ _ g3 in
          let (empty_source, g5) = reason_none _ _ _ g4 in
          let (empty_target, g6) = reason_none _ _ _ g5 in
          let (hangul, g7) = reason_none _ _ _ g6 in
          record {
            within = short;
            no_control = no_control_lem py t clean;
            blank = differ_lem _ _ empty_source empty_target;
            content = λ k. record {
              in_proportion =
                  proportion_lem (length (py.erase Pattern.whitespace (py.nfkc s)))
                    (length (py.erase Pattern.whitespace (py.nfkc t))) long;
              markup = owns_lem py s t own;
              markup_normalized = owns_lem py (py.nfkc s) (py.nfkc t) own_normalized;
              currency = currency_lem py (py.nfkc s) (py.nfkc t) changed;
              no_new_number = no_new_number_lem py s t invented;
              long_numbers = long_numbers_lem py s t missing;
              no_hangul = hangul;
            };
          }
    ]

both_none :
    (o rest : Option String)
    → elim o [ none ↦ rest | some reason ↦ some reason ] ≡ none
    → (o ≡ none) × (rest ≡ none)
both_none none rest h = (refl, h)
both_none (some reason) rest h = cc

fields-IsFaithful :
    (py : Python) (l : Language) (source target : Fields) (fields : List Field)
    → first_reason py l source target fields ≡ none
    → All (λ field. IsFaithful py field (value field source) (value field target)) fields
unfolding first_reason field_reason
fields-IsFaithful py l source target [] h = tt
fields-IsFaithful py l source target (field ∷ fields) h =
    let (one, others) =
      both_none (field_quarantine_reason py l field (value field source) (value field target)) _
        h in
    (
      field-IsFaithful py l field (value field source) (value field target) one,
      fields-IsFaithful py l source target fields others,
    )

-- In a translation that is not quarantined every field has at most 2000 characters for the summary
-- and 400 for the others, no control character but newline and tab, and is blank exactly where the
-- source's field is. Where it is not blank, it is no longer than 40 characters or six times the
-- source, without the spaces; its tags, URLs, addresses and currencies are the source's, with and
-- without normalization for the first three; each of its numbers but the minutes of times is one of
-- the source up to leading zeros, or one that the source writes with a Korean unit; every number of
-- the source of four digits or more is in it; and it has no Hangul.
pub quarantine_reason-IsFaithful :
    (py : Python) (l : Language) (source target : Fields)
    → quarantine_reason py l source target ≡ none
    → All (λ field. IsFaithful py field (value field source) (value field target)) translated_fields
unfolding quarantine_reason
quarantine_reason-IsFaithful py l source target h =
    fields-IsFaithful py l source target translated_fields h
