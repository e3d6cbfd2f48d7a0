-- ===== src/Extraction/Delimiters/Ends.antt =====
-- The loop of `_strip_delimiter_literals` in drafts/llm_extraction.py ends, and what it leaves can
-- stand between the delimiters of the prompt.
use takulife.Common.{
  ℕ, zero, suc, ◌*◌, ◌≤◌, ◌<◌, false, Option, some, List, [], ◌∷◌, ◌++◌, ◌≡◌, refl, ap, arith, inl,
  inr, length, take, length-take-le, Bool-cases, Text, All, is_empty,
}
use takulife.Extraction.Delimiters.{
  starts_with, contains, contains_any, remove_each, strip_literals, delimiter_literals,
  strip_delimiter_literals, max_input_chars, raw_title_prompt_max_length, cut, scoped_text,
  scoped_title, untrusted_title_open, untrusted_title_close, untrusted_text_open,
  untrusted_text_close, line, joined, build_user_content,
}
use takulife.Extraction.Delimiters.Removed.{length-remove_each-lt}

-- The loop gives a text, and none of the literals stands in it.
abbrev Ended : List Text → Option Text → Type 0
Ended literals o = (text : Text) × (o ≡ some text) × (contains_any literals text ≡ false)

pub strip_literals-Ended :
    (rounds : ℕ) (literals : List Text) (text : Text)
    → All (λ l. is_empty l ≡ false) literals
    → length text < rounds
    → Ended literals (strip_literals rounds literals text)
unfolding strip_literals
strip_literals-Ended zero literals text n h = elim h [ ]
strip_literals-Ended (suc rounds) literals text n h =
    elim (Bool-cases (contains_any literals text)) [
      | inl e ↦
          rw (strip_literals, e)
            (strip_literals-Ended rounds literals (remove_each literals text) n
              (omega (arith, length-remove_each-lt literals text n e)))
      | inr e ↦ rw (strip_literals, e) (text, refl, e)
    ]

starts_with-take :
    (literal : Text) (n : ℕ) (text : Text)
    → starts_with literal text ≡ false
    → starts_with literal (take n text) ≡ false
unfolding starts_with
starts_with-take [] n text h = cc
starts_with-take (a ∷ literal) zero text h = refl
starts_with-take (a ∷ literal) (suc n) [] h = refl
starts_with-take (a ∷ literal) (suc n) (b ∷ text) h =
    ground (arith, starts_with-take literal n text)

contains-take :
    (literal : Text) (n : ℕ) (text : Text)
    → contains literal text ≡ false
    → contains literal (take n text) ≡ false
unfolding contains
contains-take [] zero [] h = cc
contains-take [] zero (c ∷ text) h = cc
contains-take (a ∷ literal) zero text h = refl
contains-take literal (suc n) [] h = h
contains-take literal (suc n) (c ∷ text) h =
    ground (arith, contains-take literal n text, starts_with-take literal (suc n) (c ∷ text))

contains_any-take :
    (literals : List Text) (n : ℕ) (text : Text)
    → contains_any literals text ≡ false
    → contains_any literals (take n text) ≡ false
unfolding contains_any
contains_any-take [] n text h = refl
contains_any-take (l ∷ ls) n text h =
    ground (arith, contains_any-take ls n text, contains-take l n text)

-- A text of at most `n` characters in which no delimiter stands.
abbrev pub IsScoped : ℕ → Text → Type 0
IsScoped n text = (contains_any delimiter_literals text ≡ false) × (length text ≤ n)

abbrev Scoped : ℕ → Option Text → Type 0
Scoped n o = (text : Text) × (o ≡ some text) × IsScoped n text

cut-Scoped : (n : ℕ) (o : Option Text) → Ended delimiter_literals o → Scoped n (cut n o)
cut-Scoped n o (text, e, h) = (
  take n text,
  ap (cut n) e,
  (contains_any-take delimiter_literals n text h, length-take-le n text),
)

strip-Ended : (text : Text) → Ended delimiter_literals (strip_delimiter_literals text)
unfolding strip_delimiter_literals
strip-Ended text =
    strip_literals-Ended (suc (length text)) delimiter_literals text
      (refl, (refl, (refl, (refl, tt)))) (omega arith)

scoped_text-Scoped : (raw_text : Text) → Scoped max_input_chars (scoped_text raw_text)
unfolding scoped_text
scoped_text-Scoped raw_text =
    cut-Scoped max_input_chars _ (strip-Ended (take (max_input_chars * 2) raw_text))

scoped_title-Scoped :
    (raw_title : Text) → Scoped raw_title_prompt_max_length (scoped_title raw_title)
unfolding scoped_title
scoped_title-Scoped raw_title =
    cut-Scoped raw_title_prompt_max_length _
      (strip-Ended (take (raw_title_prompt_max_length * 2) raw_title))

-- For every title and text, the rounds that the model gives to the removal of delimiters suffice,
-- and the prompt is the delimited title and text, with a title of at most 255 and a text of at most
-- 8000 characters, in neither of which a delimiter stands.
pub build_user_content_ends :
    (raw_title raw_text : Text)
    → (title : Text) × (text : Text) × (build_user_content raw_title raw_text
        ≡ some (
            line untrusted_title_open title untrusted_title_close
            ++ 10 ∷ line untrusted_text_open text untrusted_text_close))
      × IsScoped raw_title_prompt_max_length title
      × IsScoped max_input_chars text
unfolding build_user_content
build_user_content_ends raw_title raw_text =
    let (title, e, h) = scoped_title-Scoped raw_title in
    let (text, e', h') = scoped_text-Scoped raw_text in
    (title, text, (λ i. joined (e i) (e' i)), h, h')
