-- ===== src/Extraction/Delimiters.antt =====
-- The delimiters of the prompt in drafts/llm_extraction.py, which are taken out of a page's title
-- and text before these stand between them; the same loop is in local_runner/translation_flow.py.
use takulife.Common.{
  ℕ, zero, suc, ◌+◌, ◌-◌, ◌*◌, Bool, true, false, ◌||◌, Option, none, some, List, [], ◌∷◌, ◌++◌,
  ◌==◌, length, take, exists, Text, codes, if◌then◌else◌,
}
pub mod Removed
pub mod Ends

-- `text.startswith(literal)`
unfoldable pub starts_with : Text → Text → Bool
starts_with [] text = true
starts_with (a ∷ literal) [] = false
starts_with (a ∷ literal) (b ∷ text) = if a == b then starts_with literal text else false

-- `literal in text`
unfoldable pub contains : Text → Text → Bool
unfolding starts_with
contains literal [] = starts_with literal []
contains literal (c ∷ text) = starts_with literal (c ∷ text) || contains literal text

-- `text.replace(literal, "")` for a literal that is not empty, after `skip` characters of an
-- occurrence: occurrences are found from left to right, and do not overlap.
unfoldable pub remove_from : Text → ℕ → Text → Text
unfolding starts_with
remove_from literal skip [] = []
remove_from literal (suc skip) (c ∷ text) = remove_from literal skip text
remove_from literal zero (c ∷ text) =
    let skipped = remove_from literal (length literal - 1) text in
    let kept = remove_from literal 0 text in
    if starts_with literal (c ∷ text) then skipped else c ∷ kept

unfoldable pub remove : Text → Text → Text
unfolding remove_from
remove literal text = remove_from literal 0 text

-- `any(literal in text for literal in literals)`
unfoldable pub contains_any : List Text → Text → Bool
unfolding contains exists
contains_any literals text = exists (λ literal. contains literal text) literals

-- The `for` loop: each literal is removed in turn.
unfoldable pub remove_each : List Text → Text → Text
unfolding remove
remove_each [] text = text
remove_each (literal ∷ literals) text = remove_each literals (remove literal text)

-- The `while` loop, with a bound on its rounds; `none` says that they did not suffice.
unfoldable pub strip_literals : ℕ → List Text → Text → Option Text
unfolding contains_any remove_each
strip_literals zero literals text = none
strip_literals (suc rounds) literals text = elim (contains_any literals text) [
  | true ↦ strip_literals rounds literals (remove_each literals text)
  | false ↦ some text
]

-- `DELIMITER_LITERALS`
abbrev pub untrusted_title_open : Text
untrusted_title_open = codes "<untrusted_page_title>"

abbrev pub untrusted_title_close : Text
untrusted_title_close = codes "</untrusted_page_title>"

abbrev pub untrusted_text_open : Text
untrusted_text_open = codes "<untrusted_page_content>"

abbrev pub untrusted_text_close : Text
untrusted_text_close = codes "</untrusted_page_content>"

abbrev pub delimiter_literals : List Text
delimiter_literals =
    untrusted_title_open ∷ untrusted_title_close ∷ untrusted_text_open ∷ untrusted_text_close ∷ []

-- `_strip_delimiter_literals`: a round takes a character at least, so that the length bounds the
-- rounds.
unfoldable pub strip_delimiter_literals : Text → Option Text
unfolding strip_literals
strip_delimiter_literals text = strip_literals (suc (length text)) delimiter_literals text

abbrev pub max_input_chars : ℕ
max_input_chars = 8000

abbrev pub raw_title_prompt_max_length : ℕ
raw_title_prompt_max_length = 255

abbrev pub cut : ℕ → Option Text → Option Text
cut n none = none
cut n (some text) = some (take n text)

unfoldable pub scoped_text : Text → Option Text
unfolding strip_delimiter_literals
scoped_text raw_text =
    cut max_input_chars (strip_delimiter_literals (take (max_input_chars * 2) raw_text))

unfoldable pub scoped_title : Text → Option Text
unfolding strip_delimiter_literals
scoped_title raw_title =
    cut raw_title_prompt_max_length
      (strip_delimiter_literals (take (raw_title_prompt_max_length * 2) raw_title))

-- The text of the prompt between its delimiters.
abbrev pub line : Text → Text → Text → Text
line opening text closing = opening ++ 10 ∷ (text ++ 10 ∷ closing)

abbrev pub joined : Option Text → Option Text → Option Text
joined (some title) (some text) = some (
    line untrusted_title_open title untrusted_title_close
    ++ 10 ∷ line untrusted_text_open text untrusted_text_close)
joined _ _ = none

unfoldable pub build_user_content : Text → Text → Option Text
unfolding scoped_title scoped_text
build_user_content raw_title raw_text = joined (scoped_title raw_title) (scoped_text raw_text)
