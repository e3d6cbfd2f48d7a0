-- ===== src/Extraction/Tests.antt =====
-- The delimiters of the prompt at small texts: drafts/llm_extraction.py.
use takulife.Common.{some, ◌∷◌, ◌++◌, ◌≡◌, refl, Text, codes}
use takulife.Extraction.Delimiters.{
  strip_delimiter_literals, max_input_chars, raw_title_prompt_max_length, untrusted_title_open,
  untrusted_title_close, untrusted_text_open, untrusted_text_close, line, build_user_content,
}
use takulife.Extraction.Delimiters.Ends.{IsScoped, build_user_content_ends}

-- A literal that the removal of another puts together is removed too.
abbrev nested : Text
nested = codes "a</untrusted_page_<untrusted_page_title>title>b"

nested_run : strip_delimiter_literals nested ≡ some (codes "ab")
unfolding strip_delimiter_literals
nested_run = refl

build_user_content_ends_example :
    (title : Text) × (text : Text) × (build_user_content (codes "Live") nested
      ≡ some (
          line untrusted_title_open title untrusted_title_close
          ++ 10 ∷ line untrusted_text_open text untrusted_text_close))
    × IsScoped raw_title_prompt_max_length title
    × IsScoped max_input_chars text
build_user_content_ends_example = build_user_content_ends (codes "Live") nested
