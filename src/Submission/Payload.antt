-- ===== src/Submission/Payload.antt =====
-- `validate_payload` and `_clean_account_payload` of drafts/candidate_validation.py.
use takulife.Common.{
  ℕ, String, Bool, true, false, ◌&&◌, ◌||◌, Option, none, some, List, [], ◌∷◌, leb, length, take,
  str_eq, Text, codes, text_eq, or_else, if◌then◌else◌,
}
use takulife.Discovery.Outcomes.{sanitize_text}
use takulife.Extraction.Delimiters.{starts_with}
use takulife.Submission.Model.{SourceType, rss, sitemap, html, instagram, x, Cleaned}

-- A value of the payload: a text, or something else.
pub data Value : Type 0 where
  str : Text → Value
  not_str : Value

abbrev pub Payload : Type 0
Payload = List (String × Value)

-- `payload.get(key)`
unfoldable pub get : String → Payload → Option Value
get key [] = none
get key ((k, v) ∷ ps) = if str_eq k key then some v else get key ps

unfoldable pub has_key : String → Payload → Bool
has_key key [] = false
has_key key ((k, v) ∷ ps) = str_eq k key || has_key key ps

unfoldable pub has_required : Payload → Bool
unfolding has_key
has_required p =
    has_key "name" p && has_key "url" p && has_key "source_type" p && has_key "sample_url" p

-- `payload.get(key, "")`, where it is a text.
abbrev pub text_or : Option Value → Option Text
text_or none = some []
text_or (some (str t)) = some t
text_or (some not_str) = none

unfoldable pub text_at : String → Payload → Text
unfolding get
text_at key p = or_else (text_or (get key p)) []

-- What `_string_field` asks of a field: a text, of no more than `limit` characters.
abbrev pub within : ℕ → Option Text → Bool
within limit none = false
within limit (some t) = leb (length t) limit

unfoldable pub fits : ℕ → String → Payload → Bool
unfolding get
fits limit key p = within limit (text_or (get key p))

-- `sanitize_text(value=...)[:limit]`
abbrev pub cleaned_text : ℕ → Text → Text
cleaned_text limit t = take limit (sanitize_text t)

abbrev pub source_type_of : Text → Option SourceType
source_type_of t =
    if text_eq t (codes "rss")
    then some rss
    else if text_eq t (codes "sitemap")
    then some sitemap
    else if text_eq t (codes "html")
    then some html
    else if text_eq t (codes "instagram")
    then some instagram
    else if text_eq t (codes "x")
    then some x
    else none

-- `SERVER_COLLECTED_SOURCE_TYPES` and `ACCOUNT_SOURCE_TYPES`
abbrev pub is_server_collected : SourceType → Bool
is_server_collected instagram = false
is_server_collected x = false
is_server_collected _ = true

abbrev pub server_type : Option SourceType → Option SourceType
server_type none = none
server_type (some t) = if is_server_collected t then some t else none

abbrev pub account_type : Option SourceType → Option SourceType
account_type none = none
account_type (some t) = if is_server_collected t then none else some t

abbrev pub is_html : Option SourceType → Bool
is_html (some html) = true
is_html _ = false

abbrev pub is_some_type : Option SourceType → Bool
is_some_type none = false
is_some_type (some t) = true

unfoldable pub is_web : Text → Bool
unfolding starts_with
is_web url = starts_with (codes "http://") url || starts_with (codes "https://") url

abbrev pub max_url_length : ℕ
max_url_length = 200

unfoldable pub listed_type : Payload → Option SourceType
unfolding text_at text_eq
listed_type p = server_type (source_type_of (text_at "source_type" p))

unfoldable pub cleaned_with : Option SourceType → Text → Text → Payload → Cleaned
unfolding text_at sanitize_text
cleaned_with source_type selector sample p = record {
  name = cleaned_text 100 (text_at "name" p);
  url = cleaned_text max_url_length (text_at "url" p);
  source_type = source_type;
  link_selector = cleaned_text 255 selector;
  sample_url = cleaned_text max_url_length sample;
  official_basis = cleaned_text 500 (text_at "official_basis" p);
  note = cleaned_text 500 (text_at "note" p);
}

-- The payload without control characters, cut to the widths of the columns, and whether it keeps
-- the contract.
unfoldable pub validate_payload : Payload → Cleaned × Bool
unfolding has_required text_at fits listed_type is_web cleaned_with
validate_payload p = (
  cleaned_with (listed_type p) (if is_html (listed_type p) then text_at "link_selector" p else [])
      (text_at "sample_url" p) p,
  has_required p
      && fits 100 "name" p
      && fits max_url_length "url" p
      && fits max_url_length "sample_url" p
      && fits 255 "link_selector" p
      && fits 500 "official_basis" p
      && fits 500 "note" p
      && is_some_type (listed_type p)
      && is_web (text_at "url" p)
      && is_web (text_at "sample_url" p),
)

unfoldable pub clean_account_payload : Payload → Cleaned
unfolding cleaned_with text_at text_eq
clean_account_payload p =
    cleaned_with (account_type (source_type_of (text_at "source_type" p))) [] [] p

-- `payload.get("source_country") == "kr"`
unfoldable pub is_domestic : Payload → Bool
unfolding text_at text_eq
is_domestic p = text_eq (text_at "source_country" p) (codes "kr")
