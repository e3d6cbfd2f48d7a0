-- ===== src/Publishing/Urls.antt =====
-- `_is_allowed_official_url` of events/services.py, with the part of Python's `urlsplit` that it
-- reads: the scheme and the network location.
use takulife.Common.{
  ℕ, ◌+◌, Bool, true, false, not, ◌&&◌, ◌||◌, Option, none, some, [], ◌∷◌, map, ◌==◌, ltb, leb,
  String, Text, codes, text_in, is_empty, if◌then◌else◌,
}
use takulife.Common.Exec.{Result, ok, err}
use takulife.Publishing.Model.{Error, value_error, Platform}
pub mod Shape

-- `url.lstrip(_WHATWG_C0_CONTROL_OR_SPACE)`
unfoldable pub drop_controls : Text → Text
drop_controls [] = []
drop_controls (c ∷ cs) = let rest = drop_controls cs in if leb c 32 then rest else c ∷ cs

-- The characters of `_UNSAFE_URL_BYTES_TO_REMOVE`: tab, carriage return and line feed.
abbrev pub is_unsafe : ℕ → Bool
is_unsafe c = c == 9 || c == 13 || c == 10

unfoldable pub remove_unsafe : Text → Text
remove_unsafe [] = []
remove_unsafe (c ∷ cs) = let rest = remove_unsafe cs in if is_unsafe c then rest else c ∷ rest

unfoldable pub clean : Text → Text
unfolding drop_controls remove_unsafe
clean url = remove_unsafe (drop_controls url)

abbrev pub is_upper : ℕ → Bool
is_upper c = leb b'A' c && leb c b'Z'

abbrev pub is_letter : ℕ → Bool
is_letter c = is_upper c || (leb b'a' c && leb c b'z')

-- `scheme_chars`
abbrev pub is_scheme_char : ℕ → Bool
is_scheme_char c = is_letter c || (leb b'0' c && leb c b'9') || c == b'+' || c == b'-' || c == b'.'

unfoldable pub all_scheme_chars : Text → Bool
all_scheme_chars [] = true
all_scheme_chars (c ∷ cs) = is_scheme_char c && all_scheme_chars cs

abbrev pub starts_with_letter : Text → Bool
starts_with_letter [] = false
starts_with_letter (c ∷ cs) = is_letter c

-- `.lower()` on the characters of a scheme
abbrev pub lower : ℕ → ℕ
lower c = if is_upper c then c + 32 else c

-- `url[:i]` and `url[i + 1:]` where `i` is the place of the first colon
unfoldable pub split_colon : Text → Option (Text × Text)
split_colon [] = none
split_colon (c ∷ cs) =
    let rest = split_colon cs in
    if c == b':'
    then some ([], cs)
    else elim rest [ none ↦ none | some (before, after) ↦ some (c ∷ before, after) ]

-- The scheme in lower case, empty where there is none, and the rest of the address.
unfoldable pub scheme_at : Text → Option (Text × Text) → Text × Text
unfolding all_scheme_chars
scheme_at url none = ([], url)
scheme_at url (some (before, after)) =
    if starts_with_letter before && all_scheme_chars before
    then (map lower before, after)
    else ([], url)

unfoldable pub split_scheme : Text → Text × Text
unfolding split_colon scheme_at
split_scheme url = scheme_at url (split_colon url)

-- The characters that end a network location: "/", "?" and "#".
abbrev pub ends_netloc : ℕ → Bool
ends_netloc c = c == b'/' || c == b'?' || c == b'#'

unfoldable pub take_netloc : Text → Text
take_netloc [] = []
take_netloc (c ∷ cs) = let rest = take_netloc cs in if ends_netloc c then [] else c ∷ rest

-- What stands behind "//", up to the path, the query or the fragment.
unfoldable pub split_netloc : Text → Text
unfolding take_netloc
split_netloc [] = []
split_netloc (a ∷ []) = []
split_netloc (a ∷ b ∷ rest) = if a == b'/' && b == b'/' then take_netloc rest else []

unfoldable pub has : ℕ → Text → Bool
has k [] = false
has k (c ∷ cs) = c == k || has k cs

-- One of the brackets of an IPv6 address without the other.
unfoldable pub unbalanced : Text → Bool
unfolding has
unbalanced netloc =
    (has b'[' netloc && not (has b']' netloc)) || (has b']' netloc && not (has b'[' netloc))

-- The scheme and the network location.
unfoldable pub urlsplit : Platform → Text → Result Error (Text × Text)
unfolding clean split_scheme split_netloc unbalanced
urlsplit env url =
    let (scheme, rest) = split_scheme (clean url) in
    let netloc = split_netloc rest in
    if unbalanced netloc || not (is_empty netloc || env.netloc_is_valid netloc)
    then err value_error
    else ok (scheme, netloc)

-- `ALLOWED_OFFICIAL_URL_SCHEMES`
abbrev pub http : Text
http = codes "http"

abbrev pub https : Text
https = codes "https"

abbrev pub allowed_parts : Result Error (Text × Text) → Result Error Bool
allowed_parts (err e) = err e
allowed_parts (ok (scheme, netloc)) =
    ok (text_in scheme (http ∷ https ∷ []) && not (is_empty netloc))

unfoldable pub is_allowed_official_url : Platform → Text → Result Error Bool
unfolding urlsplit text_in
is_allowed_official_url env url = allowed_parts (urlsplit env url)
