-- ===== src/Submission/Accounts.antt =====
-- `register_account_source` of drafts/candidate_validation.py.
use takulife.Common.{
  ℕ, zero, suc, codes, String, Bool, true, false, ◌&&◌, ◌||◌, Option, none, some, List, [], ◌∷◌,
  ◌++◌, map, ◌==◌, leb, exists, Text, text_in, is_empty, if◌then◌else◌,
}
use takulife.Common.Exec.{Exec, pure, raise, ◌>>=◌}
use takulife.Publishing.Urls.{lower}
use takulife.Publishing.Checks.{strip_slashes}
use takulife.Submission.Model.{SourceType, Stage, Cleaned, Candidate, Db, Error, value_error}
use takulife.Submission.Payload.{Payload, is_domestic, clean_account_payload}
use takulife.Submission.Store.{save_failed_candidate, source_exists, promote}
pub mod Stored

-- `_ACCOUNT_SOURCE_ALLOWED_HOSTS`
abbrev pub allowed_hosts : List Text
allowed_hosts =
    codes "instagram.com" ∷ codes "www.instagram.com" ∷ codes "x.com" ∷ codes "www.x.com" ∷ []

abbrev pub is_handle_char : ℕ → Bool
is_handle_char c =
    (leb b'A' c && leb c b'Z')
    || (leb b'a' c && leb c b'z')
    || (leb b'0' c && leb c b'9')
    || c == b'_'
    || c == b'.'

-- At most `room` characters of a handle, and a slash behind them if there is one.
unfoldable pub is_handle : ℕ → Text → Bool
is_handle room [] = true
is_handle zero (c ∷ cs) = c == b'/' && is_empty cs
is_handle (suc room) (c ∷ cs) =
    (is_handle_char c && is_handle room cs) || (c == b'/' && is_empty cs)

-- `_ACCOUNT_HANDLE_PATH_RE`
unfoldable pub is_handle_path : Text → Bool
unfolding is_handle
is_handle_path (slash ∷ c ∷ cs) = slash == b'/' && is_handle_char c && is_handle 29 cs
is_handle_path _ = false

-- `_normalize_account_source_url`
unfoldable pub normalize_account_source_url : Text → Text → Text
unfolding strip_slashes
normalize_account_source_url hostname path =
    map lower (codes "https://" ++ (hostname ++ strip_slashes path))

abbrev pub with_url : Text → Cleaned → Cleaned
with_url url cleaned = record cleaned { url = url }

-- `urlsplit`, which gives the host name, that is the empty text where there is none, and the path,
-- or raises `ValueError`, is an argument.
unfoldable pub register_checked : ℕ → String → ℕ → Cleaned → SourceType → Exec Db Error Candidate
unfolding promote save_failed_candidate exists
register_checked id token now cleaned source_type db =
    if source_exists cleaned.url db
    then save_failed_candidate id token now cleaned Stage.duplicate none db
    else (promote id token now cleaned source_type false >>= λ stored. pure stored.0) db

unfoldable pub register_split :
    ℕ → String → ℕ → Cleaned → SourceType → Option (Text × Text) → Exec Db Error Candidate
unfolding register_checked normalize_account_source_url is_handle_path text_in
register_split id token now cleaned source_type none = raise value_error
register_split id token now cleaned source_type (some (hostname, path)) =
    if text_in (map lower hostname) allowed_hosts && is_handle_path path
    then register_checked id token now
        (with_url (normalize_account_source_url (map lower hostname) path) cleaned) source_type
    else save_failed_candidate id token now cleaned Stage.schema none

unfoldable pub register_typed :
    (Text → Option (Text × Text))
    → ℕ
    → String
    → ℕ
    → Payload
    → Cleaned
    → Option SourceType
    → Exec Db Error Candidate
unfolding register_split is_domestic save_failed_candidate
register_typed split id token now p cleaned none =
    save_failed_candidate id token now cleaned Stage.schema none
register_typed split id token now p cleaned (some source_type) =
    if is_domestic p
    then register_split id token now cleaned source_type (split cleaned.url)
    else save_failed_candidate id token now cleaned Stage.not_domestic none

unfoldable pub register_account_source :
    (Text → Option (Text × Text)) → ℕ → String → Payload → ℕ → Exec Db Error Candidate
unfolding register_typed clean_account_payload
register_account_source split id token p now =
    let cleaned = clean_account_payload p in
    register_typed split id token now p cleaned cleaned.source_type
