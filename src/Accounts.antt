-- ===== src/Accounts.antt =====
-- The accounts: the columns of `User` that accounts/services.py writes, the sessions, and the
-- counters in the cache. Times are seconds; the cache keeps a record by its key, and only the
-- deadline in the record counts (its lifetime in the cache is not shorter).
use takulife.Common.{
  ℕ, ◌+◌, ◌*◌, Bool, true, false, not, ◌&&◌, Option, none, some, List, [], ◌∷◌, ◌++◌, ◌==◌, ltb,
  leb, is_some, exists, first, count, select, update, if◌then◌else◌,
}
use takulife.Common.Exec.{Result, ok, err, Exec}
pub mod Window
pub mod Deletion
pub mod Purge
mod Tests

pub record User : Type 0 where
  pub id : ℕ
  pub is_superuser : Bool
  pub is_staff : Bool
  pub is_active : Bool
  pub deletion_requested_at : Option ℕ
  pub password_changed_at : Option ℕ

-- A session: its number, and the user who logged in with it.
pub record Session : Type 0 where
  pub id : ℕ
  pub user : Option ℕ

pub record Db : Type 0 where
  pub users : List User
  pub sessions : List Session

-- `ProtectedAccountError`
pub data Error : Type 0 where
  protected_account : Error

-- `record` of a counter: how often, and until when.
pub record Attempts : Type 0 where
  pub count : ℕ
  pub deadline : ℕ

abbrev pub max_delete_password_attempts : ℕ
max_delete_password_attempts = 5

abbrev pub delete_password_lockout_seconds : ℕ
delete_password_lockout_seconds = 60 * 15

abbrev pub nickname_change_limit : ℕ
nickname_change_limit = 5

abbrev pub nickname_change_window_seconds : ℕ
nickname_change_window_seconds = 3600

-- The record that the cache has for the user's key.
abbrev pub is_blocked : ℕ → ℕ → Option Attempts → Bool
is_blocked limit now none = false
is_blocked limit now (some r) = if leb r.deadline now then false else leb limit r.count

abbrev pub started : ℕ → ℕ → Option Attempts → Attempts
started seconds now none = record { count = 0; deadline = now + seconds }
started seconds now (some r) =
    if leb r.deadline now then record { count = 0; deadline = now + seconds } else r

abbrev pub counted : Attempts → Attempts
counted r = record r { count = r.count + 1 }

unfoldable pub is_delete_locked : ℕ → Option Attempts → Bool
is_delete_locked now entry = is_blocked max_delete_password_attempts now entry

-- What the cache has for the key afterwards.
unfoldable pub register_failed_delete_attempt : ℕ → Option Attempts → Option Attempts
register_failed_delete_attempt now entry =
    some (counted (started delete_password_lockout_seconds now entry))

unfoldable pub reset_delete_attempts : Option Attempts → Option Attempts
reset_delete_attempts entry = none

unfoldable pub is_nickname_change_throttled : ℕ → Option Attempts → Bool
is_nickname_change_throttled now entry = is_blocked nickname_change_limit now entry

unfoldable pub register_nickname_change : ℕ → Option Attempts → Option Attempts
register_nickname_change now entry =
    some (counted (started nickname_change_window_seconds now entry))

abbrev pub is_user : ℕ → User → Bool
is_user id u = u.id == id

abbrev pub session_of : ℕ → Session → Bool
session_of id s = elim s.user [ none ↦ false | some user ↦ user == id ]

-- The date is stored, and every session of the user ends.
unfoldable pub request_deletion : ℕ → ℕ → Db → Db
unfolding update select
request_deletion id now db = record db {
  users =
      update (is_user id) (λ (u : User). record u { deletion_requested_at = some now }) db.users;
  sessions = select (λ s. not (session_of id s)) db.sessions;
}

abbrev pub pending_user : ℕ → User → Bool
pending_user id u = is_user id u && is_some u.deletion_requested_at

-- The number of rows, and the state after.
unfoldable pub cancel_deletion : ℕ → Db → ℕ × Db
unfolding count update
cancel_deletion id db = (
  count (pending_user id) db.users,
  record db {
    users =
        update (pending_user id) (λ (u : User). record u { deletion_requested_at = none }) db.users;
  },
)

unfoldable pub record_password_change : ℕ → ℕ → Db → Db
unfolding update
record_password_change id now db = record db {
  users = update (is_user id) (λ (u : User). record u { password_changed_at = some now }) db.users;
}

abbrev pub same_flag : Bool → Bool → Bool
same_flag true b = b
same_flag false b = not b

unfoldable pub set_staff_flag : User → Bool → Exec Db Error Bool
unfolding update
set_staff_flag user enabled db =
    if user.is_superuser
    then (err protected_account, db)
    else if same_flag user.is_staff enabled
    then (ok false, db)
    else (
      ok true,
      record db {
        users = update (is_user user.id) (λ (u : User). record u { is_staff = enabled }) db.users;
      },
    )

unfoldable pub set_active_flag : User → Bool → Exec Db Error Bool
unfolding update
set_active_flag user enabled db =
    if user.is_superuser
    then (err protected_account, db)
    else if same_flag user.is_active enabled
    then (ok false, db)
    else (
      ok true,
      record db {
        users = update (is_user user.id) (λ (u : User). record u { is_active = enabled }) db.users;
      },
    )

-- `DELETION_GRACE_PERIOD`
abbrev pub deletion_grace_period : ℕ
deletion_grace_period = 10 * 86400

-- `deletion_requested_at__lte=now - DELETION_GRACE_PERIOD`
abbrev pub is_due : ℕ → User → Bool
is_due now u = elim u.deletion_requested_at [
  | none ↦ false
  | some requested ↦ leb (requested + deletion_grace_period) now
]

abbrev pub due_user : ℕ → ℕ → User → Bool
due_user now id u = is_user id u && is_due now u

-- What the deletion of the users does.
pub record Summary : Type 0 where
  pub deleted : List ℕ
  pub failed : List ℕ

-- One candidate in its own transaction. `meanwhile` is what others committed since the query, and
-- `fails` says for which users the deletion raises.
unfoldable pub delete_candidate : (ℕ → Db → Db) → (ℕ → Bool) → ℕ → ℕ → Summary × Db → Summary × Db
unfolding exists select
delete_candidate meanwhile fails now id (summary, db) =
    let db' = meanwhile id db in
    if not (exists (due_user now id) db'.users)
    then (summary, db')
    else if fails id
    then (record summary { failed = summary.failed ++ id ∷ [] }, db')
    else (
      record summary { deleted = summary.deleted ++ id ∷ [] },
      record db' { users = select (λ u. not (is_user id u)) db'.users },
    )

unfoldable pub delete_candidates :
    (ℕ → Db → Db) → (ℕ → Bool) → ℕ → List ℕ → Summary × Db → Summary × Db
unfolding delete_candidate
delete_candidates meanwhile fails now [] state = state
delete_candidates meanwhile fails now (id ∷ ids) state =
    delete_candidates meanwhile fails now ids (delete_candidate meanwhile fails now id state)

abbrev pub ids_of : List User → List ℕ
ids_of [] = []
ids_of (u ∷ us) = u.id ∷ ids_of us

unfoldable pub execute_pending_deletions : (ℕ → Db → Db) → (ℕ → Bool) → ℕ → Db → Summary × Db
unfolding select delete_candidates
execute_pending_deletions meanwhile fails now db =
    delete_candidates meanwhile fails now (ids_of (select (is_due now) db.users))
      (record { deleted = []; failed = [] }, db)
