-- ===== src/Accounts/Tests.antt =====
-- The accounts at concrete inputs.
use takulife.Common.{ℕ, ◌≡◌, true, false, not, none, some, List, [], ◌∷◌, select, arith}
use takulife.Accounts.{User, Db, is_due, execute_pending_deletions}
use takulife.Accounts.Purge.{execute_pending_deletions_users}

abbrev user : ℕ → User
user id = record {
  id = id;
  is_superuser = false;
  is_staff = false;
  is_active = true;
  deletion_requested_at = none;
  password_changed_at = none;
}

abbrev leaving : User
leaving = record (user 2) { deletion_requested_at = some 1000 }

abbrev two_users : Db
two_users = record {
  users = user 1 ∷ leaving ∷ [];
  sessions = record { id = 1; user = some 1 } ∷ record { id = 2; user = some 2 } ∷ [];
}

abbrev more_tries : List ℕ
more_tries = 1010 ∷ 1020 ∷ 1030 ∷ 1040 ∷ []

abbrev one_change : List ℕ
one_change = 2000 ∷ []

execute_pending_deletions_users_example :
    (execute_pending_deletions (λ i s. s) (λ i. false) 900000 two_users).1.users
    ≡ select (λ u. not (is_due 900000 u)) two_users.users
execute_pending_deletions_users_example =
    execute_pending_deletions_users 900000 two_users ((omega arith, tt), (tt, tt))
