-- ===== src/Archive/Entries.antt =====
-- `create_personal_entry` of archive/services.py.
use takulife.Common.{
  ℕ, ◌+◌, String, Bool, not, ◌&&◌, Option, none, some, [], ◌∷◌, ◌++◌, ◌==◌, first, exists, same_key,
  clashes, str_eq, if◌then◌else◌,
}
use takulife.Common.Exec.{ok, err, Exec, gets, raise_if, ◌>>=◌, ◌>>◌}
use takulife.Archive.Model.{Db, Error, integrity, validation, PersonalEntry}
use takulife.Archive.Store.{found}

abbrev pub place : String
place = "place"

-- unique_archive_personal_entry_user_client_token
abbrev pub entry_clash : PersonalEntry → PersonalEntry → Bool
entry_clash a b = a.user == b.user && clashes a.client_token b.client_token

-- `PersonalEntry.objects.create`
unfoldable pub insert_entry : PersonalEntry → Exec Db Error PersonalEntry
unfolding exists
insert_entry row db =
    if exists (entry_clash row) db.entries
    then (err integrity, db)
    else (ok row, record db { entries = db.entries ++ row ∷ []; next_id = db.next_id + 1 })

-- `PersonalEntry.objects.get(user=user, client_token=client_token)`
unfoldable pub get_entry : ℕ → Option ℕ → Exec Db Error PersonalEntry
unfolding first
get_entry user token db = (
  found (first (λ (e : PersonalEntry). e.user == user && same_key e.client_token token) db.entries),
  db,
)

-- `except IntegrityError`
unfoldable pub entry_or_sent :
    ℕ → Option ℕ → Exec Db Error PersonalEntry → Exec Db Error PersonalEntry
unfolding get_entry
entry_or_sent user client_token m db =
    let (r, db') = m db in
    elim r [
      | ok entry ↦ (ok entry, db')
      | err e ↦ elim e [
        | integrity ↦ elim client_token [
          | none ↦ (err integrity, db)
          | some token ↦ get_entry user (some token) db
        ]
        | other ↦ (err other, db)
      ]
    ]

unfoldable pub create_personal_entry : ℕ → String → String → Option ℕ → Exec Db Error PersonalEntry
unfolding insert_entry entry_or_sent
create_personal_entry user kind title client_token = do
  raise_if (not (str_eq kind place)) (validation ("kind" ∷ []))
  entry_or_sent user client_token (do
    id ← gets (λ (db : Db). db.next_id)
    insert_entry
        (record { id = id; user = user; kind = kind; title = title; client_token = client_token }))
