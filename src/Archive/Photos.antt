-- ===== src/Archive/Photos.antt =====
-- `create_visit_record_photo` of archive/services.py.
use takulife.Common.{
  ℕ, ◌+◌, String, Bool, true, not, ◌&&◌, ◌||◌, Option, none, some, List, [], ◌∷◌, ◌++◌, ◌==◌, leb,
  first, exists, count, same_key, clashes, if◌then◌else◌,
}
use takulife.Common.Exec.{Result, ok, err, Exec, pure, raise, gets, raise_if, ◌>>=◌, ◌>>◌}
use takulife.Archive.Model.{Db, Error, integrity, photo_limit, VisitRecord, Photo, EventName}
use takulife.Archive.Store.{found, record_event}
pub mod Laws
pub mod Again

abbrev pub max_photos_per_record : ℕ
max_photos_per_record = 5

abbrev pub in_record : ℕ → Photo → Bool
in_record record_id p = p.visit_record == record_id

abbrev pub has_photo_token : ℕ → Option ℕ → Photo → Bool
has_photo_token record_id token p = in_record record_id p && same_key p.client_token token

-- unique_archive_visit_record_photo_visit_record_client_token
abbrev pub photo_clash : Photo → Photo → Bool
photo_clash a b = a.visit_record == b.visit_record && clashes a.client_token b.client_token

-- `VisitRecordPhoto.objects.create`
unfoldable pub insert_photo : Photo → Exec Db Error Photo
unfolding exists
insert_photo row db =
    if exists (photo_clash row) db.photos
    then (err integrity, db)
    else (ok row, record db { photos = db.photos ++ row ∷ []; next_id = db.next_id + 1 })

-- `select_for_update().get(pk=...)`
unfoldable pub lock_record : ℕ → Exec Db Error VisitRecord
unfolding first
lock_record id db = (found (first (λ (v : VisitRecord). v.id == id) db.visits), db)

-- The row that an earlier request with this token stored.
unfoldable pub sent_before : ℕ → Option ℕ → Db → Option Photo
unfolding first
sent_before record_id none db = none
sent_before record_id (some token) db = first (has_photo_token record_id (some token)) db.photos

-- The insertion, and the event for the analytics.
unfoldable pub add_photo : VisitRecord → String → Option ℕ → Exec Db Error Photo
unfolding insert_photo record_event
add_photo locked image client_token = do
  id ← gets (λ (db : Db). db.next_id)
  photo ←
      insert_photo
        (record { id = id; visit_record = locked.id; image = image; client_token = client_token })
  record_event EventName.visit_photo_added locked.user "visit_record_photo" photo.id
  pure photo

-- Under the lock: the row of the token first, then the limit, then the insertion.
unfoldable pub photo_under_lock : VisitRecord → String → Option ℕ → Exec Db Error Photo
unfolding sent_before count add_photo
photo_under_lock locked image client_token db = elim (sent_before locked.id client_token db) [
  | some photo ↦ (ok photo, db)
  | none ↦
      if leb max_photos_per_record (count (in_record locked.id) db.photos)
      then (err photo_limit, db)
      else add_photo locked image client_token db
]

-- `except IntegrityError`
unfoldable pub photo_or_sent : ℕ → Option ℕ → Exec Db Error Photo → Exec Db Error Photo
unfolding first
photo_or_sent record_id client_token m db =
    let (r, db') = m db in
    elim r [
      | ok photo ↦ (ok photo, db')
      | err e ↦ elim e [
        | integrity ↦ elim client_token [
          | none ↦ (err integrity, db)
          | some token ↦ (found (first (has_photo_token record_id (some token)) db.photos), db)
        ]
        | other ↦ (err other, db)
      ]
    ]

unfoldable pub create_visit_record_photo : ℕ → String → Option ℕ → Exec Db Error Photo
unfolding lock_record photo_under_lock photo_or_sent
create_visit_record_photo record_id image client_token =
    photo_or_sent record_id client_token
      (do locked ← lock_record record_id; photo_under_lock locked image client_token)
