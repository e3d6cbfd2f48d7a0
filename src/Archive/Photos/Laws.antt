-- ===== src/Archive/Photos/Laws.antt =====
-- The limit on the photos of a visit record, and uploads that are sent again.
use takulife.Common.{
  ℕ, ◌≤◌, ◌+◌, ◌≡◌, sym, ap, subst, String, true, false, Option, none, some, [], ◌∷◌, ◌++◌,
  Option-cases, Bool-cases, inl, inr, post-if, leb, exists, count, count-append, arith,
}
use takulife.Common.Exec.{Result, ok, err, pure, Exec, ◌>>=◌, ◌>>◌, bind_ok, bind_err, post-bind}
use takulife.Archive.Model.{Db, Error, integrity, photo_limit, VisitRecord, Photo, EventName}
use takulife.Archive.Store.{record_event}
use takulife.Archive.Photos.{
  max_photos_per_record, in_record, photo_clash, insert_photo, lock_record, sent_before, add_photo,
  photo_under_lock, photo_or_sent, create_visit_record_photo,
}

-- What a request leaves of the limit for any record.
abbrev Limited : ℕ → Result Error Photo × Db → Type 0
Limited id (r, db) = count (in_record id) db.photos ≤ max_photos_per_record

abbrev pub fresh_photo : ℕ → ℕ → String → Option ℕ → Photo
fresh_photo id record_id image token = record {
  id = id;
  visit_record = record_id;
  image = image;
  client_token = token;
}

pub insert_photo-taken :
    (p : Photo) (db : Db)
    → exists (photo_clash p) db.photos ≡ true
    → insert_photo p db ≡ (err integrity, db)
unfolding insert_photo
insert_photo-taken p db h = ground (arith, h)

abbrev pub with_photo : Photo → Db → Db
with_photo p db = record db { photos = db.photos ++ p ∷ []; next_id = db.next_id + 1 }

pub insert_photo-free :
    (p : Photo) (db : Db)
    → exists (photo_clash p) db.photos ≡ false
    → insert_photo p db ≡ (ok p, with_photo p db)
unfolding insert_photo
insert_photo-free p db h = ground (arith, h)

abbrev pub announce : VisitRecord → Photo → Exec Db Error Photo
unfolding record_event
announce v p = record_event EventName.visit_photo_added v.user "visit_record_photo" p.id >> pure p

with_photo-Limited :
    (other : ℕ) (p : Photo) (db : Db)
    → count (in_record other) db.photos ≤ max_photos_per_record
    → leb max_photos_per_record (count (in_record p.visit_record) db.photos) ≡ false
    → count (in_record other) (with_photo p db).photos ≤ max_photos_per_record
unfolding count
with_photo-Limited other p db h room =
    ground (arith, h, room, count-append (in_record other) db.photos (p ∷ []))

add_photo-Limited :
    (other : ℕ) (v : VisitRecord) (image : String) (token : Option ℕ) (db : Db)
    → count (in_record other) db.photos ≤ max_photos_per_record
    → leb max_photos_per_record (count (in_record v.id) db.photos) ≡ false
    → Limited other (add_photo v image token db)
unfolding add_photo record_event
add_photo-Limited other v image token db h room =
    let p = fresh_photo db.next_id v.id image token in
    elim (Bool-cases (exists (photo_clash p) db.photos)) [
      | inl taken ↦
          subst (Limited other)
            (sym (bind_err (insert_photo p) (announce v) (insert_photo-taken p db taken))) h
      | inr free ↦
          subst (Limited other)
            (sym (bind_ok (insert_photo p) (announce v) (insert_photo-free p db free)))
            (with_photo-Limited other p db h room)
    ]

under_lock-Limited :
    (other : ℕ) (v : VisitRecord) (image : String) (token : Option ℕ) (db : Db)
    → count (in_record other) db.photos ≤ max_photos_per_record
    → Limited other (photo_under_lock v image token db)
unfolding photo_under_lock
under_lock-Limited other v image token db h = elim (Option-cases (sent_before v.id token db)) [
  | inl new ↦
      rw (photo_under_lock, new)
        (post-if (Limited other) (leb max_photos_per_record (count (in_record v.id) db.photos))
          (err photo_limit, db) (add_photo v image token db) (λ full. h)
          (λ room. add_photo-Limited other v image token db h room))
  | inr (p, sent) ↦ rw (photo_under_lock, sent) h
]

or_sent-Limited :
    (other record_id : ℕ) (token : Option ℕ) (db : Db) (x : Result Error Photo × Db)
    → count (in_record other) db.photos ≤ max_photos_per_record
    → Limited other x
    → Limited other (photo_or_sent record_id token (λ s. x) db)
unfolding photo_or_sent
or_sent-Limited other record_id token db (ok p, s) h l = l
or_sent-Limited other record_id none db (err integrity, s) h l = h
or_sent-Limited other record_id (some t) db (err integrity, s) h l = h
or_sent-Limited other record_id token db (err Error.duplicate_status, s) h l = h
or_sent-Limited other record_id token db (err Error.duplicate_interest, s) h l = h
or_sent-Limited other record_id token db (err Error.visit_record_exists, s) h l = h
or_sent-Limited other record_id token db (err photo_limit, s) h l = h
or_sent-Limited other record_id token db (err Error.does_not_exist, s) h l = h
or_sent-Limited other record_id token db (err Error.attribute_error, s) h l = h
or_sent-Limited other record_id token db (err (Error.validation fs), s) h l = h

-- Adding a photo keeps at most five photos in every visit record.
pub create_photo-Limited :
    (other record_id : ℕ) (image : String) (token : Option ℕ) (db : Db)
    → count (in_record other) db.photos ≤ 5
    → count (in_record other) (create_visit_record_photo record_id image token db).1.photos ≤ 5
unfolding create_visit_record_photo lock_record
create_photo-Limited other record_id image token db h =
    let kept = λ (s : Db). count (in_record other) s.photos ≤ 5 in
    or_sent-Limited other record_id token db
      ((lock_record record_id >>= λ v. photo_under_lock v image token) db) h
      (post-bind (Limited other) (lock_record record_id) (λ v. photo_under_lock v image token) db
        (λ e s r. subst kept (ap (λ x. x.1) r) h)
        (λ v s r. under_lock-Limited other v image token s (subst kept (ap (λ x. x.1) r) h)))
