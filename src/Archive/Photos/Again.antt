-- ===== src/Archive/Photos/Again.antt =====
-- Uploads of photos that are sent again.
use takulife.Common.{
  ℕ, ◌≡◌, refl, sym, ap, ◌∙◌, subst, String, true, Option, none, some, List, [], ◌∷◌, ◌++◌, ◌==◌,
  Option-cases, Bool-cases, inl, inr, ==_refl, post-if, leb, first, exists, count, first-append,
  not_exists_of_first, arith,
}
use takulife.Common.Exec.{Result, ok, err, ◌>>=◌, bind_ok, bind_err}
use takulife.Archive.Model.{Db, Error, integrity, photo_limit, VisitRecord, Photo}
use takulife.Archive.Store.{found, record_event}
use takulife.Archive.Photos.{
  max_photos_per_record, in_record, has_photo_token, photo_clash, insert_photo, lock_record,
  sent_before, add_photo, photo_under_lock, photo_or_sent, create_visit_record_photo,
}
use takulife.Archive.Photos.Laws.{insert_photo-taken, insert_photo-free, announce, fresh_photo}

first-id :
    (id : ℕ) (vs : List VisitRecord) (v : VisitRecord)
    → first (λ (r : VisitRecord). r.id == id) vs ≡ some v
    → v.id ≡ id
unfolding first
first-id id [] v h = cc
first-id id (r ∷ vs) v h = ground (arith, first-id id vs v)

locked :
    (record_id : ℕ) (db : Db) (v : VisitRecord)
    → first (λ (r : VisitRecord). r.id == record_id) db.visits ≡ some v
    → lock_record record_id db ≡ (ok v, db)
unfolding lock_record
locked record_id db v there = rw (lock_record, there) refl

under_lock-sent :
    (v : VisitRecord) (token : ℕ) (image : String) (db : Db) (p : Photo)
    → first (has_photo_token v.id (some token)) db.photos ≡ some p
    → photo_under_lock v image (some token) db ≡ (ok p, db)
unfolding photo_under_lock sent_before
under_lock-sent v token image db p sent = rw (photo_under_lock, sent_before, sent) refl

-- Where a photo of the record carries the token, an upload gives that photo and stores nothing,
-- also when the record has all the photos it may have.
create_photo_sent :
    (record_id token : ℕ) (image : String) (db : Db) (v : VisitRecord) (p : Photo)
    → first (λ (r : VisitRecord). r.id == record_id) db.visits ≡ some v
    → first (has_photo_token record_id (some token)) db.photos ≡ some p
    → create_visit_record_photo record_id image (some token) db ≡ (ok p, db)
unfolding create_visit_record_photo photo_or_sent
create_photo_sent record_id token image db v p there sent =
    ap (λ (x : Result Error Photo × Db). photo_or_sent record_id (some token) (λ s. x) db)
      (bind_ok (lock_record record_id) (λ u. photo_under_lock u image (some token))
          (locked record_id db v there)
        ∙ under_lock-sent v token image db p (
            subst (λ id. first (has_photo_token id (some token)) db.photos ≡ some p)
              (sym (first-id record_id db.visits v there)) sent))

-- What an upload with a token leaves.
abbrev Delivered : ℕ → ℕ → List VisitRecord → Result Error Photo × Db → Type 0
Delivered record_id token vs (err e, s) = Unit
Delivered record_id token vs (ok p, s) =
    (first (has_photo_token record_id (some token)) s.photos ≡ some p) × (s.visits ≡ vs)

token_of_fresh :
    (id record_id token : ℕ) (image : String)
    → has_photo_token record_id (some token) (fresh_photo id record_id image (some token)) ≡ true
token_of_fresh id record_id token image = ground (arith, ==_refl record_id, ==_refl token)

with_photo-first :
    (v : VisitRecord) (token : ℕ) (image : String) (db : Db)
    → first (has_photo_token v.id (some token)) db.photos ≡ none
    → first
        (has_photo_token v.id (some token))
        (db.photos ++ fresh_photo db.next_id v.id image (some token) ∷ [])
      ≡ some (fresh_photo db.next_id v.id image (some token))
unfolding first
with_photo-first v token image db new =
    rw
      (
        first-append (has_photo_token v.id (some token)) db.photos
            (fresh_photo db.next_id v.id image (some token) ∷ []),
        not_exists_of_first (has_photo_token v.id (some token)) db.photos new,
        token_of_fresh db.next_id v.id token image,
      )
      refl

add_photo-Delivered :
    (v : VisitRecord) (token : ℕ) (image : String) (db : Db)
    → first (has_photo_token v.id (some token)) db.photos ≡ none
    → Delivered v.id token db.visits (add_photo v image (some token) db)
unfolding add_photo record_event
add_photo-Delivered v token image db new =
    let p = fresh_photo db.next_id v.id image (some token) in
    elim (Bool-cases (exists (photo_clash p) db.photos)) [
      | inl taken ↦
          subst (Delivered v.id token db.visits)
            (sym (bind_err (insert_photo p) (announce v) (insert_photo-taken p db taken))) tt
      | inr free ↦
          subst (Delivered v.id token db.visits)
            (sym (bind_ok (insert_photo p) (announce v) (insert_photo-free p db free)))
            (with_photo-first v token image db new, refl)
    ]

under_lock-Delivered :
    (v : VisitRecord) (token : ℕ) (image : String) (db : Db)
    → Delivered v.id token db.visits (photo_under_lock v image (some token) db)
unfolding photo_under_lock sent_before
under_lock-Delivered v token image db =
    elim (Option-cases (first (has_photo_token v.id (some token)) db.photos)) [
      | inl new ↦
          rw (photo_under_lock, sent_before, new)
            (post-if (Delivered v.id token db.visits)
              (leb max_photos_per_record (count (in_record v.id) db.photos)) (err photo_limit, db)
              (add_photo v image (some token) db) (λ full. tt)
              (λ room. add_photo-Delivered v token image db new))
      | inr (p, sent) ↦ rw (photo_under_lock, sent_before, sent) (sent, refl)
    ]

found-Delivered :
    (record_id token : ℕ) (db : Db) (o : Option Photo)
    → first (has_photo_token record_id (some token)) db.photos ≡ o
    → Delivered record_id token db.visits (found o, db)
found-Delivered record_id token db none h = tt
found-Delivered record_id token db (some p) h = (h, refl)

or_sent-Delivered :
    (record_id token : ℕ) (db : Db) (x : Result Error Photo × Db)
    → Delivered record_id token db.visits x
    → Delivered record_id token db.visits (photo_or_sent record_id (some token) (λ s. x) db)
unfolding photo_or_sent
or_sent-Delivered record_id token db (ok p, s) l = l
or_sent-Delivered record_id token db (err integrity, s) l =
    found-Delivered record_id token db (first (has_photo_token record_id (some token)) db.photos)
      refl
or_sent-Delivered record_id token db (err Error.duplicate_status, s) l = tt
or_sent-Delivered record_id token db (err Error.duplicate_interest, s) l = tt
or_sent-Delivered record_id token db (err Error.visit_record_exists, s) l = tt
or_sent-Delivered record_id token db (err photo_limit, s) l = tt
or_sent-Delivered record_id token db (err Error.does_not_exist, s) l = tt
or_sent-Delivered record_id token db (err Error.attribute_error, s) l = tt
or_sent-Delivered record_id token db (err (Error.validation fs), s) l = tt

create_photo-Delivered :
    (record_id token : ℕ) (image : String) (db : Db) (v : VisitRecord)
    → first (λ (r : VisitRecord). r.id == record_id) db.visits ≡ some v
    → Delivered record_id token db.visits
        (create_visit_record_photo record_id image (some token) db)
unfolding create_visit_record_photo
create_photo-Delivered record_id token image db v there =
    or_sent-Delivered record_id token db
      ((lock_record record_id >>= λ u. photo_under_lock u image (some token)) db)
      (subst (Delivered record_id token db.visits)
        (sym (
          bind_ok (lock_record record_id) (λ u. photo_under_lock u image (some token))
            (locked record_id db v there)))
        (subst (λ id. Delivered id token db.visits (photo_under_lock v image (some token) db))
          (first-id record_id db.visits v there) (under_lock-Delivered v token image db)))

-- An upload with a token that succeeded and is sent again, with whatever image, gives the same
-- photo and stores nothing: also where it was the last photo the record may have.
pub create_photo_again :
    (record_id token : ℕ) (image later : String) (db db' : Db) (v : VisitRecord) (p : Photo)
    → first (λ (r : VisitRecord). r.id == record_id) db.visits ≡ some v
    → create_visit_record_photo record_id image (some token) db ≡ (ok p, db')
    → create_visit_record_photo record_id later (some token) db' ≡ (ok p, db')
create_photo_again record_id token image later db db' v p there h =
    let (sent, kept) =
      subst (Delivered record_id token db.visits) h
        (create_photo-Delivered record_id token image db v there) in
    create_photo_sent record_id token later db' v p (rw kept there) sent
