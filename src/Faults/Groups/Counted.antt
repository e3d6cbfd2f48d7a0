-- ===== src/Faults/Groups/Counted.antt =====
-- An error whose group is there is counted in it.
use takulife.Common.{
  ℕ, ◌+◌, ◌≡◌, refl, ◌∙◌, ap, true, Option, some, List, [], ◌∷◌, first, length, length-update,
  first-update_kept, exists_of_first, Text, arith,
}
use takulife.Faults.Key.{Source, normalize, compute_fingerprint, error_type_length, location_length}
use takulife.Faults.Groups.{
  ErrorGroup, Db, has_fingerprint, seen_again, bump, upsert_error_group, record_error,
}

-- The fingerprint under which `record_error` stores an error.
abbrev pub stored_fingerprint : (Text → ℕ) → Source → Text → Text → ℕ
stored_fingerprint sha256 source error_type location =
    compute_fingerprint sha256 source (normalize error_type_length error_type)
      (normalize location_length location)

first-fingerprint :
    (f : ℕ) (gs : List ErrorGroup) (g : ErrorGroup)
    → first (has_fingerprint f) gs ≡ some g
    → has_fingerprint f g ≡ true
unfolding first
first-fingerprint f [] g h = cc
first-fingerprint f (r ∷ gs) g h = ground (arith, first-fingerprint f gs g)

record_error-known :
    (sha256 : Text → ℕ) (rival : Option ErrorGroup) (source : Source)
    (error_type location sample : Text) (now : ℕ) (db : Db) (g : ErrorGroup)
    → first (has_fingerprint (stored_fingerprint sha256 source error_type location)) db.groups
      ≡ some g
    → record_error sha256 rival source error_type location sample now db
      ≡ bump (stored_fingerprint sha256 source error_type location) now sample db
unfolding record_error upsert_error_group
record_error-known sha256 rival source error_type location sample now db g there =
    rw
      (exists_of_first (has_fingerprint (stored_fingerprint sha256 source error_type location))
        db.groups g there)
      refl

-- An error whose group is there adds one to the group's count and keeps the group's first time; its
-- last time and its sample are the error's, and no group is added or dropped.
pub record_error_counted :
    (sha256 : Text → ℕ) (rival : Option ErrorGroup) (source : Source)
    (error_type location sample : Text) (now : ℕ) (db : Db) (g : ErrorGroup)
    → first (has_fingerprint (stored_fingerprint sha256 source error_type location)) db.groups
      ≡ some g
    → (first
          (has_fingerprint (stored_fingerprint sha256 source error_type location))
          (record_error sha256 rival source error_type location sample now db).groups
        ≡ some (record g { count = g.count + 1; last_seen = now; message_sample = sample }))
      × (length (record_error sha256 rival source error_type location sample now db).groups
          ≡ length db.groups)
unfolding bump
record_error_counted sha256 rival source error_type location sample now db g there =
    let f = stored_fingerprint sha256 source error_type location in
    let known =
      ap (λ (s : Db). s.groups)
        (record_error-known sha256 rival source error_type location sample now db g there) in
    (
      ap (first (has_fingerprint f)) known
          ∙ first-update_kept (has_fingerprint f) (has_fingerprint f) (seen_again now sample)
              db.groups g (λ x. refl) there (first-fingerprint f db.groups g there),
      ap length known ∙ length-update (has_fingerprint f) (seen_again now sample) db.groups,
    )
