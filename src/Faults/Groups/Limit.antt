-- ===== src/Faults/Groups/Limit.antt =====
-- `record_error` keeps at most 250 groups of each source.
use takulife.Common.{
  ℕ, suc, ◌+◌, ◌≤◌, ◌≡◌, refl, subst, true, false, none, [], ◌∷◌, ◌++◌, exists, count, count-append,
  count-update_each-le, Bool-cases, inl, inr, Text, arith, post-if,
}
use takulife.Faults.Key.{
  Source, backend, frontend, normalize, compute_fingerprint, error_type_length, location_length,
}
use takulife.Faults.Groups.{
  ErrorGroup, Db, source_group_limit, has_fingerprint, same_source, of_source, seen_again, bump,
  trim_source, insert_group, create_or_bump, new_group, upsert_error_group, record_error,
}
use takulife.Faults.Groups.Trim.{trim_source-own, trim_source-other}

-- Every source has at most 250 groups.
abbrev pub IsLimited : Db → Type 0
IsLimited db = (source : Source) → count (of_source source) db.groups ≤ source_group_limit

bump-IsLimited :
    (f now : ℕ) (sample : Text) (db : Db) → IsLimited db → IsLimited (bump f now sample db)
unfolding bump
bump-IsLimited f now sample db h source = omega (
  arith,
  h source,
  count-update_each-le (λ (g : ErrorGroup). g.id) (of_source source) (has_fingerprint f)
      (seen_again now sample) db.groups (λ r q p. p),
)

abbrev pub with_group : ErrorGroup → Db → Db
with_group g db = record db { groups = db.groups ++ g ∷ []; next_id = db.next_id + 1 }

same_source→≡ : (a b : Source) → same_source a b ≡ true → a ≡ b
same_source→≡ backend backend h = refl
same_source→≡ backend frontend h = cc
same_source→≡ frontend backend h = cc
same_source→≡ frontend frontend h = refl

with_group-own :
    (g : ErrorGroup) (db : Db)
    → IsLimited db
    → count (of_source g.source) (with_group g db).groups ≤ suc source_group_limit
unfolding count
with_group-own g db h =
    ground (arith, h g.source, count-append (of_source g.source) db.groups (g ∷ []))

with_group-other :
    (g : ErrorGroup) (other : Source) (db : Db)
    → IsLimited db
    → same_source g.source other ≡ false
    → count (of_source other) (with_group g db).groups ≤ source_group_limit
unfolding count
with_group-other g other db h differs =
    ground (arith, h other, differs, count-append (of_source other) db.groups (g ∷ []))

added-IsLimited :
    (g : ErrorGroup) (db : Db) → IsLimited db → IsLimited (trim_source g.source (with_group g db))
added-IsLimited g db h other = elim (Bool-cases (same_source g.source other)) [
  | inl same ↦
      subst
        (λ s.
          count (of_source s) (trim_source g.source (with_group g db)).groups ≤ source_group_limit)
        (same_source→≡ g.source other same)
        (trim_source-own g.source (with_group g db) (with_group-own g db h))
  | inr differs ↦ omega (
    arith,
    trim_source-other g.source other (with_group g db),
    with_group-other g other db h differs,
  )
]

create-IsLimited : (g : ErrorGroup) (db : Db) → IsLimited db → IsLimited (create_or_bump g db)
unfolding create_or_bump insert_group
create-IsLimited g db h = elim (Bool-cases (exists (has_fingerprint g.fingerprint) db.groups)) [
  | inl there ↦
      rw (create_or_bump, insert_group, there)
        (bump-IsLimited g.fingerprint g.last_seen g.message_sample db h)
  | inr new ↦ rw (create_or_bump, insert_group, new) (added-IsLimited g db h)
]

-- Recording an error keeps at most 250 groups of each source, where no other transaction creates
-- a group at the same time.
pub record_error-IsLimited :
    (sha256 : Text → ℕ) (source : Source) (error_type location sample : Text) (now : ℕ) (db : Db)
    → IsLimited db
    → IsLimited (record_error sha256 none source error_type location sample now db)
unfolding record_error upsert_error_group
record_error-IsLimited sha256 source error_type location sample now db h =
    let type' = normalize error_type_length error_type in
    let location' = normalize location_length location in
    let f = compute_fingerprint sha256 source type' location' in
    post-if IsLimited (exists (has_fingerprint f) db.groups) (bump f now sample db)
      (create_or_bump (new_group db.next_id f source type' location' sample now) db)
      (λ there. bump-IsLimited f now sample db h)
      (λ new. create-IsLimited (new_group db.next_id f source type' location' sample now) db h)
