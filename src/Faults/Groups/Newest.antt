-- ===== src/Faults/Groups/Newest.antt =====
-- The group of a new error is not among those that `_trim_source` drops.
use takulife.Common.{
  ℕ, zero, suc, ◌+◌, ◌-◌, ◌≤◌, ◌<◌, ◌≡◌, ◌≢◌, refl, sym, ap, subst, Bool, true, false, not, none,
  List, [], ◌∷◌, ◌++◌, ◌==◌, ==_refl, exists, count, select, select-append, take, length,
  count-append, exists-append, post-if, All, Text, arith,
}
use takulife.Faults.Key.{Source, backend, frontend, normalize, error_type_length, location_length}
use takulife.Faults.Groups.{
  ErrorGroup, Db, source_group_limit, has_fingerprint, same_source, of_source, is_older,
  insert_by_age, by_age, id_in, trim_source, insert_group, create_or_bump, new_group,
  upsert_error_group, record_error,
}
use takulife.Faults.Groups.Counted.{stored_fingerprint}
use takulife.Faults.Groups.Trim.{length-select}
use takulife.Faults.Groups.Limit.{with_group}

-- The group is older than `g`: not seen later, and stored before.
abbrev pub Older : ErrorGroup → ErrorGroup → Type 0
Older g r = (r.last_seen ≤ g.last_seen) × (r.id < g.id)

-- The oldest row, as far as there is one, was stored before `n`.
abbrev OldestBelow : ℕ → List ErrorGroup → Type 0
OldestBelow n [] = Unit
OldestBelow n (m ∷ ms) = m.id < n

insert-OldestBelow :
    (n : ℕ) (x : ErrorGroup) (hs : List ErrorGroup)
    → x.id < n
    → OldestBelow n hs
    → OldestBelow n (insert_by_age x hs)
unfolding insert_by_age
insert-OldestBelow n x [] lt h = lt
insert-OldestBelow n x (y ∷ hs) lt h =
    post-if (OldestBelow n) (is_older x y) (x ∷ y ∷ hs) (y ∷ insert_by_age x hs) (λ e. lt) (λ e. h)

insert_above : (g x : ErrorGroup) → Older g x → OldestBelow g.id (insert_by_age x (g ∷ []))
unfolding insert_by_age
insert_above g x (seen, before) =
    post-if (OldestBelow g.id) (is_older x g) (x ∷ g ∷ []) (g ∷ insert_by_age x []) (λ e. before)
      (λ e. absurd (ground (arith, e, seen, before)))

-- With another row, the new row is not the oldest one.
by_age-OldestBelow :
    (g x : ErrorGroup) (xs : List ErrorGroup)
    → Older g x
    → All (Older g) xs
    → OldestBelow g.id (by_age (x ∷ xs ++ g ∷ []))
unfolding by_age
by_age-OldestBelow g x [] o h = insert_above g x o
by_age-OldestBelow g x (y ∷ xs) o h =
    insert-OldestBelow g.id x (by_age (y ∷ xs ++ g ∷ [])) o.1 (by_age-OldestBelow g y xs h.0 h.1)

select-All :
    (P : ErrorGroup → Type 0) (p : ErrorGroup → Bool) (gs : List ErrorGroup)
    → All P gs
    → All P (select p gs)
unfolding select
select-All P p [] h = tt
select-All P p (g ∷ gs) h =
    post-if (All P) (p g) (g ∷ select p gs) (select p gs) (λ e. (h.0, select-All P p gs h.1))
      (λ e. select-All P p gs h.1)

not_oldest :
    (excess : ℕ) (g : ErrorGroup) (sorted : List ErrorGroup)
    → excess ≤ 1
    → OldestBelow g.id sorted
    → id_in (take excess sorted) g ≡ false
unfolding id_in
not_oldest zero g sorted one h = refl
not_oldest (suc zero) g [] one h = refl
not_oldest (suc zero) g (m ∷ ms) one h = ground (arith, h)
not_oldest (suc (suc n)) g sorted one h = absurd (omega (arith, one))

oldest_of_more :
    (g : ErrorGroup) (ss : List ErrorGroup)
    → All (Older g) ss
    → length ss ≢ 0
    → OldestBelow g.id (by_age (ss ++ g ∷ []))
oldest_of_more g [] h more = absurd (more refl)
oldest_of_more g (x ∷ xs) h more = by_age-OldestBelow g x xs h.0 h.1

same_source_refl : (s : Source) → same_source s s ≡ true
same_source_refl backend = refl
same_source_refl frontend = refl

own_source : (g : ErrorGroup) → of_source g.source g ≡ true
own_source g = same_source_refl g.source

select-new :
    (g : ErrorGroup) (gs : List ErrorGroup)
    → select (of_source g.source) (gs ++ g ∷ []) ≡ select (of_source g.source) gs ++ g ∷ []
unfolding select
select-new g gs = rw (select-append (of_source g.source) gs (g ∷ []), own_source g) refl

count-new :
    (g : ErrorGroup) (gs : List ErrorGroup)
    → count (of_source g.source) (gs ++ g ∷ []) ≡ count (of_source g.source) gs + 1
unfolding count
count-new g gs = rw (count-append (of_source g.source) gs (g ∷ []), own_source g) refl

stays :
    (g : ErrorGroup) (gs : List ErrorGroup) (q : ErrorGroup → Bool)
    → q g ≡ true
    → exists (has_fingerprint g.fingerprint) (select q (gs ++ g ∷ [])) ≡ true
unfolding select exists
stays g gs q h =
    rw
      (
        select-append q gs (g ∷ []),
        h,
        exists-append (has_fingerprint g.fingerprint) (select q gs) (g ∷ []),
        ==_refl g.fingerprint,
      )
      (ground arith)

is_there :
    (g : ErrorGroup) (gs : List ErrorGroup)
    → exists (has_fingerprint g.fingerprint) (gs ++ g ∷ []) ≡ true
unfolding exists
is_there g gs =
    rw (exists-append (has_fingerprint g.fingerprint) gs (g ∷ []), ==_refl g.fingerprint)
      (ground arith)

trimmed-keeps :
    (g : ErrorGroup) (db : Db)
    → All (Older g) db.groups
    → count (of_source g.source) db.groups ≤ source_group_limit
    → exists (has_fingerprint g.fingerprint) (trim_source g.source (with_group g db)).groups ≡ true
unfolding trim_source
trimmed-keeps g db older few =
    let gs = db.groups ++ g ∷ [] in
    let ss = select (of_source g.source) db.groups in
    let excess = count (of_source g.source) gs - source_group_limit in
    let q =
      λ (r : ErrorGroup). not (id_in (take excess (by_age (select (of_source g.source) gs))) r) in
    post-if (λ (s : Db). exists (has_fingerprint g.fingerprint) s.groups ≡ true) (excess == 0)
      (with_group g db) (record (with_group g db) { groups = select q gs })
      (λ e. is_there g db.groups)
      (λ e.
        let sorted =
          subst (λ rows. OldestBelow g.id (by_age rows)) (sym (select-new g db.groups))
            (oldest_of_more g ss (select-All (Older g) (of_source g.source) db.groups older) (
              ground
                (arith, e, count-new g db.groups, length-select (of_source g.source) db.groups))) in
        stays g db.groups q (
          ap not (
            not_oldest excess g (by_age (select (of_source g.source) gs))
              (omega (arith, few, count-new g db.groups)) sorted)))

-- The group of a new error is stored and survives the trimming, where no stored group was seen
-- later, ids grow, the source has at most 250 groups and no other transaction creates a
-- group at the same time.
pub record_error_new :
    (sha256 : Text → ℕ) (source : Source) (error_type location sample : Text) (now : ℕ) (db : Db)
    → exists (has_fingerprint (stored_fingerprint sha256 source error_type location)) db.groups
      ≡ false
    → All (λ (r : ErrorGroup). (r.last_seen ≤ now) × (r.id < db.next_id)) db.groups
    → count (of_source source) db.groups ≤ source_group_limit
    → exists
        (has_fingerprint (stored_fingerprint sha256 source error_type location))
        (record_error sha256 none source error_type location sample now db).groups
      ≡ true
unfolding record_error upsert_error_group create_or_bump insert_group
record_error_new sha256 source error_type location sample now db new older few =
    let type' = normalize error_type_length error_type in
    let location' = normalize location_length location in
    let f = stored_fingerprint sha256 source error_type location in
    let g = new_group db.next_id f source type' location' sample now in
    rw (record_error, upsert_error_group, create_or_bump, insert_group, new)
      (trimmed-keeps g db older few)
