-- ===== src/Faults/Groups/Trim.antt =====
-- `_trim_source` drops the oldest groups of a source that has too many.
use takulife.Common.{
  ℕ, zero, suc, ◌-◌, ◌≤◌, ◌<◌, ◌≡◌, ◌≢◌, refl, sym, ap, subst, Bool, true, false, not, List, [],
  ◌∷◌, ◌==◌, ==_refl, count, select, if◌then◌else◌, take, length, In, here, there, In-select,
  post-if, ◌⊎◌, inl, inr, arith,
}
use takulife.Faults.Key.{Source}
use takulife.Faults.Groups.{
  ErrorGroup, Db, source_group_limit, of_source, is_older, insert_by_age, by_age, id_in,
  trim_source,
}

-- A sorted list has the head and the rows of the list.
In-cases : (x r : ErrorGroup) (rs : List ErrorGroup) → In x (r ∷ rs) → (x ≡ r) ⊎ In x rs
In-cases x r rs here = inl refl
In-cases x r rs (there m) = inr m

In-choice :
    (b : Bool) (x g h : ErrorGroup) (hs rest : List ErrorGroup)
    → (In x rest → (x ≡ g) ⊎ In x hs)
    → In x (if b then g ∷ h ∷ hs else h ∷ rest)
    → (x ≡ g) ⊎ In x (h ∷ hs)
In-choice true x g h hs rest k m = In-cases x g (h ∷ hs) m
In-choice false x g h hs rest k here = inr here
In-choice false x g h hs rest k (there m) = elim (k m) [ inl e ↦ inl e | inr n ↦ inr (there n) ]

In-insert_by_age :
    (x g : ErrorGroup) (hs : List ErrorGroup) → In x (insert_by_age g hs) → (x ≡ g) ⊎ In x hs
unfolding insert_by_age
In-insert_by_age x g [] m = In-cases x g [] m
In-insert_by_age x g (h ∷ hs) m =
    In-choice (is_older g h) x g h hs (insert_by_age g hs) (In-insert_by_age x g hs) m

In-by_age : (x : ErrorGroup) (gs : List ErrorGroup) → In x (by_age gs) → In x gs
unfolding by_age
In-by_age x [] m = m
In-by_age x (g ∷ gs) m = elim (In-insert_by_age x g (by_age gs) m) [
  | inl e ↦ subst (λ y. In y (g ∷ gs)) (sym e) here
  | inr n ↦ there (In-by_age x gs n)
]

length-insert_by_age :
    (g : ErrorGroup) (hs : List ErrorGroup) → length (insert_by_age g hs) ≡ suc (length hs)
unfolding insert_by_age
length-insert_by_age g [] = refl
length-insert_by_age g (h ∷ hs) = ground (arith, length-insert_by_age g hs)

length-by_age : (gs : List ErrorGroup) → length (by_age gs) ≡ length gs
unfolding by_age
length-by_age [] = refl
length-by_age (g ∷ gs) = omega (arith, length-insert_by_age g (by_age gs), length-by_age gs)

pub length-select :
    (p : ErrorGroup → Bool) (gs : List ErrorGroup) → length (select p gs) ≡ count p gs
unfolding select count
length-select p [] = refl
length-select p (g ∷ gs) = ground (arith, length-select p gs)

count-select-le :
    (p q : ErrorGroup → Bool) (gs : List ErrorGroup) → count p (select q gs) ≤ count p gs
unfolding select count
count-select-le p q [] = omega arith
count-select-le p q (g ∷ gs) = ground (arith, count-select-le p q gs)

-- A row that counts and is dropped is missing from the count.
count-select-lt :
    (p q : ErrorGroup → Bool) (x : ErrorGroup) (gs : List ErrorGroup)
    → In x gs
    → p x ≡ true
    → q x ≡ false
    → count p (select q gs) < count p gs
unfolding select count
count-select-lt p q x [] m h k = elim m [ ]
count-select-lt p q x (g ∷ gs) here h k = ground (arith, h, k, count-select-le p q gs)
count-select-lt p q x (g ∷ gs) (there m) h k = ground (arith, count-select-lt p q x gs m h k)

-- The rows that go, where one row is too many: the oldest one.
id_in-head : (m : ErrorGroup) (ms : List ErrorGroup) → id_in (m ∷ ms) m ≡ true
unfolding id_in
id_in-head m ms = rw (==_refl m.id) refl

abbrev trimmed : Source → ℕ → List ErrorGroup → List ErrorGroup → List ErrorGroup
unfolding select id_in
trimmed source excess sorted gs = select (λ g. not (id_in (take excess sorted) g)) gs

trimmed-lt :
    (source : Source) (excess : ℕ) (sorted gs : List ErrorGroup)
    → ((x : ErrorGroup) → In x sorted → In x gs × (of_source source x ≡ true))
    → length sorted ≢ 0
    → excess ≢ 0
    → count (of_source source) (trimmed source excess sorted gs) < count (of_source source) gs
unfolding trimmed
trimmed-lt source zero sorted gs rows some_rows e = absurd (e refl)
trimmed-lt source (suc n) [] gs rows some_rows e = absurd (some_rows refl)
trimmed-lt source (suc n) (m ∷ ms) gs rows some_rows e =
    let (there', counts) = rows m here in
    count-select-lt (of_source source) (λ g. not (id_in (m ∷ take n ms) g)) m gs there' counts
      (ap not (id_in-head m (take n ms)))

sorted_rows :
    (source : Source) (gs : List ErrorGroup) (x : ErrorGroup)
    → In x (by_age (select (of_source source) gs))
    → In x gs × (of_source source x ≡ true)
sorted_rows source gs x m =
    In-select (of_source source) x gs (In-by_age x (select (of_source source) gs) m)

pub trim_source-own :
    (source : Source) (db : Db)
    → count (of_source source) db.groups ≤ suc source_group_limit
    → count (of_source source) (trim_source source db).groups ≤ source_group_limit
unfolding trim_source trimmed
trim_source-own source db h =
    let n = count (of_source source) db.groups in
    let sorted = by_age (select (of_source source) db.groups) in
    post-if (λ (s : Db). count (of_source source) s.groups ≤ source_group_limit)
      (n - source_group_limit == 0) db
      (record db { groups = trimmed source (n - source_group_limit) sorted db.groups })
      (λ fits. ground (arith, fits))
      (λ over.
        let less =
          trimmed-lt source (n - source_group_limit) sorted db.groups (sorted_rows source db.groups)
            (ground (
              arith,
              over,
              length-by_age (select (of_source source) db.groups),
              length-select (of_source source) db.groups,
            ))
            (ground (arith, over)) in
        omega (arith, less, h))

pub trim_source-other :
    (source other : Source) (db : Db)
    → count (of_source other) (trim_source source db).groups ≤ count (of_source other) db.groups
unfolding trim_source
trim_source-other source other db =
    let n = count (of_source source) db.groups in
    let sorted = by_age (select (of_source source) db.groups) in
    post-if (λ (s : Db). count (of_source other) s.groups ≤ count (of_source other) db.groups)
      (n - source_group_limit == 0) db
      (record db {
        groups = select (λ g. not (id_in (take (n - source_group_limit) sorted) g)) db.groups;
      })
      (λ fits. omega arith)
      (λ over.
        count-select-le (of_source other)
          (λ g. not (id_in (take (n - source_group_limit) sorted) g)) db.groups)
