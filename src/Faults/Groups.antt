-- ===== src/Faults/Groups.antt =====
-- The rows of `ErrorGroup` and the functions of core/error_groups.py that change or read them. The
-- clock is read once for each operation; times are seconds.
use takulife.Common.{
  ℕ, ◌+◌, ◌-◌, ◌*◌, Bool, true, false, not, ◌&&◌, ◌||◌, Option, none, some, List, [], ◌∷◌, ◌++◌,
  ◌==◌, ltb, leb, take, map, Text, exists, count, select, update, if◌then◌else◌,
}
use takulife.Faults.Key.{
  Source, backend, frontend, normalize, error_type_length, location_length, compute_fingerprint,
}
pub mod Trim
pub mod Limit
pub mod Newest
pub mod Counted

pub record ErrorGroup : Type 0 where
  pub id : ℕ
  pub source : Source
  pub fingerprint : ℕ
  pub error_type : Text
  pub location : Text
  pub message_sample : Text
  pub first_seen : ℕ
  pub last_seen : ℕ
  pub count : ℕ

pub record Db : Type 0 where
  pub next_id : ℕ
  pub groups : List ErrorGroup

abbrev pub source_group_limit : ℕ
source_group_limit = 250

abbrev pub has_fingerprint : ℕ → ErrorGroup → Bool
has_fingerprint fingerprint g = g.fingerprint == fingerprint

abbrev pub same_source : Source → Source → Bool
same_source backend backend = true
same_source frontend frontend = true
same_source _ _ = false

abbrev pub of_source : Source → ErrorGroup → Bool
of_source source g = same_source g.source source

abbrev pub seen_again : ℕ → Text → ErrorGroup → ErrorGroup
seen_again now sample g = record g { count = g.count + 1; last_seen = now; message_sample = sample }

-- `_bump`; whether it found a row is `exists` on the state before.
unfoldable pub bump : ℕ → ℕ → Text → Db → Db
unfolding update
bump fingerprint now sample db = record db {
  groups = update (has_fingerprint fingerprint) (seen_again now sample) db.groups;
}

-- `order_by("last_seen", "id")`
abbrev pub is_older : ErrorGroup → ErrorGroup → Bool
is_older a b = ltb a.last_seen b.last_seen || (a.last_seen == b.last_seen && leb a.id b.id)

unfoldable pub insert_by_age : ErrorGroup → List ErrorGroup → List ErrorGroup
insert_by_age g [] = g ∷ []
insert_by_age g (h ∷ hs) =
    let rest = insert_by_age g hs in if is_older g h then g ∷ h ∷ hs else h ∷ rest

unfoldable pub by_age : List ErrorGroup → List ErrorGroup
unfolding insert_by_age
by_age [] = []
by_age (g ∷ gs) = insert_by_age g (by_age gs)

-- `id__in=ids`
unfoldable pub id_in : List ErrorGroup → ErrorGroup → Bool
id_in [] g = false
id_in (s ∷ ss) g = g.id == s.id || id_in ss g

-- `_trim_source`
unfoldable pub trim_source : Source → Db → Db
unfolding by_age id_in count select
trim_source source db =
    let excess = count (of_source source) db.groups - source_group_limit in
    if excess == 0
    then db
    else let stale = take excess (by_age (select (of_source source) db.groups)) in
      record db { groups = select (λ g. not (id_in stale g)) db.groups }

-- `ErrorGroup.objects.create`: the fingerprint is unique.
unfoldable pub insert_group : ErrorGroup → Db → Option Db
unfolding exists
insert_group g db =
    if exists (has_fingerprint g.fingerprint) db.groups
    then none
    else some (record db { groups = db.groups ++ g ∷ []; next_id = db.next_id + 1 })

-- What another transaction commits between the first `_bump` and the creation.
unfoldable pub commit_rival : Option ErrorGroup → Db → Db
unfolding insert_group
commit_rival none db = db
commit_rival (some g) db = elim (insert_group (record g { id = db.next_id }) db) [
  | none ↦ db
  | some db' ↦ db'
]

abbrev pub new_group : ℕ → ℕ → Source → Text → Text → Text → ℕ → ErrorGroup
new_group id fingerprint source error_type location sample now = record {
  id = id;
  source = source;
  fingerprint = fingerprint;
  error_type = error_type;
  location = take location_length location;
  message_sample = sample;
  first_seen = now;
  last_seen = now;
  count = 1;
}

-- The creation: on `IntegrityError` the row of the other transaction is bumped.
unfoldable pub create_or_bump : ErrorGroup → Db → Db
unfolding insert_group bump trim_source
create_or_bump g db = elim (insert_group g db) [
  | none ↦ bump g.fingerprint g.last_seen g.message_sample db
  | some db' ↦ trim_source g.source db'
]

-- `_upsert_error_group`
unfoldable pub upsert_error_group :
    Option ErrorGroup → ℕ → Source → Text → Text → Text → ℕ → Db → Db
unfolding exists bump commit_rival create_or_bump
upsert_error_group rival fingerprint source error_type location sample now db =
    if exists (has_fingerprint fingerprint) db.groups
    then bump fingerprint now sample db
    else let db' = commit_rival rival db in
      create_or_bump (new_group db'.next_id fingerprint source error_type location sample now) db'

-- `record_error`, for the sample that `sanitize_message` made of the message.
unfoldable pub record_error :
    (Text → ℕ) → Option ErrorGroup → Source → Text → Text → Text → ℕ → Db → Db
unfolding normalize compute_fingerprint upsert_error_group
record_error sha256 rival source error_type location sample now =
    let type' = normalize error_type_length error_type in
    let location' = normalize location_length location in
    upsert_error_group rival (compute_fingerprint sha256 source type' location') source type'
      location' sample now

-- `prune_stale_error_groups`: the number of rows, and the state after.
unfoldable pub prune_stale_error_groups : ℕ → Bool → ℕ → Db → ℕ × Db
unfolding count select
prune_stale_error_groups days dry_run now db =
    let is_stale = λ (g : ErrorGroup). ltb (g.last_seen + days * 86400) now in
    (
      count is_stale db.groups,
      if dry_run then db else record db { groups = select (λ g. not (is_stale g)) db.groups },
    )
