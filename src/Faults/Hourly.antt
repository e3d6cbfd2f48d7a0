-- ===== src/Faults/Hourly.antt =====
-- `frontend_new_group_allowed` of core/error_groups.py: the limit on new groups of the public
-- endpoint. The cache keeps a counter by the hour. `add` gives it 3600 seconds to live; `incr` of the
-- shared cache writes the counter anew without this time, so that it lives `lifetime` seconds from
-- then, which is the default of the cache (300).
use takulife.Common.{
  ℕ, ◌+◌, ◌/◌, ◌≤◌, ◌<◌, ◌≡◌, Bool, true, false, not, ◌&&◌, Option, none, some, List, [], ◌∷◌, ◌==◌,
  ==_refl, subst, leb, exists, arith, if◌then◌else◌,
}
use takulife.Faults.Groups.{Db, has_fingerprint}

abbrev pub new_group_hourly_limit : ℕ
new_group_hourly_limit = 20

pub record Counter : Type 0 where
  pub value : ℕ
  pub expires : ℕ

-- The counters by the hour.
abbrev pub Cache : Type 0
Cache = ℕ → Option Counter

abbrev pub hour_of : ℕ → ℕ
hour_of now = now / 3600

-- The value after `cache.add(key, 0, 3600)`: a counter that is over is absent.
abbrev pub counted : ℕ → Option Counter → ℕ
counted now none = 0
counted now (some c) = if leb c.expires now then 0 else c.value

-- `cache.incr(key)`
abbrev pub incr : ℕ → ℕ → Cache → Cache
incr lifetime now cache k =
    if k == hour_of now
    then some (record { value = counted now (cache (hour_of now)) + 1; expires = now + lifetime })
    else cache k

unfoldable pub frontend_new_group_allowed : ℕ → ℕ → ℕ → Db → Cache → Bool × Cache
unfolding exists
frontend_new_group_allowed lifetime fingerprint now db cache =
    if exists (has_fingerprint fingerprint) db.groups then (true, cache) else (
      leb (counted now (cache (hour_of now)) + 1) new_group_hourly_limit,
      incr lifetime now cache,
    )

-- A request, with the groups that are stored when it arrives.
pub record Request : Type 0 where
  pub fingerprint : ℕ
  pub now : ℕ
  pub db : Db

abbrev pub is_new : Request → Bool
is_new r = not (exists (has_fingerprint r.fingerprint) r.db.groups)

-- How many of the requests, one after the other, may store a new group in the hour.
abbrev pub new_groups : ℕ → ℕ → List Request → Cache → ℕ
unfolding exists frontend_new_group_allowed
new_groups lifetime hour [] cache = 0
new_groups lifetime hour (r ∷ rs) cache =
    let (allowed, after) = frontend_new_group_allowed lifetime r.fingerprint r.now r.db cache in
    (if is_new r && (hour_of r.now == hour && allowed) then 1 else 0)
    + new_groups lifetime hour rs after

-- The counter, as far as there is one, lives until `time`.
abbrev pub LivesUntil : ℕ → Option Counter → Type 0
LivesUntil time none = Unit
LivesUntil time (some c) = time ≤ c.expires

abbrev pub value_of : Option Counter → ℕ
value_of none = 0
value_of (some c) = c.value

-- The request arrives in the span of `lifetime` seconds from `start`.
abbrev pub InSpan : ℕ → ℕ → Request → Type 0
InSpan start lifetime r = (start ≤ r.now) × (r.now < start + lifetime)

counted_over :
    (lifetime time now : ℕ) (cache : Cache)
    → hour_of time ≡ hour_of now
    → time + lifetime ≤ now
    → counted now (incr lifetime time cache (hour_of now)) ≡ 0
counted_over lifetime time now cache same late =
    subst (λ h. counted now (incr lifetime time cache h) ≡ 0) same
      (rw (==_refl (hour_of time)) (ground (arith, late)))

-- A request for a new group that comes when the counter of the request before it has run out is
-- allowed, in the same hour too, and however many came before.
allowed_again :
    (lifetime f g time now : ℕ) (db db' : Db) (cache : Cache)
    → exists (has_fingerprint f) db.groups ≡ false
    → hour_of time ≡ hour_of now
    → time + lifetime ≤ now
    → (frontend_new_group_allowed lifetime g now db'
        (frontend_new_group_allowed lifetime f time db cache).1).0
      ≡ true
unfolding frontend_new_group_allowed
allowed_again lifetime f g time now db db' cache new same late =
    rw (frontend_new_group_allowed, new)
      (ground (arith, counted_over lifetime time now cache same late))
