-- ===== src/Faults/Tests.antt =====
-- The groups of errors at concrete inputs.
use takulife.Common.{
  ℕ, exists, true, some, zero, suc, ◌+◌, ◌*◌, ◌≡◌, ◌≢◌, refl, [], ◌∷◌, ◌++◌, All, none, Text, first,
  count, length, arith,
}
use takulife.Faults.Key.{
  backend, frontend, fingerprint_key, normalize, error_type_length, location_length,
}
use takulife.Faults.Key.Injective.{fingerprint_key-injective}
use takulife.Faults.Key.Twice.{Solid, fingerprint_key-cleaned}
use takulife.Faults.Groups.{ErrorGroup, Db, has_fingerprint, record_error}
use takulife.Faults.Groups.Newest.{record_error_new}
use takulife.Faults.Hourly.{Request, Cache}
use takulife.Faults.Groups.Limit.{IsLimited, record_error-IsLimited}
use takulife.Faults.Groups.Counted.{stored_fingerprint, record_error_counted}

abbrev type_a : Text
type_a = 65 ∷ 10 ∷ 66 ∷ []

abbrev type_b : Text
type_b = 65 ∷ 13 ∷ 10 ∷ 66 ∷ []

abbrev place : Text
place = 97 ∷ 46 ∷ 112 ∷ 121 ∷ []

fingerprint_key-injective_example :
    (frontend ≡ frontend)
    × (normalize error_type_length type_a ≡ normalize error_type_length type_b)
    × (normalize location_length place ≡ normalize location_length place)
unfolding fingerprint_key
fingerprint_key-injective_example =
    fingerprint_key-injective frontend frontend type_a place type_b place refl

abbrev letters : ℕ → Text
letters zero = []
letters (suc n) = 97 ∷ letters n

letters-Solid : (n : ℕ) → All Solid (letters n)
letters-Solid zero = tt
letters-Solid (suc n) = ((refl, refl), letters-Solid n)

fingerprint_key-cleaned_example :
    fingerprint_key frontend type_a ((97 ∷ letters 253) ++ 32 ∷ 98 ∷ [])
    ≢ fingerprint_key frontend
        (normalize error_type_length type_a)
        (normalize location_length ((97 ∷ letters 253) ++ 32 ∷ 98 ∷ []))
fingerprint_key-cleaned_example =
    fingerprint_key-cleaned frontend type_a (letters 253) 97 98 (letters-Solid 254) (refl, refl)
      refl

-- A stand-in for the hash, which keeps the tests short.
abbrev hash : Text → ℕ
hash [] = 0
hash (c ∷ cs) = c + 2 * hash cs

abbrev empty : Db
empty = record { next_id = 1; groups = [] }

record_error-IsLimited_example :
    IsLimited (record_error hash none frontend type_a place [] 1000 empty)
unfolding count
record_error-IsLimited_example =
    record_error-IsLimited hash frontend type_a place [] 1000 empty (λ source. omega arith)

abbrev recorded : Db
unfolding record_error
recorded = record_error hash none frontend type_a place [] 1000 empty

abbrev group : ErrorGroup
unfolding normalize
group = record {
  id = 1;
  source = frontend;
  fingerprint = stored_fingerprint hash frontend type_a place;
  error_type = 65 ∷ 32 ∷ 66 ∷ [];
  location = place;
  message_sample = [];
  first_seen = 1000;
  last_seen = 1000;
  count = 1;
}

record_error_counted_example :
    (first
        (has_fingerprint (stored_fingerprint hash frontend type_b place))
        (record_error hash none frontend type_b place (98 ∷ []) 2000 recorded).groups
      ≡ some (record group { count = 2; last_seen = 2000; message_sample = 98 ∷ [] }))
    × (length (record_error hash none frontend type_b place (98 ∷ []) 2000 recorded).groups
        ≡ length recorded.groups)
unfolding recorded group record_error first
record_error_counted_example =
    record_error_counted hash none frontend type_b place (98 ∷ []) 2000 recorded group refl

abbrev request : Request
request = record { fingerprint = 5; now = 7300; db = empty }

abbrev counter : Cache
counter hour = some (record { value = 19; expires = 7500 })

record_error_new_example :
    exists
      (has_fingerprint (stored_fingerprint hash backend type_a place))
      (record_error hash none backend type_a place [] 2000 recorded).groups
    ≡ true
unfolding recorded record_error exists count
record_error_new_example =
    record_error_new hash backend type_a place [] 2000 recorded refl
      ((omega arith, omega arith), tt) (omega arith)
