-- ===== src/Faults/Key/Injective.antt =====
-- The parts of a key cannot run into each other.
use takulife.Common.{◌≡◌, refl, [], ◌∷◌, ◌++◌, All, Text, arith}
use takulife.Faults.Key.{
  Source, backend, frontend, source_text, fingerprint_key, normalize, error_type_length,
  location_length,
}
use takulife.Faults.Key.Plain.{Plain, normalize-Plain}

-- The parts before and after the first separator.
split_at_separator :
    (a b c d : Text) → All Plain a → All Plain b → a ++ 31 ∷ c ≡ b ++ 31 ∷ d → (a ≡ b) × (c ≡ d)
split_at_separator [] [] c d h k e = (refl, cc)
split_at_separator [] (y ∷ b) c d h k e = absurd (ground (arith, k.0, e))
split_at_separator (x ∷ a) [] c d h k e = absurd (ground (arith, h.0, e))
split_at_separator (x ∷ a) (y ∷ b) c d h k e =
    let (p, q) = split_at_separator a b c d h.1 k.1 (cc e) in (cc (e, p), q)

source_text-Plain : (s : Source) → All Plain (source_text s)
source_text-Plain backend = (refl, (refl, (refl, (refl, (refl, (refl, (refl, tt)))))))
source_text-Plain frontend = (refl, (refl, (refl, (refl, (refl, (refl, (refl, (refl, tt))))))))

source_text-injective : (s t : Source) → source_text s ≡ source_text t → s ≡ t
source_text-injective backend backend e = refl
source_text-injective backend frontend e = absurd (ground arith)
source_text-injective frontend backend e = absurd (ground arith)
source_text-injective frontend frontend e = refl

-- Two errors have one key only if they have the same source, and the same error type and location
-- after cleaning: no character of one part is taken for a character of another.
pub fingerprint_key-injective :
    (s t : Source) (type location type' location' : Text)
    → fingerprint_key s type location ≡ fingerprint_key t type' location'
    → (s ≡ t)
      × (normalize error_type_length type ≡ normalize error_type_length type')
      × (normalize location_length location ≡ normalize location_length location')
unfolding fingerprint_key
fingerprint_key-injective s t type location type' location' e =
    let (sources, rest) =
      split_at_separator (source_text s) (source_text t)
        (normalize error_type_length type ++ 31 ∷ normalize location_length location)
        (normalize error_type_length type' ++ 31 ∷ normalize location_length location')
        (source_text-Plain s) (source_text-Plain t) e in
    let (types, locations) =
      split_at_separator (normalize error_type_length type) (normalize error_type_length type')
        (normalize location_length location) (normalize location_length location')
        (normalize-Plain error_type_length type) (normalize-Plain error_type_length type') rest in
    (source_text-injective s t sources, types, locations)
