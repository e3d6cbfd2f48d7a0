-- ===== src/Faults/Key.antt =====
-- The key of an error: `_strip_control`, `_normalize_key` and `compute_fingerprint` of
-- core/error_groups.py.
use takulife.Common.{
  ℕ, Bool, true, false, ◌&&◌, ◌||◌, List, [], ◌∷◌, ◌++◌, ◌==◌, ltb, leb, take, Text, if◌then◌else◌,
  strip_left, strip_right,
}
pub mod Plain
pub mod Injective
pub mod Twice

-- `_CONTROL_CHARS_RE`
abbrev pub is_ctl : ℕ → Bool
is_ctl c = ltb c 32 || c == 127

-- `_CONTROL_CHARS_RE.sub(" ", text)`: a space for each run; `inside` says that the character
-- before was in the run.
unfoldable pub control_to_space : Bool → Text → Text
control_to_space inside [] = []
control_to_space inside (c ∷ cs) =
    let after = control_to_space true cs in
    let plain = control_to_space false cs in
    if is_ctl c then (if inside then after else 32 ∷ after) else c ∷ plain

-- `_EXTRA_SPACES_RE.sub(" ", text)`
unfoldable pub fold_spaces : Bool → Text → Text
fold_spaces inside [] = []
fold_spaces inside (c ∷ cs) =
    let after = fold_spaces true cs in
    let plain = fold_spaces false cs in
    if c == 32 then (if inside then after else 32 ∷ after) else c ∷ plain

-- `_strip_control`
unfoldable pub strip_control : Text → Text
unfolding control_to_space fold_spaces strip_left strip_right
strip_control text = strip_right (strip_left (fold_spaces false (control_to_space false text)))

abbrev pub error_type_length : ℕ
error_type_length = 100

abbrev pub location_length : ℕ
location_length = 255

-- The two parts of `_normalize_key`.
unfoldable pub normalize : ℕ → Text → Text
unfolding strip_control
normalize limit text = take limit (strip_control text)

pub data Source : Type 0 where
  backend frontend : Source

-- "backend" and "frontend"
abbrev pub source_text : Source → Text
source_text backend = 98 ∷ 97 ∷ 99 ∷ 107 ∷ 101 ∷ 110 ∷ 100 ∷ []
source_text frontend = 102 ∷ 114 ∷ 111 ∷ 110 ∷ 116 ∷ 101 ∷ 110 ∷ 100 ∷ []

-- The text that `compute_fingerprint` hashes: the parts with the character 31 between them.
unfoldable pub fingerprint_key : Source → Text → Text → Text
unfolding normalize
fingerprint_key source error_type location =
    source_text source
    ++ 31 ∷ (normalize error_type_length error_type ++ 31 ∷ normalize location_length location)

-- `hashlib.sha256(...)` is a parameter.
unfoldable pub compute_fingerprint : (Text → ℕ) → Source → Text → Text → ℕ
unfolding fingerprint_key
compute_fingerprint sha256 source error_type location =
    sha256 (fingerprint_key source error_type location)
