-- ===== src/Faults/Key/Twice.antt =====
-- Cleaning a key twice: the cut may leave a space at the end, which the second cleaning removes.
use takulife.Common.{
  ℕ, suc, ◌≡◌, ◌≢◌, refl, ap, sym, ◌∙◌, subst, [], ◌∷◌, ◌++◌, false, ◌==◌, All, Text, arith, length,
  length-append, take, strip_left, strip_right, is_whitespace,
}
use takulife.Faults.Key.{
  is_ctl, control_to_space, fold_spaces, strip_control, Source, fingerprint_key, normalize,
  error_type_length, location_length,
}
use takulife.Faults.Key.Injective.{fingerprint_key-injective}

-- A character that every step keeps.
abbrev pub Solid : ℕ → Type 0
Solid c = (is_ctl c ≡ false) × (is_whitespace c ≡ false)

not_space : (c : ℕ) → is_whitespace c ≡ false → (c == 32) ≡ false
not_space c h = ground (arith, h)

control_to_space-word :
    (w t : Text) → All Solid w → control_to_space false (w ++ t) ≡ w ++ control_to_space false t
unfolding control_to_space
control_to_space-word [] t h = refl
control_to_space-word (c ∷ w) t h = rw (h.0.0, control_to_space-word w t h.1) refl

fold_spaces-word :
    (w t : Text) → All Solid w → fold_spaces false (w ++ t) ≡ w ++ fold_spaces false t
unfolding fold_spaces
fold_spaces-word [] t h = refl
fold_spaces-word (c ∷ w) t h = rw (not_space c h.0.1, fold_spaces-word w t h.1) refl

strip_right-word : (w t : Text) → All Solid w → strip_right (w ++ t) ≡ w ++ strip_right t
unfolding strip_right
strip_right-word [] t h = refl
strip_right-word (c ∷ w) t h = rw (h.0.1, strip_right-word w t h.1) refl

strip_left-word : (c : ℕ) (t : Text) → Solid c → strip_left (c ∷ t) ≡ c ∷ t
unfolding strip_left
strip_left-word c t h = rw h.1 refl

strip_control-word :
    (c : ℕ) (w t : Text)
    → All Solid (c ∷ w)
    → strip_control ((c ∷ w) ++ t)
      ≡ (c ∷ w) ++ strip_right (fold_spaces false (control_to_space false t))
unfolding strip_control
strip_control-word c w t h =
    rw
      (
        control_to_space-word (c ∷ w) t h,
        fold_spaces-word (c ∷ w) (control_to_space false t) h,
        strip_left-word c (w ++ fold_spaces false (control_to_space false t)) h.0,
      )
      (strip_right-word (c ∷ w) (fold_spaces false (control_to_space false t)) h)

tail_with_letter :
    (d : ℕ)
    → Solid d
    → strip_right (fold_spaces false (control_to_space false (32 ∷ d ∷ []))) ≡ 32 ∷ d ∷ []
unfolding strip_right fold_spaces control_to_space
tail_with_letter d h = rw (h.0, not_space d h.1, h.1) refl

take-word : (w t : Text) (d : ℕ) → take (suc (length w)) (w ++ d ∷ t) ≡ w ++ d ∷ []
take-word [] t d = refl
take-word (c ∷ w) t d = ap (λ s. c ∷ s) (take-word w t d)

take-whole : (w : Text) → take (suc (length w)) (w ++ []) ≡ w ++ []
take-whole [] = refl
take-whole (c ∷ w) = ap (λ s. c ∷ s) (take-whole w)

-- The first cleaning cuts behind the space.
normalize-once :
    (c : ℕ) (w : Text) (d : ℕ)
    → All Solid (c ∷ w)
    → Solid d
    → normalize (suc (length (c ∷ w))) ((c ∷ w) ++ 32 ∷ d ∷ []) ≡ (c ∷ w) ++ 32 ∷ []
unfolding normalize
normalize-once c w d h k =
    ap (take (suc (length (c ∷ w))))
      (strip_control-word c w (32 ∷ d ∷ []) h ∙ ap (λ t. (c ∷ w) ++ t) (tail_with_letter d k))
    ∙ take-word (c ∷ w) (d ∷ []) 32

-- The second removes the space.
normalize-again :
    (c : ℕ) (w : Text)
    → All Solid (c ∷ w)
    → normalize (suc (length (c ∷ w))) ((c ∷ w) ++ 32 ∷ []) ≡ (c ∷ w) ++ []
unfolding normalize strip_right fold_spaces control_to_space
normalize-again c w h =
    ap (take (suc (length (c ∷ w)))) (strip_control-word c w (32 ∷ []) h) ∙ take-whole (c ∷ w)

shorter : (w : Text) → w ++ 32 ∷ [] ≢ w ++ []
shorter w e = omega (arith, ap length e, length-append w (32 ∷ []), length-append w [])

-- A location whose 255th character is a space after 254 characters that stay, with one more such
-- character, has another key before cleaning than after: `compute_fingerprint` of the raw
-- location is taken from another key than the one that `record_error` stores.
pub fingerprint_key-cleaned :
    (source : Source) (error_type w : Text) (c d : ℕ)
    → All Solid (c ∷ w)
    → Solid d
    → length (c ∷ w) ≡ 254
    → fingerprint_key source error_type ((c ∷ w) ++ 32 ∷ d ∷ [])
      ≢ fingerprint_key source
          (normalize error_type_length error_type)
          (normalize location_length ((c ∷ w) ++ 32 ∷ d ∷ []))
fingerprint_key-cleaned source error_type w c d h k size e =
    let limit : suc (length (c ∷ w)) ≡ location_length = omega (arith, size) in
    let once =
      subst (λ n. normalize n ((c ∷ w) ++ 32 ∷ d ∷ []) ≡ (c ∷ w) ++ 32 ∷ []) limit
        (normalize-once c w d h k) in
    let again =
      subst (λ n. normalize n ((c ∷ w) ++ 32 ∷ []) ≡ (c ∷ w) ++ []) limit (normalize-again c w h) in
    let same =
      fingerprint_key-injective source source error_type ((c ∷ w) ++ 32 ∷ d ∷ [])
        (normalize error_type_length error_type)
        (normalize location_length ((c ∷ w) ++ 32 ∷ d ∷ [])) e in
    shorter (c ∷ w) (sym once ∙ same.2 ∙ ap (normalize location_length) once ∙ again)
