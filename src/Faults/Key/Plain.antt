-- ===== src/Faults/Key/Plain.antt =====
-- A cleaned text holds no control characters.
use takulife.Common.{
  ℕ, ◌≡◌, refl, Bool, true, false, ◌&&◌, [], ◌∷◌, ◌==◌, ==_iff, subst, All, All-take, post-if, Text,
  if◌then◌else◌, strip_left, strip_right, is_whitespace, is_empty,
}
use takulife.Faults.Key.{is_ctl, control_to_space, fold_spaces, strip_control, normalize}

-- The character is no control character.
abbrev pub Plain : ℕ → Type 0
Plain c = is_ctl c ≡ false

control_to_space-Plain : (inside : Bool) (text : Text) → All Plain (control_to_space inside text)
unfolding control_to_space
control_to_space-Plain inside [] = tt
control_to_space-Plain inside (c ∷ cs) =
    let after = control_to_space-Plain true cs in
    post-if (All Plain) (is_ctl c)
      (if inside then control_to_space true cs else 32 ∷ control_to_space true cs)
      (c ∷ control_to_space false cs)
      (λ ctl.
        post-if (All Plain) inside (control_to_space true cs) (32 ∷ control_to_space true cs)
          (λ i. after) (λ i. (refl, after)))
      (λ plain. (plain, control_to_space-Plain false cs))

-- The other steps drop characters, or keep the text.
module _ (P : ℕ → Type 0) where
  fold_spaces-All : (inside : Bool) (text : Text) → All P text → All P (fold_spaces inside text)
  unfolding fold_spaces
  fold_spaces-All inside [] h = tt
  fold_spaces-All inside (c ∷ cs) h =
      let after = fold_spaces-All true cs h.1 in
      post-if (All P) (c == 32) (if inside then fold_spaces true cs else 32 ∷ fold_spaces true cs)
        (c ∷ fold_spaces false cs)
        (λ space.
          post-if (All P) inside (fold_spaces true cs) (32 ∷ fold_spaces true cs) (λ i. after)
            (λ i. (subst P ((==_iff c 32).0 space) h.0, after)))
        (λ other. (h.0, fold_spaces-All false cs h.1))

  strip_left-All : (text : Text) → All P text → All P (strip_left text)
  unfolding strip_left
  strip_left-All [] h = tt
  strip_left-All (c ∷ cs) h =
      post-if (All P) (is_whitespace c) (strip_left cs) (c ∷ cs) (λ w. strip_left-All cs h.1)
        (λ w. h)

  strip_right-All : (text : Text) → All P text → All P (strip_right text)
  unfolding strip_right
  strip_right-All [] h = tt
  strip_right-All (c ∷ cs) h =
      post-if (All P) (is_whitespace c && is_empty (strip_right cs)) [] (c ∷ strip_right cs)
        (λ w. tt) (λ w. (h.0, strip_right-All cs h.1))

strip_control-Plain : (text : Text) → All Plain (strip_control text)
unfolding strip_control
strip_control-Plain text =
    strip_right-All Plain (strip_left (fold_spaces false (control_to_space false text))) (
      strip_left-All Plain (fold_spaces false (control_to_space false text)) (
        fold_spaces-All Plain false (control_to_space false text)
          (control_to_space-Plain false text)))

pub normalize-Plain : (limit : ℕ) (text : Text) → All Plain (normalize limit text)
unfolding normalize
normalize-Plain limit text = All-take Plain limit (strip_control text) (strip_control-Plain text)
