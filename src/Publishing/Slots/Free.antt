-- ===== src/Publishing/Slots/Free.antt =====
-- The lowest free palette slot: `Category._next_available_slot` of core/models.py.
use takulife.Common.{
  ℕ, zero, suc, ◌+◌, ◌≤◌, ◌<◌, true, false, Option, none, some, List, ◌≡◌, ◌≢◌, arith, All,
  All-mono, All_of_not_exists, exists, clashes,
}
use takulife.Publishing.Model.{Category}
use takulife.Publishing.Slots.{has_slot, free_slot}

not_clashes : (o : Option ℕ) (n : ℕ) → clashes o (some n) ≡ false → o ≢ some n
not_clashes none n h e = cc
not_clashes (some m) n h e = ground arith

pub All_of_unused :
    (n : ℕ) (cs : List Category)
    → exists (has_slot n) cs ≡ false
    → All (λ (c : Category). c.palette_slot ≢ some n) cs
All_of_unused n cs h =
    All-mono (λ (c : Category). has_slot n c ≡ false) (λ (c : Category). c.palette_slot ≢ some n) cs
      (λ c e. not_clashes c.palette_slot n e) (All_of_not_exists (has_slot n) cs h)

-- The slot that is found is in range and free.
pub free_slot-some :
    (rounds slot n : ℕ) (cs : List Category)
    → free_slot rounds slot cs ≡ some n
    → (n < slot + rounds) × (exists (has_slot n) cs ≡ false)
unfolding free_slot
free_slot-some zero slot n cs h = cc
free_slot-some (suc rounds) slot n cs h = ground (arith, free_slot-some rounds (slot + 1) n cs)

-- Where none is found, every slot in range is taken.
pub free_slot-none :
    (rounds slot n : ℕ) (cs : List Category)
    → free_slot rounds slot cs ≡ none
    → slot ≤ n
    → n < slot + rounds
    → exists (has_slot n) cs ≡ true
unfolding free_slot
free_slot-none zero slot n cs h lo hi = absurd (omega arith)
free_slot-none (suc rounds) slot n cs h lo hi =
    ground (arith, free_slot-none rounds (slot + 1) n cs)
