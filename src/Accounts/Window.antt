-- ===== src/Accounts/Window.antt =====
-- The fixed window of a counter.
use takulife.Common.{
  ℕ, ◌+◌, ◌<◌, ◌≡◌, refl, ap, ◌∙◌, Bool, true, ◌&&◌, Option, none, some, List, [], ◌∷◌, ltb, leb,
  length, All, arith,
}
use takulife.Accounts.{
  Attempts, is_blocked, started, counted, is_delete_locked, register_failed_delete_attempt,
}

-- No window is running at the time.
abbrev pub is_over : ℕ → Option Attempts → Bool
is_over now none = true
is_over now (some r) = leb r.deadline now

-- The registrations at the times, in this order.
abbrev pub in_turn :
    (ℕ → Option Attempts → Option Attempts) → List ℕ → Option Attempts → Option Attempts
in_turn register [] entry = entry
in_turn register (t ∷ ts) entry = in_turn register ts (register t entry)

module _ (seconds : ℕ) where
  abbrev pub register : ℕ → Option Attempts → Option Attempts
  register now entry = some (counted (started seconds now entry))

  register_first :
      (now : ℕ) (entry : Option Attempts)
      → is_over now entry ≡ true
      → register now entry ≡ some (record { count = 1; deadline = now + seconds })
  register_first now none h = refl
  register_first now (some r) h = ground (arith, h)

  register_inside :
      (now count deadline : ℕ)
      → now < deadline
      → register now (some (record { count = count; deadline = deadline }))
        ≡ some (record { count = count + 1; deadline = deadline })
  register_inside now count deadline h = ground (arith, h)

  in_turn_inside :
      (ts : List ℕ) (count deadline : ℕ)
      → All (λ t. t < deadline) ts
      → in_turn register ts (some (record { count = count; deadline = deadline }))
        ≡ some (record { count = count + length ts; deadline = deadline })
  in_turn_inside [] count deadline h =
      ap (λ n. some (record { count = n; deadline = deadline })) (omega arith)
  in_turn_inside (t ∷ ts) count deadline h =
      ap (in_turn register ts) (register_inside t count deadline h.0)
      ∙ in_turn_inside ts (count + 1) deadline h.1
      ∙ ap (λ n. some (record { count = n; deadline = deadline })) (omega arith)

  -- The first registration opens a window which the later ones in it do not move.
  pub blocked_until :
      (limit first_time now : ℕ) (ts : List ℕ) (entry : Option Attempts)
      → is_over first_time entry ≡ true
      → All (λ t. t < first_time + seconds) ts
      → is_blocked limit now (in_turn register (first_time ∷ ts) entry)
        ≡ (ltb now (first_time + seconds) && leb limit (1 + length ts))
  blocked_until limit first_time now ts entry over inside =
      ap (is_blocked limit now) (
        ap (in_turn register ts) (register_first first_time entry over)
        ∙ in_turn_inside ts 1 (first_time + seconds) inside)
      ∙ ground arith

-- After a wrong password where no window runs, and more of them within the 900 seconds from then,
-- the deletion is locked exactly until these seconds are over, if they were five or more in all.
delete_locked_until :
    (first_time now : ℕ) (ts : List ℕ) (entry : Option Attempts)
    → is_over first_time entry ≡ true
    → All (λ t. t < first_time + 900) ts
    → is_delete_locked now (in_turn register_failed_delete_attempt (first_time ∷ ts) entry)
      ≡ (ltb now (first_time + 900) && leb 5 (1 + length ts))
unfolding is_delete_locked register_failed_delete_attempt
delete_locked_until = blocked_until 900 5
