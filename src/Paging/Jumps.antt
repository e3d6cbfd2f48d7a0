-- ===== src/Paging/Jumps.antt =====
-- Where the arrows of the pager lead.
use takulife.Common.{
  ℕ, suc, ◌+◌, ◌-◌, ◌*◌, ◌≤◌, ◌<◌, ◌≡◌, ◌≢◌, refl, ap, ◌∙◌, max, true, false, List, [], ◌∷◌, ◌++◌,
  ltb, ◌==◌, arith,
}
use takulife.Paging.{
  Entry, page, pages_from, page_range, aligned, block_bounds, page_window, pager_context,
}
use takulife.Paging.Window.{rest, page_window-large}

-- Where the arrows are shown, the jump forward leaves the block of the page to a later page, and
-- the jump back leaves it to an earlier page, the latter where the page is not alone in its block.
jumps_leave_block :
    (current total : ℕ)
    → 1 ≤ current
    → current ≤ total
    → ((pager_context current total).show_forward ≡ true
        → (block_bounds current total).end < (pager_context current total).jump_forward)
      × ((pager_context current total).show_back ≡ true
          → aligned current ≢ total
          → (pager_context current total).jump_back < (block_bounds current total).start)
unfolding pager_context block_bounds
jumps_leave_block current total one le =
    (λ f. ground (arith, one, le, f), λ b alone. ground (arith, one, le, b, alone))

-- The lone page.
lone_start : (k : ℕ) → (block_bounds (5 * suc k + 1) (5 * suc k + 1)).start ≡ 5 * k + 1
unfolding block_bounds
lone_start k = ground arith

lone_end : (k : ℕ) → (block_bounds (5 * suc k + 1) (5 * suc k + 1)).end ≡ 5 * k + 6
unfolding block_bounds
lone_end k = ground arith

before_start : (k : ℕ) → (block_bounds (5 * k + 1) (5 * suc k + 1)).start ≡ 5 * k + 1
unfolding block_bounds
before_start k = ground arith

before_end : (k : ℕ) → (block_bounds (5 * k + 1) (5 * suc k + 1)).end ≡ 5 * k + 5
unfolding block_bounds
before_end k = ground arith

-- The entries of both windows.
abbrev six : ℕ → List Entry
six k = pages_from (5 * k + 1) 6

lone_entries :
    (k : ℕ) → page_range (5 * k + 1) (5 * k + 6) ++ rest (5 * k + 6) (5 * suc k + 1) ≡ six k
lone_entries k =
    let count : (5 * k + 6 + 1) - (5 * k + 1) ≡ 6 = omega arith in
    let over : ltb (5 * k + 6) (5 * suc k + 1) ≡ false = ground arith in rw (count, over) refl

before_entries :
    (k : ℕ) → page_range (5 * k + 1) (5 * k + 5) ++ rest (5 * k + 5) (5 * suc k + 1) ≡ six k
before_entries k =
    let count : (5 * k + 5 + 1) - (5 * k + 1) ≡ 5 = omega arith in
    let more : ltb (5 * k + 5) (5 * suc k + 1) ≡ true = ground arith in
    let next : (5 * k + 5 + 1 == 5 * suc k + 1) ≡ true = ground arith in
    let last : 5 * suc k + 1 ≡ suc (suc (suc (suc (suc (5 * k + 1))))) = omega arith in
    rw (count, more, next) (ap (λ n. pages_from (5 * k + 1) 5 ++ page n ∷ []) last)

lone_window : (k : ℕ) → 1 ≤ k → page_window (5 * suc k + 1) (5 * suc k + 1) ≡ six k
lone_window k many =
    page_window-large (5 * suc k + 1) (5 * suc k + 1) (ground (arith, many))
    ∙ rw (lone_start k, lone_end k) (lone_entries k)

before_window : (k : ℕ) → 1 ≤ k → page_window (5 * k + 1) (5 * suc k + 1) ≡ six k
before_window k many =
    page_window-large (5 * k + 1) (5 * suc k + 1) (ground (arith, many))
    ∙ rw (before_start k, before_end k) (before_entries k)

-- From a last page 11, 16, 21, and so on, which is alone in its block, the jump back is shown and
-- leads to a page with the same window.
pub lone_jump_back :
    (k : ℕ)
    → 1 ≤ k
    → ((pager_context (5 * suc k + 1) (5 * suc k + 1)).show_back ≡ true)
      × (page_window (pager_context (5 * suc k + 1) (5 * suc k + 1)).jump_back (5 * suc k + 1)
          ≡ page_window (5 * suc k + 1) (5 * suc k + 1))
unfolding pager_context
lone_jump_back k many =
    let target : max (5 * suc k + 1 - 5) 1 ≡ 5 * k + 1 = omega arith in
    (
      rw (lone_start k) (ground (arith, many)),
      rw (target, lone_window k many) (before_window k many),
    )
