-- ===== src/Paging.antt =====
-- The windows of page numbers: core/pagination.py.
use takulife.Common.{
  ℕ, zero, suc, ◌+◌, ◌-◌, ◌*◌, ◌/◌, min, max, Bool, ◌&&◌, List, [], ◌∷◌, ◌++◌, ltb, leb, ◌==◌, not,
  if◌then◌else◌,
}
pub mod Window
pub mod Jumps
mod Tests

-- `WINDOW` and `JUMP`
abbrev pub window : ℕ
window = 5

abbrev pub jump : ℕ
jump = 5

-- An entry of the window: a page, or the `ELLIPSIS`.
pub data Entry : Type 0 where
  page : ℕ → Entry
  ellipsis : Entry

-- `range(start, start + count)`, as entries
abbrev pub pages_from : ℕ → ℕ → List Entry
pages_from start zero = []
pages_from start (suc count) = page start ∷ pages_from (suc start) count

-- `range(first, last + 1)`
abbrev pub page_range : ℕ → ℕ → List Entry
page_range first last = pages_from first ((last + 1) - first)

-- `_is_last_block_a_lone_page`
abbrev pub is_last_block_a_lone_page : ℕ → ℕ → Bool
is_last_block_a_lone_page block_start total = block_start == total && ltb 1 block_start

pub record Block : Type 0 where
  pub start : ℕ
  pub end : ℕ

-- `((current - 1) // WINDOW) * WINDOW + 1`
abbrev pub aligned : ℕ → ℕ
aligned current = ((current - 1) / window) * window + 1

-- `_block_bounds`; pages are counted from 1.
unfoldable pub block_bounds : ℕ → ℕ → Block
block_bounds current total = record {
  start =
      if is_last_block_a_lone_page (aligned current) total
      then aligned current - window
      else aligned current;
  end = min ((aligned current + window) - 1) total;
}

unfoldable pub page_window : ℕ → ℕ → List Entry
unfolding block_bounds
page_window current total =
    if leb total window
    then page_range 1 total
    else let b = block_bounds current total in
      page_range b.start b.end
      ++ (if ltb b.end total
          then (if not (b.end + 1 == total) then ellipsis ∷ [] else []) ++ page total ∷ []
          else [])

-- What `pager_context` gives to the template.
pub record Pager : Type 0 where
  pub pages : List Entry
  pub current : ℕ
  pub total : ℕ
  pub previous : ℕ
  pub next : ℕ
  pub jump_back : ℕ
  pub jump_forward : ℕ
  pub show_back : Bool
  pub show_forward : Bool

unfoldable pub pager_context : ℕ → ℕ → Pager
unfolding block_bounds page_window
pager_context current total =
    let b = block_bounds current total in
    record {
      pages = page_window current total;
      current = current;
      total = total;
      previous = max (current - 1) 1;
      next = min (current + 1) total;
      jump_back = max (current - jump) 1;
      jump_forward = min (current + jump) total;
      show_back = ltb 1 b.start;
      show_forward = ltb b.end total;
    }
