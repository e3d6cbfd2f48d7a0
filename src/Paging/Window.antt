-- ===== src/Paging/Window.antt =====
-- Which pages the window of a page number holds.
use takulife.Common.{
  ℕ, zero, suc, ◌+◌, ◌-◌, ◌≤◌, ◌<◌, ◌≡◌, refl, sym, subst, false, not, List, [], ◌∷◌, ◌++◌, ltb,
  leb, ◌==◌, arith, In, here, there, length, length-append, post-if, All, All-append, if◌then◌else◌,
  inl, inr, Bool-cases, ==_iff, ltb→lt, leb→le,
}
use takulife.Paging.{
  window, Entry, page, ellipsis, pages_from, page_range, Block, aligned, block_bounds, page_window,
}

-- The block holds the current page, and lies in the range of pages.
pub record Holds (current total : ℕ) (b : Block) : Type 0 where
  first_page : 1 ≤ b.start
  from_start : b.start ≤ current
  to_end : current ≤ b.end
  last_page : b.end ≤ total
  few : b.end ≤ b.start + window

aligned-le : (current : ℕ) → 1 ≤ current → aligned current ≤ current
aligned-le current h = omega (arith, h)

le-aligned : (current : ℕ) → 1 ≤ current → current < aligned current + window
le-aligned current h = omega (arith, h)

block_bounds-Holds :
    (current total : ℕ)
    → 1 ≤ current
    → current ≤ total
    → Holds current total (block_bounds current total)
unfolding block_bounds
block_bounds-Holds current total one le = record {
  first_page = ground (arith, one, le);
  from_start = ground (arith, one, le);
  to_end = ground (arith, one, le);
  last_page = ground (arith, one, le);
  few = ground (arith, one, le);
}

-- An entry of a window: a page from 1 to `total`, or the ellipsis.
abbrev pub InRange : ℕ → Entry → Type 0
InRange total (page n) = (1 ≤ n) × (n ≤ total)
InRange total ellipsis = Unit

pages_from-InRange :
    (total start count : ℕ)
    → 1 ≤ start
    → start + count ≤ total + 1
    → All (InRange total) (pages_from start count)
pages_from-InRange total start zero one le = tt
pages_from-InRange total start (suc count) one le = (
  (one, omega (arith, le)),
  pages_from-InRange total (suc start) count (omega arith) (omega (arith, le)),
)

In-pages_from :
    (n start count : ℕ) → start ≤ n → n < start + count → In (page n) (pages_from start count)
In-pages_from n start zero ge lt = absurd (omega (arith, ge, lt))
In-pages_from n start (suc count) ge lt = elim (Bool-cases (start == n)) [
  | inl e ↦
      subst (λ k. In (page k) (page start ∷ pages_from (suc start) count)) ((==_iff start n).0 e)
        here
  | inr e ↦ there (In-pages_from n (suc start) count (ground (arith, e, ge)) (omega (arith, lt)))
]

length-pages_from : (start count : ℕ) → length (pages_from start count) ≡ count
length-pages_from start zero = refl
length-pages_from start (suc count) = omega (arith, length-pages_from (suc start) count)

In-append_left : {A : Type 0} (x : A) (xs ys : List A) → In x xs → In x (xs ++ ys)
In-append_left x [] ys m = elim m [ ]
In-append_left x (y ∷ xs) ys here = here
In-append_left x (y ∷ xs) ys (there m) = there (In-append_left x xs ys m)

In-append_right : {A : Type 0} (x : A) (xs ys : List A) → In x ys → In x (xs ++ ys)
In-append_right x [] ys m = m
In-append_right x (y ∷ xs) ys m = there (In-append_right x xs ys m)

abbrev pub gap : ℕ → ℕ → List Entry
gap end total = if not (end + 1 == total) then ellipsis ∷ [] else []

-- What follows the block: the last page, after the ellipsis where pages between are left out.
abbrev pub rest : ℕ → ℕ → List Entry
rest end total = if ltb end total then gap end total ++ page total ∷ [] else []

module _ (P : List Entry → Type 0) (total : ℕ) where
  -- What holds of the three forms that the rest has.
  post-rest :
      (end : ℕ)
      → (end < total → P (page total ∷ []))
      → (end < total → P (ellipsis ∷ page total ∷ []))
      → (total ≤ end → P [])
      → P (rest end total)
  post-rest end next far over =
      post-if P (ltb end total) (gap end total ++ page total ∷ []) []
        (λ l.
          post-if (λ g. P (g ++ page total ∷ [])) (not (end + 1 == total)) (ellipsis ∷ []) []
            (λ e. far (ltb→lt end total l)) (λ e. next (ltb→lt end total l)))
        (λ l. over (ground (arith, l)))

pub page_window-large :
    (current total : ℕ)
    → leb total window ≡ false
    → page_window current total
      ≡ page_range (block_bounds current total).start (block_bounds current total).end
        ++ rest (block_bounds current total).end total
unfolding page_window
page_window-large current total h = rw h refl

-- A window: it holds the current page and the last page, and at most seven entries, which are
-- pages from 1 to `total` and the ellipsis.
pub record IsWindow (current total : ℕ) (es : List Entry) : Type 0 where
  has_current : In (page current) es
  has_last : In (page total) es
  in_range : All (InRange total) es
  at_most_seven : length es ≤ 7

small-IsWindow :
    (current total : ℕ)
    → 1 ≤ current
    → current ≤ total
    → total ≤ window
    → IsWindow current total (page_range 1 total)
small-IsWindow current total one le few = record {
  has_current = In-pages_from current 1 _ one (omega (arith, le));
  has_last = In-pages_from total 1 _ (omega (arith, one, le)) (omega arith);
  in_range = pages_from-InRange total 1 _ (omega arith) (omega arith);
  at_most_seven = omega (arith, length-pages_from 1 ((total + 1) - 1), few);
}

block-IsWindow :
    (current total : ℕ) (b : Block)
    → 1 ≤ current
    → current ≤ total
    → Holds current total b
    → (b.end < total → b.end < b.start + window)
    → IsWindow current total (page_range b.start b.end ++ rest b.end total)
block-IsWindow current total b one le h short = record {
  has_current =
      In-append_left (page current) (page_range b.start b.end) (rest b.end total)
        (In-pages_from current b.start _ h.from_start (omega (arith, h.from_start, h.to_end)));
  has_last =
      post-rest (λ es. In (page total) (page_range b.start b.end ++ es)) total b.end
        (λ l. In-append_right (page total) (page_range b.start b.end) (page total ∷ []) here)
        (λ l.
          In-append_right (page total) (page_range b.start b.end) (ellipsis ∷ page total ∷ [])
            (there here))
        (λ l. In-append_left (page total) (page_range b.start b.end) [] (
          In-pages_from total b.start _ (omega (arith, h.from_start, le))
            (omega (arith, l, h.from_start, h.to_end))));
  in_range =
      All-append (InRange total) (page_range b.start b.end) (rest b.end total)
        (pages_from-InRange total b.start _ h.first_page
          (omega (arith, h.last_page, h.from_start, h.to_end)))
        (post-rest (All (InRange total)) total b.end
          (λ l. ((omega (arith, one, le), omega arith), tt))
          (λ l. (tt, ((omega (arith, one, le), omega arith), tt))) (λ l. tt));
  at_most_seven =
      post-rest (λ es. length (page_range b.start b.end ++ es) ≤ 7) total b.end
        (λ l. omega (
          arith,
          short l,
          length-append (page_range b.start b.end) (page total ∷ []),
          length-pages_from b.start ((b.end + 1) - b.start),
        ))
        (λ l. omega (
          arith,
          short l,
          length-append (page_range b.start b.end) (ellipsis ∷ page total ∷ []),
          length-pages_from b.start ((b.end + 1) - b.start),
        ))
        (λ l. omega (
          arith,
          h.few,
          length-append (page_range b.start b.end) [],
          length-pages_from b.start ((b.end + 1) - b.start),
        ));
}

short_block :
    (current total : ℕ)
    → 1 ≤ current
    → current ≤ total
    → (block_bounds current total).end < total
    → (block_bounds current total).end < (block_bounds current total).start + window
unfolding block_bounds
short_block current total one le l = ground (arith, one, le, l)

-- The window of a page from 1 to `total` holds this page and the last page, nothing but pages
-- from 1 to `total` and the ellipsis, and at most seven entries.
pub page_window-IsWindow :
    (current total : ℕ)
    → 1 ≤ current
    → current ≤ total
    → IsWindow current total (page_window current total)
unfolding page_window
page_window-IsWindow current total one le = elim (Bool-cases (leb total window)) [
  | inl few ↦ rw (page_window, few) (small-IsWindow current total one le (leb→le total window few))
  | inr many ↦ subst (IsWindow current total) (sym (page_window-large current total many)) (
      block-IsWindow current total (block_bounds current total) one le
        (block_bounds-Holds current total one le) (short_block current total one le))
]
