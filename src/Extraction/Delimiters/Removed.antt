-- ===== src/Extraction/Delimiters/Removed.antt =====
-- A literal that is removed makes the text shorter: `str.replace` in drafts/llm_extraction.py.
use takulife.Common.{
  ℕ, zero, suc, ◌-◌, ◌≤◌, ◌<◌, true, false, List, [], ◌∷◌, ◌≡◌, refl, sym, subst, arith, inl, inr,
  length, Bool-cases, Text, All, is_empty,
}
use takulife.Extraction.Delimiters.{contains, remove_from, remove, contains_any, remove_each}

length-remove_from-le :
    (literal : Text) (skip : ℕ) (text : Text) → length (remove_from literal skip text) ≤ length text
unfolding remove_from
length-remove_from-le literal zero [] = omega arith
length-remove_from-le literal (suc skip) [] = omega arith
length-remove_from-le literal (suc skip) (c ∷ text) =
    omega (arith, length-remove_from-le literal skip text)
length-remove_from-le literal zero (c ∷ text) = ground (
  arith,
  length-remove_from-le literal 0 text,
  length-remove_from-le literal (length literal - 1) text,
)

-- A literal that stands in the text is removed somewhere.
length-remove_from-lt :
    (literal : Text) (text : Text)
    → is_empty literal ≡ false
    → contains literal text ≡ true
    → length (remove_from literal 0 text) < length text
unfolding remove_from contains
length-remove_from-lt [] [] n h = cc
length-remove_from-lt (a ∷ literal) [] n h = cc
length-remove_from-lt literal (c ∷ text) n h = ground (
  arith,
  length-remove_from-lt literal text n,
  length-remove_from-le literal (length literal - 1) text,
)

-- A literal that does not stand in the text changes nothing.
remove_absent :
    (literal : Text) (text : Text)
    → contains literal text ≡ false
    → remove_from literal 0 text ≡ text
unfolding remove_from contains
remove_absent literal [] h = refl
remove_absent literal (c ∷ text) h = ground (arith, remove_absent literal text)

pub length-remove_each-le :
    (literals : List Text) (text : Text) → length (remove_each literals text) ≤ length text
unfolding remove_each
length-remove_each-le [] text = omega arith
length-remove_each-le (l ∷ ls) text =
    omega (arith, length-remove_each-le ls (remove l text), length-remove_from-le l 0 text)

-- A round of the loop takes a character at least.
pub length-remove_each-lt :
    (literals : List Text) (text : Text)
    → All (λ l. is_empty l ≡ false) literals
    → contains_any literals text ≡ true
    → length (remove_each literals text) < length text
unfolding remove_each contains_any
length-remove_each-lt [] text n h = cc
length-remove_each-lt (l ∷ ls) text n h = elim (Bool-cases (contains l text)) [
  | inl e ↦
      omega (arith, length-remove_each-le ls (remove l text), length-remove_from-lt l text n.0 e)
  | inr e ↦
      subst (λ t. length (remove_each ls t) < length text) (sym (remove_absent l text e))
        (length-remove_each-lt ls text n.1 (rw e at h))
]
