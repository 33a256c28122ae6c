-- ===== src/Checks/Marked/Rows.antt =====
-- Which rows of a source change.
use tesser_build.Prelude.{
  ℕ, zero, suc, ◌+◌, ◌-◌, Str, true, ◌≡◌, refl, ◌∙◌, ap, ◌⊎◌, inl, inr, List, [], ◌∷◌, contains,
  eq_refl, list_eq, nat_eq, pair_eq, Option, none, some, arith, Option-cases,
}
use tesser_build.Prelude.Lists.{length, get_elem?}
use tesser_build.Checks.Marked.{
  Scan, Token, LineMark, rows_of, push_row, concat, mark_line, set_row, write, write_marks, marked,
}

concat-push_row : (c : ℕ) (rows : List Str) → concat (push_row c rows) ≡ c ∷ concat rows
concat-push_row c [] = refl
concat-push_row c (row ∷ rows) = refl

-- The rows of a text, joined, are the text.
pub concat-rows_of : (text : Str) → concat (rows_of text) ≡ text
unfolding rows_of
concat-rows_of [] = refl
concat-rows_of (c ∷ s) = ground (arith, concat-rows_of s, concat-push_row c (rows_of s))

set_row-cases :
    (j : ℕ) (row : Str) (lines : List Str) (i : ℕ) {r : Str}
    → get_elem? (set_row j row lines) i ≡ some r
    → ((i ≡ j) × (r ≡ row)) ⊎ (get_elem? lines i ≡ some r)
unfolding set_row
set_row-cases j row [] i h = cc
set_row-cases zero row (x ∷ lines) zero h = inl (refl, ground arith)
set_row-cases zero row (x ∷ lines) (suc i) h = inr h
set_row-cases (suc j) row (x ∷ lines) zero h = inr h
set_row-cases (suc j) row (x ∷ lines) (suc i) h = elim (set_row-cases j row lines i h) [
  | inl (at, new) ↦ inl (ap suc at, new)
  | inr old ↦ inr old
]

module _ (s : Scan) (read : List Str) (marks : List LineMark) where
  -- The row is as it was read, or it is what a mark for its line gives.
  abbrev IsAccounted : ℕ → Str → Type 0
  IsAccounted i row =
      (get_elem? read i ≡ some row)
      ⊎ ((codes : List Str) × (contains marks (i + 1, codes) ≡ true)
          × (mark_line s read (i + 1, codes) ≡ some row))

  mark_line-zero : (codes : List Str) → mark_line s read (zero, codes) ≡ none
  unfolding mark_line
  mark_line-zero codes = ground arith

  write-IsAccounted :
      (m : LineMark) (lines : List Str)
      → contains marks m ≡ true
      → ((i : ℕ) (r : Str) → get_elem? lines i ≡ some r → IsAccounted i r)
      → (i : ℕ) (r : Str) → get_elem? (write m.0 (mark_line s read m) lines) i ≡ some r
      → IsAccounted i r
  write-IsAccounted (zero, codes) lines m before i r h = before i r (rw (mark_line-zero codes) at h)
  write-IsAccounted (suc j, codes) lines m before i r h =
      elim (Option-cases (mark_line s read (suc j, codes))) [
        | inl left ↦ before i r (rw left at h)
        | inr (row, given) ↦ elim (set_row-cases (suc j - 1) row lines i (rw given at h)) [
          | inl (at, new) ↦
              let line : i + 1 ≡ suc j = omega (arith, at) in
              inr (codes, rw line m, rw (line, new) given)
          | inr old ↦ before i r old
        ]
      ]

  write_marks-IsAccounted :
      (ms : List LineMark) (lines : List Str)
      → ((m : LineMark) → contains ms m ≡ true → contains marks m ≡ true)
      → ((i : ℕ) (r : Str) → get_elem? lines i ≡ some r → IsAccounted i r)
      → (i : ℕ) (r : Str) → get_elem? (write_marks s read ms lines) i ≡ some r
      → IsAccounted i r
  unfolding write_marks contains
  write_marks-IsAccounted [] lines within before i r h = before i r h
  write_marks-IsAccounted (m ∷ ms) lines within before i r h =
      write_marks-IsAccounted ms (write m.0 (mark_line s read m) lines)
        (λ n k. within n (ground arith))
        (write-IsAccounted m lines (within m (ground (arith, eq_refl m))) before) i r h

length-set_row :
    (j : ℕ) (row : Str) (lines : List Str) → length (set_row j row lines) ≡ length lines
unfolding set_row
length-set_row j row [] = refl
length-set_row zero row (x ∷ lines) = refl
length-set_row (suc j) row (x ∷ lines) = ap suc (length-set_row j row lines)

length-write_marks :
    (s : Scan) (read : List Str) (ms : List LineMark) (lines : List Str)
    → length (write_marks s read ms lines) ≡ length lines
unfolding write_marks
length-write_marks s read [] lines = refl
length-write_marks s read (m ∷ ms) lines = elim (Option-cases (mark_line s read m)) [
  | inl left ↦ rw left (length-write_marks s read ms lines)
  | inr (row, given) ↦ rw given (
      length-write_marks s read ms (set_row (m.0 - 1) row lines)
      ∙ length-set_row (m.0 - 1) row lines)
]

-- Marking keeps the number of rows. Each row is as it was read, or it is what a mark for its own line
-- makes of the row as it was read.
pub write_marks-rows :
    (s : Scan) (read : List Str) (marks : List LineMark)
    → (length (write_marks s read marks read) ≡ length read)
      × ((i : ℕ) (row : Str)
          → get_elem? (write_marks s read marks read) i ≡ some row
          → (get_elem? read i ≡ some row)
            ⊎ ((codes : List Str) × (contains marks (i + 1, codes) ≡ true)
                × (mark_line s read (i + 1, codes) ≡ some row)))
write_marks-rows s read marks = (
  length-write_marks s read marks read,
  write_marks-IsAccounted s read marks marks read (λ m h. h) (λ i r h. inl h),
)

-- A text without marks, and a text that has no tokens, stay as they are.
pub marked-unmarked :
    (tokens : Option (List Token)) (text : Str) (marks : List LineMark)
    → (marked tokens text [] ≡ text) × (marked none text marks ≡ text)
unfolding marked write_marks
marked-unmarked none text marks = (refl, refl)
marked-unmarked (some tokens) text marks = (concat-rows_of text, refl)
