-- ===== src/Checks/Marked.antt =====
-- `Marked` of tessercheck-py/tessercheck/domain/checks.py: a source with debt comments on the lines of some
-- findings. The tokens that Python's `tokenize` gives for the text are an argument; `none` stands for its
-- error.
pub mod Comments
pub mod Rows
use tesser_build.Prelude.{
  ℕ, zero, suc, ◌+◌, ◌-◌, Str, str, strip, rstrip, starts_with, ends_with, join, is_space, eqb, ltb,
  Bool, true, false, not, ◌||◌, List, [], ◌∷◌, ◌++◌, map, contains, list_eq, nat_eq, list_ord,
  nat_ord, Option, none, some, if◌then◌else◌,
}
use tesser_build.Prelude.Dict.{Dict, lookup, insert}
use tesser_build.Prelude.Lists.{length, get_elem?, take, drop, any, keep, is_empty}
use tesser_build.Prelude.Sets.{to_set}
use tesser_build.Prelude.Sorting.{sorted}
use tesser_build.Checks.Values.{code_shape}

-- The kinds of tokens that are told apart: the start and the end of an f-string or a t-string, a
-- comment, and any other.
pub data TokenKind : Type 0 where
  quote_open quote_close comment_token other_token : TokenKind

pub record Token : Type 0 where
  pub kind : TokenKind
  pub start_row : ℕ
  pub start_col : ℕ
  pub end_row : ℕ
  pub text : Str

-- The variables of the loop over the tokens.
pub record Scan : Type 0 where
  pub interior : List ℕ
  pub commented : Dict ℕ (ℕ × Str)
  pub opened : List ℕ

-- `n` rows from `row` on
abbrev rows_from : ℕ → ℕ → List ℕ
rows_from row zero = []
rows_from row (suc n) = row ∷ rows_from (row + 1) n

-- `interior.update(range(first, last))`
abbrev cover : ℕ → ℕ → Scan → Scan
cover first last s = record s { interior = rows_from first (last - first) ++ s.interior }

abbrev close_quote : List ℕ → Token → Scan → Scan
close_quote [] t s = s
close_quote (row ∷ rows) t s = cover row t.end_row (record s { opened = rows })

abbrev cover_lines : Token → Scan → Scan
cover_lines t s = if eqb t.start_row t.end_row then s else cover t.start_row t.end_row s

unfoldable pub scan_token : Token → Scan → Scan
unfolding insert
scan_token t s = elim t.kind [
  | quote_open ↦ record s { opened = t.start_row ∷ s.opened }
  | quote_close ↦ close_quote s.opened t s
  | comment_token ↦ record (cover_lines t s) {
    commented = insert t.start_row (t.start_col, t.text) (cover_lines t s).commented;
  }
  | other_token ↦ cover_lines t s
]

unfoldable pub scan : List Token → Scan → Scan
unfolding scan_token
scan [] s = s
scan (t ∷ ts) s = scan ts (scan_token t s)

abbrev push_row : ℕ → List Str → List Str
push_row c [] = (c ∷ []) ∷ []
push_row c (row ∷ rows) = (c ∷ row) ∷ rows

-- The lines that `readline` gives, each with its line end.
unfoldable pub rows_of : Str → List Str
rows_of [] = []
rows_of (c ∷ s) = let rest = rows_of s in if eqb c b'\n' then (c ∷ []) ∷ rest else push_row c rest

-- `"".join(rows)`
abbrev pub concat : List Str → Str
concat [] = []
concat (row ∷ rows) = row ++ concat rows

unfoldable pub debt_marker : Str
debt_marker = str "tesser:debt"

unfoldable pub debt_file_marker : Str
debt_file_marker = str "tesser:debt-file"

-- `s.lstrip("#")`
unfoldable pub drop_hashes : Str → Str
drop_hashes [] = []
drop_hashes (c ∷ s) = let rest = drop_hashes s in if eqb c b'#' then rest else c ∷ s

abbrev push_char : ℕ → List Str → List Str
push_char c [] = (c ∷ []) ∷ []
push_char c (w ∷ ws) = (c ∷ w) ∷ ws

split_spaces : Str → List Str
split_spaces [] = [] ∷ []
split_spaces (c ∷ s) =
    let rest = split_spaces s in if is_space c then [] ∷ rest else push_char c rest

-- `s.split()`
unfoldable pub words : Str → List Str
unfolding split_spaces
words s = keep (λ w. not (is_empty w)) (split_spaces s)

abbrev comma_to_blank : ℕ → ℕ
comma_to_blank c = if eqb c b',' then b' ' else c

abbrev starts_blank : Str → Bool
starts_blank [] = true
starts_blank (c ∷ s) = eqb c b' ' || eqb c 9

-- The codes that the text of a comment names, if it is a debt comment of the line.
unfoldable pub codes_in : Str → Option (List Str)
unfolding starts_with words debt_marker debt_file_marker
codes_in rest =
    let tail = drop (length debt_marker) rest in
    let parts = words (map comma_to_blank tail) in
    if starts_with rest debt_file_marker || not (starts_with rest debt_marker)
    then none
    else if not (starts_blank tail)
    then none
    else if any (λ part. not (code_shape part)) parts
    then none
    else some parts

unfoldable pub carried : Str → Option (List Str)
unfolding drop_hashes strip codes_in
carried comment = codes_in (strip (drop_hashes comment))

-- The comment that is written for codes.
unfoldable pub comment_of : List Str → Str
unfolding debt_marker join
comment_of codes = str "# " ++ (debt_marker ++ (b' ' ∷ join (b' ' ∷ []) codes))

-- `sorted(set(carried) | set(codes))`
unfoldable pub merged : List Str → List Str → List Str
unfolding sorted to_set
merged before codes = sorted (to_set (before ++ codes))

unfoldable pub ending_of : Str → Str
unfolding ends_with
ending_of held =
    if ends_with held (str "\r\n")
    then str "\r\n"
    else if ends_with held (str "\n")
    then str "\n"
    else []

abbrev written_row : Str → List Str → List Str → Str → Str
written_row row before codes ending =
    row ++ (b' ' ∷ b' ' ∷ comment_of (merged before codes) ++ ending)

-- The new text of a row, or `none` where the mark is left out.
unfoldable pub mark_row : Option (ℕ × Str) → List Str → Str → Option Str
unfolding strip rstrip ends_with carried comment_of merged ending_of
mark_row comment codes held =
    let ending = ending_of held in
    let row = take (length held - length ending) held in
    if is_empty (strip row) || ends_with (rstrip row) (str "\\") then none else elim comment [
      | none ↦ some (written_row row [] codes ending)
      | some c ↦ elim (carried c.1) [
        | none ↦ none
        | some before ↦
            if is_empty (strip (take c.0 held))
            then none
            else some (written_row (rstrip (take c.0 held)) before codes ending)
      ]
    ]

-- A mark: a line, and the codes for it.
abbrev pub LineMark : Type 0
LineMark = ℕ × List Str

unfoldable pub mark_line : Scan → List Str → LineMark → Option Str
unfolding mark_row contains lookup
mark_line s lines (line, codes) =
    if is_empty codes || ltb line 1 || ltb (length lines) line || contains s.interior line
    then none
    else elim (get_elem? lines (line - 1)) [
      | none ↦ none
      | some held ↦ mark_row (lookup line s.commented) codes held
    ]

-- `lines[i] = row`
unfoldable pub set_row : ℕ → Str → List Str → List Str
set_row i row [] = []
set_row zero row (x ∷ xs) = row ∷ xs
set_row (suc i) row (x ∷ xs) = x ∷ set_row i row xs

abbrev write : ℕ → Option Str → List Str → List Str
write line none lines = lines
write line (some row) lines = set_row (line - 1) row lines

-- The rows after the marks, each of which is judged on the rows as they were read.
unfoldable pub write_marks : Scan → List Str → List LineMark → List Str → List Str
unfolding mark_line set_row
write_marks s read [] lines = lines
write_marks s read (m ∷ ms) lines = write_marks s read ms (write m.0 (mark_line s read m) lines)

unfoldable pub marked : Option (List Token) → Str → List LineMark → Str
unfolding scan rows_of write_marks
marked none text marks = text
marked (some tokens) text marks =
    let s = scan tokens (record { interior = []; commented = []; opened = [] }) in
    concat (write_marks s (rows_of text) marks (rows_of text))
