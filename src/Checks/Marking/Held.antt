-- ===== src/Checks/Marking/Held.antt =====
-- The marks that are held for a source, said of the list of all marks.
use tesser_build.Prelude.{
  ℕ, Str, ◌++◌, eq_refl, subst, sym, false, ◌&&◌, ◌||◌, ◌≡◌, refl, ◌∙◌, ap, List, [], ◌∷◌, map,
  ◌==◌, contains, eq→≡, list_eq, nat_eq, pair_eq, list_ord, nat_ord, arith, Bool-cases, inl, inr,
  if◌then◌else◌,
}
use tesser_build.Prelude.Dict.{
  Dict, lookup, insert, keys, lookup-insert, contains-keys-insert, keys-insert-Nodup,
}
use tesser_build.Prelude.Lists.{keep}
use tesser_build.Prelude.Sets.{Nodup, contains-append, contains-cons}
use tesser_build.Prelude.Sorting.{
  sorted, sorted_set, IsIncreasing-unique, sorted-IsIncreasing, sorted_set-IsIncreasing,
  contains-sorted, contains-sorted_set,
}
use tesser_build.Checks.Marked.{LineMark}
use tesser_build.Checks.Marking.{Rows, MarkRow, or_empty, add, hold, hold_all, marks_of}
use tesser_build.Checks.Marking.Grouping.{codes_at, held_codes, pair_test, contains-nil}

-- The lines of a source that are marked, and the codes for one of them, each in order and once.
abbrev pub lines_on : Str → List MarkRow → List ℕ
lines_on path ms =
    sorted_set (map (λ (m : MarkRow). m.1.0) (keep (λ (m : MarkRow). path == m.0) ms))

abbrev pub codes_on : Str → ℕ → List MarkRow → List Str
codes_on path line ms =
    sorted_set
      (map (λ (m : MarkRow). m.1.1) (keep (λ (m : MarkRow). path == m.0 && line == m.1.0) ms))

abbrev pub line_marks_on : Str → List MarkRow → List LineMark
line_marks_on path ms = map (λ line. (line, codes_on path line ms)) (lines_on path ms)

-- What is held for a path.
abbrev rows_at : Dict Str Rows → Str → Rows
rows_at held path = or_empty (lookup path held)

rows_at-hold :
    (m : MarkRow) (held : Dict Str Rows) (path : Str)
    → rows_at (hold m held) path ≡ (
        if path == m.0
        then insert m.1.0 (add m.1.1 (codes_at held m.0 m.1.0)) (rows_at held m.0)
        else rows_at held path)
unfolding hold
rows_at-hold m held path = ground (
  arith,
  lookup-insert path m.0
      (insert m.1.0 (add m.1.1 (or_empty (lookup m.1.0 (or_empty (lookup m.0 held)))))
        (or_empty (lookup m.0 held)))
      held,
)

append_one-Nodup :
    (codes : List Str) (c : Str) → contains codes c ≡ false → Nodup codes → Nodup (codes ++ c ∷ [])
unfolding contains
append_one-Nodup [] c h u = (refl, tt)
append_one-Nodup (x ∷ codes) c h u = ground (
  arith,
  append_one-Nodup codes c,
  contains-append codes (c ∷ []) x,
  contains-cons c [] x,
  contains-nil x,
  eq→≡ x c,
  eq_refl c,
)

add-Nodup : (c : Str) (codes : List Str) → Nodup codes → Nodup (add c codes)
unfolding add
add-Nodup c codes u = ground (arith, append_one-Nodup codes c)

-- No line is held twice for a path, and no code twice for a line.
abbrev IsOnce : Dict Str Rows → Type 0
IsOnce held =
    (path : Str) → Nodup (keys (rows_at held path)) × ((line : ℕ) → Nodup (codes_at held path line))

abbrev IsOnceIn : Rows → Type 0
IsOnceIn rows = Nodup (keys rows) × ((line : ℕ) → Nodup (or_empty (lookup line rows)))

IsOnceIn-insert :
    (line : ℕ) (codes : List Str) (rows : Rows)
    → Nodup codes
    → IsOnceIn rows
    → IsOnceIn (insert line codes rows)
IsOnceIn-insert line codes rows u once = (
  keys-insert-Nodup line codes rows once.0,
  λ l. ground (arith, lookup-insert l line codes rows, once.1 l),
)

IsOnce-hold : (m : MarkRow) (held : Dict Str Rows) → IsOnce held → IsOnce (hold m held)
IsOnce-hold m held once path = elim (Bool-cases (path == m.0)) [
  | inl same ↦
      let e : insert m.1.0 (add m.1.1 (codes_at held m.0 m.1.0)) (rows_at held m.0)
          ≡ rows_at (hold m held) path =
        ground (arith, rows_at-hold m held path) in
      subst IsOnceIn e (
        IsOnceIn-insert m.1.0 (add m.1.1 (codes_at held m.0 m.1.0)) (rows_at held m.0)
          (add-Nodup m.1.1 (codes_at held m.0 m.1.0) ((once m.0).1 m.1.0)) (once m.0))
  | inr other ↦
      let e : rows_at held path ≡ rows_at (hold m held) path =
        ground (arith, rows_at-hold m held path) in
      subst IsOnceIn e (once path)
]

IsOnce-hold_all :
    (ms : List MarkRow) (held : Dict Str Rows) → IsOnce held → IsOnce (hold_all ms held)
unfolding hold_all
IsOnce-hold_all [] held once = once
IsOnce-hold_all (m ∷ ms) held once = IsOnce-hold_all ms (hold m held) (IsOnce-hold m held once)

IsOnce-nil : IsOnce []
unfolding lookup keys
IsOnce-nil path = (tt, λ line. tt)

lines_at : (ms : List MarkRow) (path : Str) → List ℕ
lines_at ms path = map (λ (m : MarkRow). m.1.0) (keep (λ (m : MarkRow). path == m.0) ms)

keys-rows_at-hold_all :
    (ms : List MarkRow) (held : Dict Str Rows) (path : Str) (line : ℕ)
    → contains (keys (rows_at (hold_all ms held) path)) line
      ≡ (contains (lines_at ms path) line || contains (keys (rows_at held path)) line)
unfolding hold_all contains lines_at
keys-rows_at-hold_all [] held path line = refl
keys-rows_at-hold_all (m ∷ ms) held path line = ground (
  arith,
  keys-rows_at-hold_all ms (hold m held) path line,
  rows_at-hold m held path,
  contains-keys-insert m.1.0 (add m.1.1 (codes_at held m.0 m.1.0)) (rows_at held m.0) line,
  eq→≡ path m.0,
)

codes_among :
    (ms : List MarkRow) (path : Str) (line : ℕ) (code : Str)
    → contains ms (path, (line, code))
      ≡ contains
          (map (λ (m : MarkRow). m.1.1) (keep (λ (m : MarkRow). path == m.0 && line == m.1.0) ms))
          code
unfolding contains
codes_among [] path line code = refl
codes_among (m ∷ ms) path line code = ground (
  arith,
  codes_among ms path line code,
  pair_test (path, (line, code)) m,
  pair_test (line, code) m.1,
)

only_held :
    (ms : List MarkRow) (path : Str) (line : ℕ)
    → contains (keys (rows_at (hold_all ms []) path)) line ≡ contains (lines_at ms path) line
unfolding keys lookup contains
only_held ms path line = ground (arith, keys-rows_at-hold_all ms [] path line)

lines_held :
    (ms : List MarkRow) (path : Str)
    → sorted (keys (rows_at (hold_all ms []) path)) ≡ lines_on path ms
unfolding lines_at
lines_held ms path =
    IsIncreasing-unique _ _
      (sorted-IsIncreasing (keys (rows_at (hold_all ms []) path))
        (IsOnce-hold_all ms [] IsOnce-nil path).0)
      (sorted_set-IsIncreasing (lines_at ms path))
      (λ line.
        contains-sorted (keys (rows_at (hold_all ms []) path)) line
        ∙ only_held ms path line
        ∙ sym (contains-sorted_set (lines_at ms path) line))

codes_held :
    (ms : List MarkRow) (path : Str) (line : ℕ)
    → sorted (codes_at (hold_all ms []) path line) ≡ codes_on path line ms
codes_held ms path line =
    IsIncreasing-unique _ _
      (sorted-IsIncreasing (codes_at (hold_all ms []) path line)
        ((IsOnce-hold_all ms [] IsOnce-nil path).1 line))
      (sorted_set-IsIncreasing
        (map (λ (m : MarkRow). m.1.1) (keep (λ (m : MarkRow). path == m.0 && line == m.1.0) ms)))
      (λ code.
        contains-sorted (codes_at (hold_all ms []) path line) code
        ∙ held_codes ms path line code
        ∙ codes_among ms path line code
        ∙ sym (
            contains-sorted_set
              (map (λ (m : MarkRow). m.1.1)
                (keep (λ (m : MarkRow). path == m.0 && line == m.1.0) ms))
              code))

map-same {ℓ κ} :
    {A : Type ℓ} {B : Type κ} (f g : A → B) (xs : List A)
    → ((x : A) → f x ≡ g x)
    → map f xs ≡ map g xs
map-same f g [] h = refl
map-same f g (x ∷ xs) h = cc (h x, map-same f g xs h)

-- The marks that are held for a path are those on it.
pub marks_of-hold_all :
    (ms : List MarkRow) (path : Str)
    → marks_of (or_empty (lookup path (hold_all ms []))) ≡ line_marks_on path ms
unfolding marks_of
marks_of-hold_all ms path =
    map-same _ (λ line. (line, codes_on path line ms))
      (sorted (keys (rows_at (hold_all ms []) path)))
      (λ line. ap (λ codes. (line, codes)) (codes_held ms path line))
    ∙ ap (map (λ line. (line, codes_on path line ms))) (lines_held ms path)
