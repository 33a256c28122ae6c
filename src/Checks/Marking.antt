-- ===== src/Checks/Marking.antt =====
-- `Marking` and `Renaming` of tessercheck-py/tessercheck/domain/checks.py: the sources that change when the debt
-- of findings is marked, or when names are changed. How Python reads a source is an argument of both:
-- its tokens for a marking, and the rewriting of one source, which works on syntax trees, for a
-- renaming.
pub mod Grouping
pub mod Held
pub mod Collecting
pub mod Laws
use tesser_build.Prelude.{
  ℕ, Str, Bool, true, false, List, [], ◌∷◌, ◌++◌, map, ◌==◌, contains, list_eq, nat_eq, list_ord,
  nat_ord, Result, ok, raise, ◌>>=◌, Option, none, some, if◌then◌else◌,
}
use tesser_build.Prelude.Dict.{Dict, lookup, insert, keys, of_rows}
use tesser_build.Prelude.Sorting.{sorted}
use tesser_build.Checks.Violations.{RewrittenModule, rewritten_module}
use tesser_build.Checks.Marked.{Token, LineMark, marked}

-- The codes for the lines of a source, `dict[int, set[str]]`.
abbrev pub Rows : Type 0
Rows = Dict ℕ (List Str)

-- A mark as the findings give it: the path, the line and the code.
abbrev pub MarkRow : Type 0
MarkRow = Str × (ℕ × Str)

pub record MarkingSpec : Type 0 where
  pub sources : List (Str × Str)
  pub marks : List MarkRow

abbrev pub or_empty {ℓ} : {A : Type ℓ} → Option (List A) → List A
or_empty none = []
or_empty (some xs) = xs

-- `codes.add(code)`
unfoldable pub add : Str → List Str → List Str
unfolding contains
add code codes = if contains codes code then codes else codes ++ code ∷ []

-- `held.setdefault(path, {}).setdefault(line, set()).add(code)`
unfoldable pub hold : MarkRow → Dict Str Rows → Dict Str Rows
unfolding lookup insert add
hold (path, (line, code)) held =
    let rows = or_empty (lookup path held) in
    insert path (insert line (add code (or_empty (lookup line rows))) rows) held

unfoldable pub hold_all : List MarkRow → Dict Str Rows → Dict Str Rows
unfolding hold
hold_all [] held = held
hold_all (m ∷ ms) held = hold_all ms (hold m held)

-- `tuple((line, tuple(sorted(codes))) for line, codes in sorted(rows.items()))`. The keys of a dict
-- differ, so its items stand in the order of the keys.
unfoldable pub marks_of : Rows → List LineMark
unfolding sorted keys lookup
marks_of rows = map (λ line. (line, sorted (or_empty (lookup line rows)))) (sorted (keys rows))

-- The loop over the paths, in order. A path without a source is left out, and so is a source that
-- stays as it is.
unfoldable pub rewrite_all :
    (Str → Str → Result Str) → Dict Str Str → List Str → Result (List RewrittenModule)
unfolding lookup rewritten_module
rewrite_all rewrite texts [] = ok []
rewrite_all rewrite texts (path ∷ paths) = elim (lookup path texts) [
  | none ↦ rewrite_all rewrite texts paths
  | some text ↦ rewrite path text >>= λ new.
      if new == text
      then rewrite_all rewrite texts paths
      else (do m ← rewritten_module path new; rest ← rewrite_all rewrite texts paths; ok (m ∷ rest))
]

unfoldable pub marking : (Str → Option (List Token)) → MarkingSpec → Result (List RewrittenModule)
unfolding hold_all marks_of marked rewrite_all of_rows sorted keys
marking tokenize spec =
    let held = hold_all spec.marks [] in
    rewrite_all
      (λ path text. ok (marked (tokenize text) text (marks_of (or_empty (lookup path held)))))
      (of_rows spec.sources) (sorted (keys held))

-- The renames of one source: the line, the actual name and the derived one.
abbrev pub LineRename : Type 0
LineRename = ℕ × (Str × Str)

pub record RenamingSpec : Type 0 where
  pub sources : List (Str × Str)
  pub renames : List (Str × LineRename)

-- `held.setdefault(path, []).append((line, actual, derived))`
unfoldable pub collect : Str × LineRename → Dict Str (List LineRename) → Dict Str (List LineRename)
unfolding lookup insert
collect (path, r) held = insert path (or_empty (lookup path held) ++ r ∷ []) held

unfoldable pub collect_all :
    List (Str × LineRename) → Dict Str (List LineRename) → Dict Str (List LineRename)
unfolding collect
collect_all [] held = held
collect_all (r ∷ rs) held = collect_all rs (collect r held)

unfoldable pub renaming :
    (Str → List LineRename → Result Str) → RenamingSpec → Result (List RewrittenModule)
unfolding collect_all rewrite_all of_rows sorted keys
renaming rewrite spec =
    let held = collect_all spec.renames [] in
    rewrite_all (λ path text. rewrite text (or_empty (lookup path held))) (of_rows spec.sources)
      (sorted (keys held))
