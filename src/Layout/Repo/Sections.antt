-- ===== src/Layout/Repo/Sections.antt =====
-- The sections of `Repo.__init__` of layout/repo/domain/rules.py that do not depend on one another.
use tesser_build.Prelude.{
  ℕ, ◌+◌, ◌*◌, ◌-◌, Str, str, split, strip, splitlines, after, starts_with, eqb, Bool, false, not,
  List, [], ◌∷◌, ◌++◌, map, ◌==◌, list_eq, nat_eq, pair_eq, contains, less, list_ord, nat_ord,
  pair_ord, Result, ok, raise, ◌>>=◌, Option, none, some, if◌then◌else◌,
}
use tesser_build.Prelude.Dict.{Dict, lookup, keys}
use tesser_build.Prelude.Lists.{keep, is_empty}
use tesser_build.Prelude.Sets.{to_set, difference}
use tesser_build.Prelude.Sorting.{sorted}
use tesser_build.Layout.Patterns.{pinned_versions}
use tesser_build.Layout.Problems.{
  Rule, Problem, verify, workflow, kind_app, kind_ungated, requires_python, target_version,
  requires_python_literal, target_version_literal, unknown_kind, unregistered_top_level,
  unregistered_example, row_without_directory, symlinked_directory, verify_unavailable,
  workflow_unavailable, declaration_unchecked, declaration_missing, declaration_unavailable,
  declaration_not_app, requirements_outside_app, requires_python_undeclared,
  target_version_undeclared, floor_file_unavailable, requires_python_below_floor,
  target_version_below_floor, workflow_pin_below_floor,
}

-- The states in which a file can be found.
unfoldable pub read : Str
read = str "read"

unfoldable pub missing : Str
missing = str "missing"

unfoldable pub malformed : Str
malformed = str "malformed"

unfoldable pub misshapen : Str
misshapen = str "misshapen"

unfoldable pub undeclared : Str
undeclared = str "undeclared"

unfoldable pub symlink : Str
symlink = str "symlink"

-- `Problem(ProblemSpec(rule, subject, note))`
abbrev pub problem : Rule → Str → Str → Problem
problem rule subject note = record { rule = rule; subject = subject; note = note }

abbrev report : Rule → List Str → List Problem
report rule = map (λ subject. problem rule subject [])

unfoldable pub kind_problems : Dict Str Str → List Problem
unfolding sorted contains
kind_problems rows =
    map (λ (row : Str × Str). problem unknown_kind row.0 row.1)
      (keep (λ (row : Str × Str). not (contains (kind_app ∷ kind_ungated ∷ []) row.1))
        (sorted rows))

-- Names on disk without a row, then rows without a name on disk, each in order.
unfoldable pub registration_problems :
    (Str → Problem) → (Str → Problem) → List Str → List Str → List Problem
unfolding sorted to_set difference
registration_problems unregistered absent disk rows =
    map unregistered (sorted (difference (to_set disk) (to_set rows)))
    ++ map absent (sorted (difference (to_set rows) (to_set disk)))

abbrev pub examples_prefix : Str
examples_prefix = b'e' ∷ b'x' ∷ b'a' ∷ b'm' ∷ b'p' ∷ b'l' ∷ b'e' ∷ b's' ∷ b'/' ∷ []

-- `{key for key in rows if "/" not in key}`
unfoldable pub top_rows : Dict Str Str → List Str
unfolding keys contains
top_rows rows = keep (λ key. not (contains key b'/')) (keys rows)

-- `{key.split("/", 1)[1] for key in rows if key.startswith("examples/")}`
unfoldable pub example_rows : Dict Str Str → List Str
unfolding keys starts_with after
example_rows rows = map (after b'/') (keep (λ key. starts_with key examples_prefix) (keys rows))

abbrev names_of : List (Str × Str) → List Str
names_of = map (λ (entry : Str × Str). entry.0)

abbrev pub under_examples : Str × Str → Str × Str
under_examples entry = (examples_prefix ++ entry.0, entry.1)

unfoldable pub symlink_problems : List (Str × Str) → List (Str × Str) → List Problem
unfolding sorted
symlink_problems top examples =
    map (λ (entry : Str × Str). problem symlinked_directory entry.0 [])
      (keep (λ (entry : Str × Str). entry.1 == symlink)
        (sorted top ++ map under_examples (sorted examples)))

-- The problems of the manifest's rows and of the directories.
unfoldable pub row_problems : Dict Str Str → List (Str × Str) → List (Str × Str) → List Problem
unfolding kind_problems registration_problems top_rows example_rows symlink_problems
row_problems rows top examples =
    kind_problems rows
    ++ (registration_problems (λ name. problem unregistered_top_level name [])
          (λ name. problem row_without_directory name []) (names_of top) (top_rows rows)
        ++ (registration_problems
              (λ name. problem unregistered_example (examples_prefix ++ name) [])
              (λ name. problem row_without_directory (examples_prefix ++ name) [])
              (names_of examples) (example_rows rows)
            ++ symlink_problems top examples))

unfoldable pub file_problems : Str → Str → List Problem
file_problems verify_state workflow_state =
    (if verify_state == read then [] else problem verify_unavailable verify verify_state ∷ [])
    ++ (if workflow_state == read
        then []
        else problem workflow_unavailable workflow workflow_state ∷ [])

-- A declaration: its path, the state of its file, and the file's text.
abbrev pub Declared : Type 0
Declared = Str × (Str × Str)

-- `[line.strip() for line in text.splitlines() if line.strip()]`
unfoldable pub lines_of : Str → List Str
unfolding splitlines strip
lines_of text = keep (λ line. not (is_empty line)) (map strip (splitlines text))

abbrev pub head_is : List Str → Str → Bool
head_is [] s = false
head_is (line ∷ lines) s = line == s

unfoldable pub declared_problems : List Str → Declared → List Problem
declared_problems checked (path, (state, text)) =
    if not (contains checked path)
    then []
    else if not (state == read)
    then problem declaration_unavailable path state ∷ []
    else if head_is (lines_of text) kind_app
    then []
    else problem declaration_not_app path [] ∷ []

unfoldable pub each_declared : List Str → List Declared → List Problem
each_declared checked [] = []
each_declared checked (d ∷ ds) = declared_problems checked d ++ each_declared checked ds

unfoldable pub declaration_problems : List Str → List Declared → List Problem
unfolding sorted to_set difference contains lines_of declared_problems each_declared
declaration_problems checked declarations =
    let on_disk = to_set (map (λ (d : Declared). d.0) declarations) in
    report declaration_unchecked (sorted (difference on_disk checked))
    ++ (report declaration_missing (sorted (difference (to_set checked) on_disk))
        ++ each_declared checked (sorted declarations))

unfoldable pub is_app : Option Str → Bool
is_app none = false
is_app (some kind) = kind == kind_app

unfoldable pub requirement_problems : Dict Str Str → List Str → List Problem
unfolding sorted lookup is_app
requirement_problems rows requirements =
    report requirements_outside_app
      (keep (λ key. not (is_app (lookup key rows))) (sorted requirements))

-- A floor that a distribution states: the path, the key, the state, and the value.
abbrev pub FloorRow : Type 0
FloorRow = Str × (Str × (Str × Str))

abbrev two {ℓ} : {A : Type ℓ} → Str → A → A → Result A
two key a b =
    if key == requires_python then ok a else if key == target_version then ok b else raise key

-- A key that is not one of the two is a `KeyError` of the tables.
unfoldable pub floor_problem : FloorRow → Result (List Problem)
floor_problem (path, (key, (state, value))) = do
  stated ← two key requires_python_literal target_version_literal
  undeclared_rule ← two key requires_python_undeclared target_version_undeclared
  below_rule ← two key requires_python_below_floor target_version_below_floor
  ok (
      if state == undeclared
      then problem undeclared_rule path [] ∷ []
      else if not (state == read)
      then problem floor_file_unavailable path state ∷ []
      else if keep (λ c. not (eqb c b' ')) value == stated
      then []
      else problem below_rule path value ∷ [])

unfoldable pub each_floor : List FloorRow → Result (List Problem)
each_floor [] = ok []
each_floor (row ∷ rows) = do ps ← floor_problem row; qs ← each_floor rows; ok (ps ++ qs)

unfoldable pub floor_problems : List FloorRow → Result (List Problem)
unfolding sorted floor_problem each_floor
floor_problems floors = each_floor (sorted floors)

-- `int(part)` of decimal digits
unfoldable pub number_of : ℕ → Str → ℕ
number_of n [] = n
number_of n (c ∷ s) = number_of (n * 10 + (c - 48)) s

-- `tuple(int(part) for part in token.split("."))`
unfoldable pub version : Str → List ℕ
unfolding split number_of
version token = map (number_of 0) (split b'.' token)

unfoldable pub floor_version : List ℕ
floor_version = 3 ∷ 12 ∷ []

unfoldable pub pin_problems : Str → List Problem
unfolding version pinned_versions
pin_problems workflow_text =
    map (λ token. problem workflow_pin_below_floor workflow token)
      (keep (λ token. less (version token) floor_version) (pinned_versions workflow_text))
