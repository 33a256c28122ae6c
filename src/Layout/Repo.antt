-- ===== src/Layout/Repo.antt =====
-- `Repo` of layout/repo/domain/rules.py: the problems of a repository, section by section, in the order in
-- which its constructor finds them.
pub mod Sections
pub mod Gates
pub mod Loop
pub mod Conventions
pub mod Laws
use tesser_build.Prelude.{
  ℕ, Str, str, str_of_nat, split, last_part, Bool, true, false, not, List, [], ◌∷◌, ◌++◌, map, ◌==◌,
  list_eq, nat_eq, contains, Result, ok, raise, ◌>>=◌, if◌then◌else◌,
}
use tesser_build.Prelude.Dict.{Dict, of_rows, values}
use tesser_build.Prelude.Lists.{length, keep, all, is_empty}
use tesser_build.Layout.Problems.{
  Problem, problem_eq, Text, text, kind_app, manifest, manifest_malformed, manifest_misshapen,
  manifest_missing, manifest_unreadable,
}
use Sections.{
  FloorRow, Declared, read, missing, malformed, misshapen, problem, row_problems,
  declaration_problems, requirement_problems, floor_problems, pin_problems, file_problems,
}
use Gates.{tree_of, gate_loop, no_gates, app_keys}

pub record RepoSpec : Type 0 where
  pub manifest_state : Str
  pub manifest_rows : List (Str × Str)
  pub manifest_note : Str
  pub verify : Str × Str
  pub workflow : Str × Str
  pub top : List (Str × Str)
  pub examples : List (Str × Str)
  pub declarations : List Declared
  pub requirements : List Str
  pub floors : List FloorRow

-- The problems of a repository whose manifest was read.
unfoldable pub read_problems : RepoSpec → Result (List Problem)
unfolding of_rows row_problems file_problems gate_loop app_keys declaration_problems
    requirement_problems floor_problems pin_problems
read_problems spec = do
  let rows = of_rows spec.manifest_rows
  let gates = gate_loop spec.verify.1 spec.workflow.1 (app_keys rows) no_gates
  floors ← floor_problems spec.floors
  ok (
      row_problems rows spec.top spec.examples
      ++ (file_problems spec.verify.0 spec.workflow.0
          ++ (gates.found
              ++ (declaration_problems gates.checked spec.declarations
                  ++ (requirement_problems rows spec.requirements
                      ++ (floors ++ pin_problems spec.workflow.1))))))

unfoldable pub problems : RepoSpec → Result (List Problem)
unfolding read_problems
problems spec =
    let state = spec.manifest_state in
    if state == malformed
    then ok (problem manifest_malformed manifest spec.manifest_note ∷ [])
    else if state == misshapen
    then ok (problem manifest_misshapen manifest [] ∷ [])
    else if state == missing
    then ok (problem manifest_missing manifest [] ∷ [])
    else if not (state == read)
    then ok (problem manifest_unreadable manifest [] ∷ [])
    else read_problems spec

pub record Repo : Type 0 where
  pub spec : RepoSpec
  pub problems : List Problem

unfoldable pub repo : RepoSpec → Result Repo
unfolding problems
repo spec = do found ← problems spec; ok (record { spec = spec; problems = found })

pub data Health : Type 0 where
  clean with_problems : Health

unfoldable pub health : Repo → Health
health r = if is_empty r.problems then clean else with_problems

pub data Presence : Type 0 where
  only among absent : Presence

unfoldable pub presence : Repo → Problem → Presence
unfolding contains
presence r p =
    if not (contains r.problems p)
    then absent
    else if all (λ held. held == p) r.problems
    then only
    else among

abbrev tree_rows : Dict Str Str → List Str
tree_rows [] = []
tree_rows ((key, kind) ∷ rows) =
    let rest = tree_rows rows in
    if kind == kind_app then (if is_empty (tree_of key) then rest else tree_of key ∷ rest) else rest

unfoldable pub trees : Repo → List Str
unfolding of_rows split last_part
trees r = if r.spec.manifest_state == read then tree_rows (of_rows r.spec.manifest_rows) else []

unfoldable pub counts : Repo → Str × Str
unfolding of_rows values str_of_nat
counts r =
    let rows = of_rows r.spec.manifest_rows in
    if r.spec.manifest_state == read
    then (
      str_of_nat (length rows),
      str_of_nat (length (keep (λ kind. kind == kind_app) (values rows))),
    )
    else (str "0", str "0")
