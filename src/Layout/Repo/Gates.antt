-- ===== src/Layout/Repo/Gates.antt =====
-- The loop over the app rows in `Repo.__init__` of layout/repo/domain/rules.py: each app has a gate of its own
-- name, an arm of the verify script and a step of the workflow.
use tesser_build.Prelude.{
  Str, split, last_part, List, [], ◌∷◌, ◌++◌, ◌==◌, list_eq, nat_eq, contains, list_ord, nat_ord,
  Option, none, some, if◌then◌else◌,
}
use tesser_build.Prelude.Dict.{Dict, lookup, insert, keys}
use tesser_build.Prelude.Lists.{keep}
use tesser_build.Prelude.Sorting.{sorted}
use tesser_build.Layout.Patterns.{arms_of, arm_checks, has_ci_step}
use tesser_build.Layout.Problems.{
  Problem, declaration, kind_app, shared_gate_name, no_verify_arm, no_ci_job,
}
use tesser_build.Layout.Repo.Sections.{problem}

-- The variables of the loop.
pub record Gates : Type 0 where
  pub names : Dict Str Str
  pub checked : List Str
  pub found : List Problem

abbrev pub no_gates : Gates
no_gates = record { names = []; checked = []; found = [] }

-- `{key for key, kind in rows.items() if kind == KIND_APP}` in order
unfoldable pub app_keys : Dict Str Str → List Str
unfolding sorted keys
app_keys rows = sorted (keys (keep (λ (row : Str × Str). row.1 == kind_app) rows))

abbrev pub tree_of : Str → Str
tree_of key = last_part (split b'/' key)

abbrev shared : Str → Option Str → List Problem
shared key none = []
shared key (some other) = problem shared_gate_name key other ∷ []

abbrev arm_problems : Str → Option Str → List Problem
arm_problems key none = problem no_verify_arm key [] ∷ []
arm_problems key (some name) = []

-- `checked.add(…)`
abbrev checked_by : Str → Str → Option Str → List Str → List Str
checked_by verify_text key none checked = checked
checked_by verify_text key (some name) checked =
    let path = key ++ (b'/' ∷ declaration) in
    if arm_checks name verify_text
    then (if contains checked path then checked else checked ++ path ∷ [])
    else checked

unfoldable pub gate_step : Str → Str → Str → Gates → Gates
unfolding split last_part lookup insert arms_of arm_checks has_ci_step
gate_step verify_text workflow_text key s =
    let tree = tree_of key in
    let arm = lookup tree (arms_of verify_text) in
    record {
      names = insert tree key s.names;
      checked = checked_by verify_text key arm s.checked;
      found =
          s.found
          ++ (shared key (lookup tree s.names)
              ++ (arm_problems key arm
                  ++ (if has_ci_step tree workflow_text
                      then []
                      else problem no_ci_job key [] ∷ [])));
    }

unfoldable pub gate_loop : Str → Str → List Str → Gates → Gates
unfolding gate_step
gate_loop verify_text workflow_text [] s = s
gate_loop verify_text workflow_text (key ∷ rest) s =
    gate_loop verify_text workflow_text rest (gate_step verify_text workflow_text key s)
