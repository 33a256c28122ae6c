-- ===== src/Checks/Governance.antt =====
-- `Codebase.governance` and the end of `Codebase.violations` of tessercheck-py/tessercheck/domain/checks.py:
-- which findings a codebase reports, and whether a path is governed. The findings of the tree's
-- declaration, of the modules that could not be parsed, and of each module are taken as given.
use tesser_build.Prelude.{
  Str, starts_with, Bool, not, ◌||◌, List, [], ◌∷◌, ◌++◌, ◌==◌, list_eq, nat_eq, contains,
  if◌then◌else◌,
}
use tesser_build.Prelude.Lists.{is_empty, any, keep}
use tesser_build.Checks.Values.{FilePath}
use tesser_build.Checks.Violations.{Violation}

pub data Governance : Type 0 where
  governed skipped outside undeclared : Governance

-- The fields of `Codebase` that governance reads.
pub record Codebase : Type 0 where
  -- `self._tree.violations()`
  pub declaration : List Violation
  pub source_paths : List Str
  pub pruned : List Str
  pub scoped : List Str

-- `wanted == pruned or wanted.startswith(pruned + "/")`
abbrev pub lies_under : Str → Str → Bool
lies_under wanted pruned = wanted == pruned || starts_with wanted (pruned ++ b'/' ∷ [])

unfoldable pub governance : Codebase → FilePath → Governance
unfolding contains
governance c path =
    if not (is_empty c.declaration)
    then undeclared
    else if contains c.source_paths path.value
    then governed
    else if any (lies_under path.value) c.pruned
    then skipped
    else outside

-- The findings on modules that could not be parsed, of a whole run or of the scoped paths.
unfoldable pub broken_in_scope : Codebase → List Violation → List Violation
unfolding contains
broken_in_scope c broken =
    keep (λ (v : Violation). is_empty c.scoped || contains c.scoped v.path.value) broken
