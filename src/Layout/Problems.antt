-- ===== src/Layout/Problems.antt =====
-- `Rule`, `Problem` and the texts of layout/repo/domain/rules.py.
pub mod Laws
use tesser_build.Prelude.{
  ℕ, Str, str, split, last_part, Bool, not, List, [], ◌∷◌, ◌++◌, Eq, list_eq, nat_eq, Result, ok,
  guard, ◌>>=◌, ◌>>◌,
}
use tesser_build.Prelude.Lists.{is_empty}

pub data Rule : Type 0 where
  manifest_missing manifest_unreadable manifest_malformed manifest_misshapen unknown_kind : Rule
  unregistered_top_level unregistered_example row_without_directory symlinked_directory : Rule
  verify_unavailable workflow_unavailable shared_gate_name no_verify_arm no_ci_job : Rule
  declaration_unchecked declaration_missing declaration_unavailable declaration_not_app : Rule
  requirements_outside_app requires_python_undeclared target_version_undeclared : Rule
  floor_file_unavailable requires_python_below_floor target_version_below_floor : Rule
  workflow_pin_below_floor : Rule

-- `Subject` and `Note` hold any text.
pub record Problem : Type 0 where
  pub rule : Rule
  pub subject : Str
  pub note : Str

rule_dec : Discrete Rule
rule_dec = hlevel

problem_dec : Discrete Problem
problem_dec = hlevel (rule_dec, nat_eq.dec)

-- Equality of value objects is equality of their fields.
instance unfoldable pub problem_eq : Eq Problem
unfolding problem_dec rule_dec nat_eq
problem_eq = record { dec = problem_dec }

-- Constants of the module.
unfoldable pub manifest : Str
manifest = str "manifest.json"

unfoldable pub verify : Str
verify = str "scripts/verify"

unfoldable pub workflow : Str
workflow = str ".github/workflows/test.yml"

unfoldable pub declaration : Str
declaration = str ".tesser-root"

unfoldable pub requirements : Str
requirements = str "requirements-dev.txt"

unfoldable pub kind_app : Str
kind_app = str "app"

unfoldable pub kind_ungated : Str
kind_ungated = str "ungated"

unfoldable pub floor : Str
floor = str "3.12"

unfoldable pub requires_python : Str
requires_python = str "requires-python"

unfoldable pub target_version : Str
target_version = str "target-version"

-- FLOOR_LITERALS
unfoldable pub requires_python_literal : Str
requires_python_literal = str ">=3.12"

unfoldable pub target_version_literal : Str
target_version_literal = str "py312"

-- The message of a problem, before it becomes a `Text`.
unfoldable pub message : Problem → Str
unfolding split last_part
message p =
    let subject = p.subject in
    let note = p.note in
    let tree = last_part (split b'/' subject) in
    elim p.rule [
      | manifest_missing ↦ subject ++ str " is missing"
      | manifest_unreadable ↦ subject ++ str " is unreadable"
      | manifest_malformed ↦ subject ++ (str " is unreadable: " ++ note)
      | manifest_misshapen ↦
          subject ++ str " is not a flat object of directory-path to kind strings"
      | unknown_kind ↦
          manifest
          ++ (str " row '"
              ++ (subject
                  ++ (str "' declares unknown kind '"
                      ++ (note
                          ++ (str "'; the kinds are '"
                              ++ (kind_app ++ (str "' and '" ++ (kind_ungated ++ str "'"))))))))
      | unregistered_top_level ↦
          str "top-level directory '"
          ++ (subject
              ++ (str "' has no "
                  ++ (manifest ++ str " row; every top-level directory declares what it is")))
      | unregistered_example ↦ subject ++ (str " has no " ++ (manifest ++ str " row"))
      | row_without_directory ↦
          manifest ++ (str " row '" ++ (subject ++ str "' names no directory on disk"))
      | symlinked_directory ↦
          subject ++ str " is a symlinked directory; a declared directory is a real one"
      | verify_unavailable ↦ subject ++ (str " is " ++ note)
      | workflow_unavailable ↦ subject ++ (str " is " ++ note)
      | shared_gate_name ↦
          str "'"
          ++ (subject
              ++ (str "' and '"
                  ++ (note
                      ++ (str "' share the gate name '"
                          ++ (tree
                              ++ (str "'; "
                                  ++ (verify
                                      ++ str
                                          " picks its steps by that name, so app directory names must be unique")))))))
      | no_verify_arm ↦
          subject ++ (str " has no " ++ (verify ++ (str " case arm for '" ++ (tree ++ str "'"))))
      | no_ci_job ↦
          subject ++ (str " has no CI job step 'run: " ++ (verify ++ (b' ' ∷ tree ++ str "'")))
      | declaration_unchecked ↦
          subject
          ++ (str " declares a tree whose " ++ (verify ++ str " steps do not run tessercheck"))
      | declaration_missing ↦
          subject
          ++ (str " is missing; a tree that tessercheck runs on declares itself with "
              ++ declaration)
      | declaration_unavailable ↦
          subject ++ (str " does not declare '" ++ (kind_app ++ (str "': " ++ note)))
      | declaration_not_app ↦
          subject
          ++ (str " does not declare '"
              ++ (kind_app ++ (str "': first line is not '" ++ (kind_app ++ str "'"))))
      | requirements_outside_app ↦
          subject
          ++ (str " holds a "
              ++ (requirements
                  ++ str " but is not an app row; a Python tree cannot sit outside the gates"))
      | requires_python_undeclared ↦
          subject
          ++ (str " declares a distribution without "
              ++ (requires_python
                  ++ (str "; every distribution states the Python floor as '"
                      ++ (requires_python_literal ++ str "'"))))
      | target_version_undeclared ↦
          subject
          ++ (str " declares a distribution without "
              ++ (target_version
                  ++ (str "; every distribution states the Python floor as '"
                      ++ (target_version_literal ++ str "'"))))
      | floor_file_unavailable ↦ subject ++ (str " is " ++ note)
      | requires_python_below_floor ↦
          subject
          ++ (str " states "
              ++ (requires_python
                  ++ (str " = '"
                      ++ (note
                          ++ (str "'; the Python floor is "
                              ++ (floor
                                  ++ (str ", so it reads '"
                                      ++ (requires_python_literal ++ str "'"))))))))
      | target_version_below_floor ↦
          subject
          ++ (str " states "
              ++ (target_version
                  ++ (str " = '"
                      ++ (note
                          ++ (str "'; the Python floor is "
                              ++ (floor
                                  ++ (str ", so it reads '"
                                      ++ (target_version_literal ++ str "'"))))))))
      | workflow_pin_below_floor ↦
          subject
          ++ (str " pins python-version " ++ (note ++ (str ", below the Python floor " ++ floor)))
    ]

pub record Text : Type 0 where
  pub value : Str

unfoldable pub text : Str → Result Text
text value = do
  guard (not (is_empty value)) (str "text must be non-empty")
  ok (record { value = value })

-- `problem.text()`
unfoldable pub problem_text : Problem → Result Text
unfolding text message
problem_text p = text (message p)
