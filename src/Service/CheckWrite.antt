-- ===== src/Service/CheckWrite.antt =====
-- `check_file` and `check_write` of tessercheck-py/tessercheck/application/service.py, from the codebase on.
pub mod Laws
use tesser_build.Prelude.{
  ℕ, Str, str, str_of_nat, List, [], ◌∷◌, ◌++◌, map, ℤ, pos, Result, ok, ◌>>=◌,
}
use tesser_build.Prelude.Lists.{length}
use tesser_build.Checks.Values.{FilePath, file_path}
use tesser_build.Checks.Violations.{Violation}
use tesser_build.Checks.Governance.{
  Codebase, Governance, governed, skipped, outside, undeclared, governance,
}
use tesser_build.Checks.Hook.{
  HookAction, disabled, silent, advise, feedback, governance_governed, governance_skipped,
  governance_outside, governance_undeclared, hook_run, HookRun, action,
}

-- f"{path}:{line}: {code} {text}"
unfoldable pub finding_text : Violation → Str
unfolding str_of_nat
finding_text v =
    v.path.value
    ++ (b':' ∷ str_of_nat v.line.value ++ (str ": " ++ (v.code.value ++ (b' ' ∷ v.text.value))))

unfoldable pub governance_text : Governance → Str
governance_text governed = governance_governed
governance_text skipped = governance_skipped
governance_text outside = governance_outside
governance_text undeclared = governance_undeclared

unfoldable pub action_text : HookAction → Str
action_text disabled = str "disabled"
action_text silent = str "silent"
action_text advise = str "advise"
action_text feedback = str "feedback"

pub record CheckFileResponse : Type 0 where
  pub governance : Str
  pub findings : List Str
  pub codes : List Str

unfoldable pub map_to_check_file_response : Codebase → List Violation → FilePath → CheckFileResponse
unfolding finding_text governance_text governance
map_to_check_file_response c violations path = record {
  governance = governance_text (governance c path);
  findings = map finding_text violations;
  codes = map (λ (v : Violation). v.code.value) violations;
}

pub record CheckWriteRequest : Type 0 where
  pub tree : Str
  pub path : Str
  pub conf : Str

pub record CheckWriteResponse : Type 0 where
  pub governance : Str
  pub mode : Str
  pub action : Str
  pub findings : List Str
  pub codes : List Str

-- The response to a written file, from the codebase and its findings.
unfoldable pub map_to_check_write_response :
    (Str → Str) → Codebase → List Violation → CheckWriteRequest → Result CheckWriteResponse
unfolding file_path governance governance_text hook_run action action_text finding_text
map_to_check_write_response repr c violations request = do
  path ← file_path request.path
  let governance_name = governance_text (governance c path)
  run ← hook_run repr request.conf governance_name (pos (length violations))
  ok (record {
    governance = governance_name;
    mode = run.conf.mode;
    action = action_text (action run);
    findings = map finding_text violations;
    codes = map (λ (v : Violation). v.code.value) violations;
  })
