-- ===== src/HookCli/Write/Laws.antt =====
-- When the hook stops the tool with exit code 2, and what its log line says of it.
use tesser_build.Prelude.{
  Str, str, Bool, true, false, ◌≡◌, ◌≢◌, refl, ◌↔◌, ◌⊎◌, inr, ne→≢, List, map, contains, ◌==◌,
  list_eq, nat_eq, ok, none, some, arith, if◌then◌else◌,
}
use tesser_build.Prelude.Lists.{is_empty, length}
use tesser_build.Checks.Violations.{Violation}
use tesser_build.Checks.Governance.{Codebase}
use tesser_build.Checks.Hook.{hook_conf, hook_feedback}
use tesser_build.Service.CheckWrite.{
  CheckWriteRequest, CheckWriteResponse, map_to_check_write_response,
}
use tesser_build.Service.CheckWrite.Laws.{response_feedback_iff}
use tesser_build.HookCli.Format.{conf_mode, clean}
use tesser_build.HookCli.Format.Laws.{conf_mode-hook_conf}
use tesser_build.HookCli.Write.{
  WorkerRun, answered, exited, timed_out, failed, Outcome, act, after_run, post_write, start,
  located, line_of,
}

-- What holds of every outcome: exit code 2 comes with text for the error output and nothing on the
-- output, and 0 with nothing on the error output.
abbrev Consistent : Outcome → Type 0
Consistent o =
    ((o.exit_code ≡ 2) × (o.stderr ≢ none) × (o.stdout ≡ none))
    ⊎ ((o.exit_code ≡ 0) × (o.stderr ≡ none))

abbrev IsFresh : Outcome → Type 0
IsFresh o = (o.exit_code ≡ 0) × (o.stderr ≡ none) × (o.stdout ≡ none)

feedback_ne_advise : str "feedback" ≢ str "advise"
unfolding str list_eq nat_eq
feedback_ne_advise = ne→≢ (str "feedback") (str "advise") refl

act_outcome :
    (action relpath : Str) (findings : List Str) (o : Outcome)
    → IsFresh o
    → Consistent (act action relpath findings o)
      × ((act action relpath findings o).exit_code ≡ (if action == str "feedback" then 2 else 0))
unfolding act
act_outcome action relpath findings o fresh = ground (arith, feedback_ne_advise)

after_run_outcome :
    (relpath : Str) (run : WorkerRun) (o : Outcome)
    → IsFresh o
    → Consistent (after_run relpath run o)
unfolding after_run
after_run_outcome relpath (answered a) o fresh = (act_outcome a.action relpath _ _ fresh).0
after_run_outcome relpath (exited code stderr) o fresh = inr (fresh.0, fresh.1)
after_run_outcome relpath timed_out o fresh = inr (fresh.0, fresh.1)
after_run_outcome relpath (failed error) o fresh = inr (fresh.0, fresh.1)

-- Of every outcome of the hook: the log line holds the exit code that is returned; it is 2 with text for
-- the error output and nothing on the output, or 0 with nothing on the error output.
pub post_write_outcome :
    (conf file_path relpath : Str) (in_tree : Bool) (run : WorkerRun) {o : Outcome}
    → post_write conf file_path relpath in_tree run ≡ some o
    → (o.line.exit_code ≡ o.exit_code)
      × (((o.exit_code ≡ 2) × (o.stderr ≢ none) × (o.stdout ≡ none))
          ⊎ ((o.exit_code ≡ 0) × (o.stderr ≡ none)))
unfolding post_write
post_write_outcome conf file_path relpath in_tree run h =
    ground (arith, after_run_outcome relpath run (start (conf_mode conf) in_tree))

hook_feedback_ne_disabled : hook_feedback ≢ str "disabled"
unfolding hook_feedback str list_eq nat_eq
hook_feedback_ne_disabled = ne→≢ hook_feedback (str "disabled") refl

post_write_exit :
    (conf file_path relpath : Str) (in_tree : Bool) (a : CheckWriteResponse) {o : Outcome}
    → post_write conf file_path relpath in_tree (answered a) ≡ some o
    → (o.exit_code ≡ 2)
      ↔ ((in_tree ≡ true) × (conf_mode conf ≢ str "disabled") × (a.action ≡ str "feedback"))
unfolding post_write after_run
post_write_exit conf file_path relpath in_tree a h = ground (
  arith,
  act_outcome a.action relpath (map clean a.findings) (record (start (conf_mode conf) in_tree) {
    line = record (line_of (conf_mode conf) in_tree) {
      placement = a.governance;
      mode = a.mode;
      findings = located a.codes (map clean a.findings);
      findings_count = length (map clean a.findings);
    };
  }),
)

-- From the written file to the exit code, for a request that is answered and an outcome of the hook on
-- that answer: the hook stops the tool with exit code 2 exactly when the
-- file lies in a declared tree, the configuration is in feedback mode, the tree's declaration has no
-- finding, the file is one of the tree's sources, and there is a finding.
pub hook_stops_iff :
    (repr : Str → Str) (c : Codebase) (violations : List Violation) (request : CheckWriteRequest)
    (file_path : Str) (in_tree : Bool) {response : CheckWriteResponse} {o : Outcome}
    → map_to_check_write_response repr c violations request ≡ ok response
    → post_write request.conf file_path request.path in_tree (answered response) ≡ some o
    → (o.exit_code ≡ 2) ↔ (
        (in_tree ≡ true)
        × ((hook_conf request.conf).mode ≡ hook_feedback)
        × (is_empty c.declaration ≡ true)
        × (contains c.source_paths request.path ≡ true)
        × (is_empty violations ≡ false))
hook_stops_iff repr c violations request file_path in_tree {response} answer outcome = ground (
  arith,
  response_feedback_iff repr c violations request answer,
  post_write_exit request.conf file_path request.path in_tree response outcome,
  conf_mode-hook_conf request.conf,
  hook_feedback_ne_disabled,
)
