-- ===== src/HookCli/Write.antt =====
-- `_worker`'s answer and `_post_write` of tessercheck-cli/tessercheck_cli/hook.py: what is logged, printed and
-- returned after a Python file was written. How the worker's process ended is an argument.
pub mod Laws
use tesser_build.Prelude.{
  ℕ, ◌-◌, Str, str, str_of_int, strip, before, ends_with, Bool, true, false, not, List, [], ◌∷◌,
  ◌++◌, map, ◌==◌, list_eq, nat_eq, ℤ, pos, Option, none, some, if◌then◌else◌,
}
use tesser_build.Prelude.Lists.{length, take, drop}
use tesser_build.Service.CheckWrite.{CheckWriteResponse}
use tesser_build.HookCli.Format.{clean, bounded, advisory, preamble, conf_mode}

-- How the run of the worker ended: an answer, another exit code with what it wrote to its error
-- output, the budget ran out, or an error of the kinds that are caught, as its text. Such an error is
-- taken to come before the answer is read.
pub data WorkerRun : Type 0 where
  answered : CheckWriteResponse → WorkerRun
  exited : ℤ → Str → WorkerRun
  timed_out : WorkerRun
  failed : Str → WorkerRun

-- The fields of a line of the log that depend on the run.
pub record LogLine : Type 0 where
  pub placement : Str
  pub findings : List Str
  pub findings_count : ℕ
  pub mode : Str
  pub status : Str
  pub error : Option Str
  pub exit_code : ℕ

-- The variables of `_post_write`. `stdout` is the context that the printed JSON object carries.
pub record Outcome : Type 0 where
  pub line : LogLine
  pub stdout : Option Str
  pub stderr : Option Str
  pub exit_code : ℕ

-- `text[-200:]`
abbrev last_chars : Str → Str
last_chars s = drop (length s - 200) s

-- [f"{code}:{finding.split(':', 1)[0]}" for code, finding in zip(codes, findings)]
unfoldable pub located : List Str → List Str → List Str
unfolding before
located [] findings = []
located (c ∷ codes) [] = []
located (c ∷ codes) (f ∷ findings) = (c ++ (b':' ∷ before b':' f)) ∷ located codes findings

-- What an answer does, by the action that it names.
unfoldable pub act : Str → Str → List Str → Outcome → Outcome
act action relpath findings o =
    if action == str "advise"
    then record o { stdout = some (advisory relpath findings) }
    else if action == str "feedback"
    then record o { stderr = some (preamble ++ (b'\n' ∷ bounded findings)); exit_code = 2 }
    else if action == str "disabled"
    then record o { line = record (o.line) { status = str "disabled" } }
    else o

unfoldable pub after_run : Str → WorkerRun → Outcome → Outcome
unfolding act located str_of_int strip
after_run relpath (exited code stderr) o = record o {
  line = record (o.line) {
    status = str "error";
    error = some (
        str "worker exit " ++ (str_of_int code ++ (str ": " ++ clean (last_chars (strip stderr)))));
  };
}
after_run relpath (answered answer) o =
    let findings = map clean answer.findings in
    act answer.action relpath findings (record o {
      line = record (o.line) {
        placement = answer.governance;
        mode = answer.mode;
        findings = located answer.codes findings;
        findings_count = length findings;
      };
    })
after_run relpath timed_out o = record o { line = record (o.line) { status = str "timeout" } }
after_run relpath (failed error) o = record o {
  line = record (o.line) { status = str "error"; error = some (clean (take 200 error)) };
}

abbrev line_of : Str → Bool → LogLine
line_of mode in_tree = record {
  placement = if in_tree then str "unknown" else str "outside";
  findings = [];
  findings_count = 0;
  mode = mode;
  status = str "ok";
  error = none;
  exit_code = 0;
}

abbrev start : Str → Bool → Outcome
start mode in_tree = record {
  line = line_of mode in_tree;
  stdout = none;
  stderr = none;
  exit_code = 0;
}

-- `line["exit_code"] = exit_code`
abbrev sealed : Outcome → Outcome
sealed o = record o { line = record (o.line) { exit_code = o.exit_code } }

-- `none` for a file that is not Python: nothing is logged. `in_tree` says whether a declared tree was
-- found above the file.
unfoldable pub post_write : Str → Str → Str → Bool → WorkerRun → Option Outcome
unfolding ends_with conf_mode after_run
post_write conf file_path relpath in_tree run =
    let mode = conf_mode conf in
    if not (ends_with file_path (str ".py"))
    then none
    else some (
        sealed (
          if mode == str "disabled"
          then record (start mode in_tree) {
            line = record (line_of mode in_tree) { status = str "disabled" };
          }
          else if in_tree
          then after_run relpath run (start mode in_tree)
          else start mode in_tree))
