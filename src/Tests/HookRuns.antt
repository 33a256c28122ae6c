-- ===== src/Tests/HookRuns.antt =====
-- The hook, from the configuration to the exit code, on one governed file with a finding.
use tesser_build.Prelude.{
  ◌≤◌, Str, str, splitlines, true, false, not, ◌≡◌, ◌≢◌, refl, ◌↔◌, ◌⊎◌, ◌<◌, [], ◌∷◌, list_eq,
  nat_eq, ok, succeeds, none, some, contains, ◌++◌, ◌==◌, if◌then◌else◌,
}
use tesser_build.Prelude.Lists.{length, is_empty, all}
use tesser_build.Checks.Violations.{Violation}
use tesser_build.Checks.Governance.{Codebase}
use tesser_build.Checks.Hook.{
  hook_conf, conf_key, conf_value, HookRun, action, hook_feedback, hook_disabled, hook_advisory,
  governance_governed, governance_undeclared, disabled, feedback, silent,
}
use tesser_build.Checks.Hook.Laws.{hook_conf_lem, action_iff, last_setting, mode_of, enabled_of}
use tesser_build.Service.CheckWrite.{
  CheckWriteRequest, CheckWriteResponse, map_to_check_write_response,
}
use tesser_build.Service.CheckWrite.Laws.{
  response_feedback_iff, succeeds-map_to_check_write_response,
}
use tesser_build.HookCli.Format.{conf_mode, clean, bounded_lines, preamble, bounded}
use tesser_build.HookCli.Format.Laws.{
  conf_mode-hook_conf, clean_bounds, bounded_lines_bounds, is_plain,
}
use tesser_build.HookCli.Write.{Outcome, answered, post_write}
use tesser_build.HookCli.Write.Laws.{hook_stops_iff, post_write_outcome}

abbrev conf : Str
conf = str "mode = feedback\nenabled = true\n"

abbrev path : Str
path = str "shop/domain/order.py"

abbrev quote : Str → Str
quote s = b'\'' ∷ s

abbrev codebase : Codebase
codebase = record { declaration = []; source_paths = path ∷ []; pruned = []; scoped = [] }

abbrev finding : Violation
finding = record {
  path = record { value = path };
  line = record { value = 3 };
  code = record { value = str "TB053" };
  text = record { value = str "no alias" };
  rename = none;
  mark = none;
}

abbrev request : CheckWriteRequest
request = record { tree = str "/work/shop"; path = path; conf = conf }

abbrev response : CheckWriteResponse
response = record {
  governance = str "governed";
  mode = str "feedback";
  action = str "feedback";
  findings = str "shop/domain/order.py:3: TB053 no alias" ∷ [];
  codes = str "TB053" ∷ [];
}

request_answered : map_to_check_write_response quote codebase (finding ∷ []) request ≡ ok response
unfolding map_to_check_write_response str list_eq nat_eq governance_governed conf_key conf_value
    hook_advisory hook_feedback hook_disabled governance_undeclared
request_answered = refl

abbrev outcome : Outcome
outcome = record {
  line = record {
    placement = str "governed";
    findings = str "TB053:shop/domain/order.py" ∷ [];
    findings_count = 1;
    mode = str "feedback";
    status = str "ok";
    error = none;
    exit_code = 2;
  };
  stdout = none;
  stderr = some (preamble ++ (b'\n' ∷ bounded response.findings));
  exit_code = 2;
}

hook_ran : post_write conf path path true (answered response) ≡ some outcome
unfolding post_write str list_eq nat_eq clean
hook_ran = refl

hook_stops_iff_example : (outcome.exit_code ≡ 2) ↔ (
    (true ≡ true)
    × ((hook_conf conf).mode ≡ hook_feedback)
    × (is_empty codebase.declaration ≡ true)
    × (contains codebase.source_paths path ≡ true)
    × (is_empty (finding ∷ []) ≡ false))
hook_stops_iff_example =
    hook_stops_iff quote codebase (finding ∷ []) request path true request_answered hook_ran

post_write_outcome_example :
    (outcome.line.exit_code ≡ outcome.exit_code)
    × (((outcome.exit_code ≡ 2) × (outcome.stderr ≢ none) × (outcome.stdout ≡ none))
        ⊎ ((outcome.exit_code ≡ 0) × (outcome.stderr ≡ none)))
post_write_outcome_example = post_write_outcome conf path path true (answered response) hook_ran

response_feedback_iff_example : (response.action ≡ str "feedback") ↔ (
    ((hook_conf conf).mode ≡ hook_feedback)
    × (is_empty codebase.declaration ≡ true)
    × (contains codebase.source_paths path ≡ true)
    × (is_empty (finding ∷ []) ≡ false))
response_feedback_iff_example =
    response_feedback_iff quote codebase (finding ∷ []) request request_answered

succeeds-map_to_check_write_response_example :
    succeeds (map_to_check_write_response quote codebase (finding ∷ []) request)
    ≡ not (is_empty path)
succeeds-map_to_check_write_response_example =
    succeeds-map_to_check_write_response quote codebase (finding ∷ []) request

hook_conf_lem_example : (hook_conf conf).mode ≡ (
    if last_setting enabled_of (str "true") (splitlines conf) == str "true"
    then last_setting mode_of hook_advisory (splitlines conf)
    else hook_disabled)
hook_conf_lem_example = hook_conf_lem conf

abbrev run : HookRun
run = record {
  conf = record { mode = hook_feedback };
  governance = record { value = governance_governed };
  findings = record { value = 1 };
}

action_iff_example :
    ((action run ≡ disabled) ↔ (run.conf.mode ≡ hook_disabled))
    × ((action run ≡ feedback) ↔ (
        (run.conf.mode ≡ hook_feedback)
        × (run.governance.value ≡ governance_governed)
        × (0 < run.findings.value)))
    × ((action run ≡ silent) ↔ (
        (run.conf.mode ≢ hook_disabled)
        × (run.governance.value ≢ governance_undeclared)
        × (run.governance.value ≡ governance_governed → run.findings.value ≡ 0)))
action_iff_example = action_iff run

conf_mode-hook_conf_example : conf_mode conf ≡ (hook_conf conf).mode
conf_mode-hook_conf_example = conf_mode-hook_conf conf

clean_bounds_example :
    (length (clean (str "a\nb")) ≤ 401) × (all is_plain (clean (str "a\nb")) ≡ true)
clean_bounds_example = clean_bounds (str "a\nb")

bounded_lines_bounds_example :
    (length (bounded_lines response.findings) ≤ 51)
    × (length response.findings ≤ 50 → bounded_lines response.findings ≡ response.findings)
bounded_lines_bounds_example = bounded_lines_bounds response.findings
