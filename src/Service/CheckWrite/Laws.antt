-- ===== src/Service/CheckWrite/Laws.antt =====
-- What the response to a written file says.
use tesser_build.Prelude.{
  ℕ, pos, Str, str, true, false, not, ◌≡◌, refl, ◌↔◌, ne→≢, List, contains, ok, succeeds, arith,
  list_eq, nat_eq,
}
use tesser_build.Prelude.Lists.{is_empty, length}
use tesser_build.Checks.Values.{FilePath}
use tesser_build.Checks.Violations.{Violation}
use tesser_build.Checks.Governance.{
  Codebase, Governance, governed, skipped, outside, undeclared, governance,
}
use tesser_build.Checks.Hook.{
  HookAction, disabled, silent, advise, feedback, governance_governed, governance_skipped,
  governance_outside, governance_undeclared, hook_feedback, hook_run, hook_conf, HookRun, action,
}
use tesser_build.Checks.Hook.Laws.{action_iff}
use tesser_build.Service.CheckWrite.{
  governance_text, action_text, CheckWriteRequest, CheckWriteResponse, map_to_check_write_response,
}

-- The four names of governance are accepted by `HookRun`, so its error cannot arise here.
hook_run-governance_text :
    (repr : Str → Str) (conf : Str) (g : Governance) (n : ℕ)
    → hook_run repr conf (governance_text g) (pos n)
      ≡ ok (record {
        conf = hook_conf conf;
        governance = record { value = governance_text g };
        findings = record { value = n };
      })
unfolding hook_run governance_text governance_governed governance_skipped governance_outside
    governance_undeclared list_eq nat_eq str
hook_run-governance_text repr conf governed n = refl
hook_run-governance_text repr conf skipped n = refl
hook_run-governance_text repr conf outside n = refl
hook_run-governance_text repr conf undeclared n = refl

-- A request with a path is always answered, and a request without one never is: the error that
-- `HookRun` raises on an unknown governance does not arise.
pub succeeds-map_to_check_write_response :
    (repr : Str → Str) (c : Codebase) (violations : List Violation) (request : CheckWriteRequest)
    → succeeds (map_to_check_write_response repr c violations request) ≡ not (is_empty request.path)
unfolding map_to_check_write_response
succeeds-map_to_check_write_response repr c violations request = ground (
  arith,
  hook_run-governance_text repr request.conf (governance c (record { value = request.path }))
      (length violations),
)

governance_text-governed :
    (g : Governance) → (governance_text g ≡ governance_governed) ↔ (g ≡ governed)
unfolding governance_text governance_governed governance_skipped governance_outside
    governance_undeclared list_eq nat_eq str
governance_text-governed governed = (λ h. refl, λ h. refl)
governance_text-governed skipped =
    (λ h. absurd (ne→≢ governance_skipped governance_governed refl h), λ h. cc)
governance_text-governed outside =
    (λ h. absurd (ne→≢ governance_outside governance_governed refl h), λ h. cc)
governance_text-governed undeclared =
    (λ h. absurd (ne→≢ governance_undeclared governance_governed refl h), λ h. cc)

action_text-feedback : (a : HookAction) → (action_text a ≡ str "feedback") ↔ (a ≡ feedback)
unfolding action_text list_eq nat_eq str
action_text-feedback disabled =
    (λ h. absurd (ne→≢ (str "disabled") (str "feedback") refl h), λ h. cc)
action_text-feedback silent = (λ h. absurd (ne→≢ (str "silent") (str "feedback") refl h), λ h. cc)
action_text-feedback advise = (λ h. absurd (ne→≢ (str "advise") (str "feedback") refl h), λ h. cc)
action_text-feedback feedback = (λ h. refl, λ h. refl)

governance-governed :
    (c : Codebase) (path : FilePath)
    → (governance c path ≡ governed)
      ↔ ((is_empty c.declaration ≡ true) × (contains c.source_paths path.value ≡ true))
unfolding governance
governance-governed c path = ground arith

-- What `HookRun` is made from in a request that is answered.
abbrev run_of : Codebase → List Violation → CheckWriteRequest → HookRun
run_of c violations request = record {
  conf = hook_conf request.conf;
  governance = record { value = governance_text (governance c (record { value = request.path })) };
  findings = record { value = length violations };
}

response_action :
    (repr : Str → Str) (c : Codebase) (violations : List Violation) (request : CheckWriteRequest)
    {response : CheckWriteResponse}
    → map_to_check_write_response repr c violations request ≡ ok response
    → response.action ≡ action_text (action (run_of c violations request))
unfolding map_to_check_write_response
response_action repr c violations request h = ground (
  arith,
  hook_run-governance_text repr request.conf (governance c (record { value = request.path }))
      (length violations),
)

-- The response to a request that is answered asks for feedback exactly when the configuration is in
-- feedback mode, the declaration has no finding, the path is one of its sources, and there is a finding.
pub response_feedback_iff :
    (repr : Str → Str) (c : Codebase) (violations : List Violation) (request : CheckWriteRequest)
    {response : CheckWriteResponse}
    → map_to_check_write_response repr c violations request ≡ ok response
    → (response.action ≡ str "feedback") ↔ (
        ((hook_conf request.conf).mode ≡ hook_feedback)
        × (is_empty c.declaration ≡ true)
        × (contains c.source_paths request.path ≡ true)
        × (is_empty violations ≡ false))
response_feedback_iff repr c violations request h = ground (
  arith,
  response_action repr c violations request h,
  action_text-feedback (action (run_of c violations request)),
  action_iff (run_of c violations request),
  governance_text-governed (governance c (record { value = request.path })),
  governance-governed c (record { value = request.path }),
)
