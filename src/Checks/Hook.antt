-- ===== src/Checks/Hook.antt =====
-- `HookConf`, `HookAction`, `HookRun` and `Count` of tessercheck-py/tessercheck/domain/checks.py: what the
-- editor hook's configuration says, and what the hook does with a file's findings.
pub mod Laws
use tesser_build.Prelude.{
  ℕ, zero, Str, str, strip, splitlines, before, after, eqb, Bool, true, false, not, ◌&&◌, ◌||◌,
  List, [], ◌∷◌, ◌++◌, ◌==◌, list_eq, nat_eq, contains, ℤ, pos, negsuc, Result, ok, raise, guard,
  ◌>>=◌, ◌>>◌, if◌then◌else◌,
}
use tesser_build.Checks.Values.{Text, text}

pub record Count : Type 0 where
  pub value : ℕ

unfoldable pub count : ℤ → Result Count
count (negsuc n) = raise (str "count must not be negative")
count (pos n) = ok (record { value = n })

unfoldable pub hook_advisory : Str
hook_advisory = str "advisory"

unfoldable pub hook_feedback : Str
hook_feedback = str "feedback"

unfoldable pub hook_disabled : Str
hook_disabled = str "disabled"

-- The variables of the loop in `HookConf.__init__`.
pub record Setting : Type 0 where
  pub mode : Str
  pub enabled : Bool

-- `line.strip().partition("=")`, each part stripped.
unfoldable pub conf_key : Str → Str
unfolding strip before
conf_key line = strip (before b'=' (strip line))

unfoldable pub conf_value : Str → Str
unfolding strip after
conf_value line = strip (after b'=' (strip line))

unfoldable pub conf_line : Setting → Str → Setting
conf_line s line =
    let key = conf_key line in
    let value = conf_value line in
    if key == str "mode" && (value == hook_advisory || value == hook_feedback)
    then record s { mode = value }
    else if key == str "enabled" && (value == str "true" || value == str "false")
    then record s { enabled = value == str "true" }
    else s

unfoldable pub conf_loop : Setting → List Str → Setting
unfolding conf_line
conf_loop s [] = s
conf_loop s (line ∷ lines) = conf_loop (conf_line s line) lines

pub record HookConf : Type 0 where
  pub mode : Str

unfoldable pub hook_conf : Str → HookConf
unfolding conf_loop splitlines
hook_conf text =
    let s = conf_loop (record { mode = hook_advisory; enabled = true }) (splitlines text) in
    record { mode = if s.enabled then s.mode else hook_disabled }

pub data HookAction : Type 0 where
  disabled silent advise feedback : HookAction

unfoldable pub governance_governed : Str
governance_governed = str "governed"

unfoldable pub governance_skipped : Str
governance_skipped = str "skipped"

unfoldable pub governance_outside : Str
governance_outside = str "outside"

unfoldable pub governance_undeclared : Str
governance_undeclared = str "undeclared"

pub record HookRun : Type 0 where
  pub conf : HookConf
  pub governance : Text
  pub findings : Count

-- The error message shows the governance by Python's `repr`.
unfoldable pub hook_run : (Str → Str) → Str → Str → ℤ → Result HookRun
unfolding hook_conf text count contains
hook_run repr conf governance findings = do
  guard
      (contains
        (governance_governed ∷ governance_skipped ∷ governance_outside ∷ governance_undeclared ∷ [])
        governance)
      (str "unknown governance " ++ repr governance)
  g ← text governance
  n ← count findings
  ok (record { conf = hook_conf conf; governance = g; findings = n })

unfoldable pub action : HookRun → HookAction
action r =
    if r.conf.mode == hook_disabled
    then disabled
    else if r.governance.value == governance_undeclared
    then advise
    else if not (r.governance.value == governance_governed)
    then silent
    else if eqb r.findings.value 0
    then silent
    else if r.conf.mode == hook_feedback
    then feedback
    else advise
