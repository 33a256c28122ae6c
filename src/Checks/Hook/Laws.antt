-- ===== src/Checks/Hook/Laws.antt =====
-- The configuration is read by its last valid lines, and the action follows from it.
use tesser_build.Prelude.{
  Str, str, splitlines, Bool, true, ◌&&◌, ◌||◌, ◌≡◌, ◌≢◌, refl, ne→≢, ap, ◌↔◌, ◌<◌, ◌∙◌, List, [],
  ◌∷◌, ◌==◌, list_eq, nat_eq, Option, none, some, arith, if◌then◌else◌,
}
use tesser_build.Checks.Hook.{
  Setting, conf_key, conf_value, conf_line, conf_loop, hook_conf, hook_advisory, hook_feedback,
  hook_disabled, HookRun, action, governance_governed, governance_undeclared, disabled, silent,
  feedback,
}

-- The value that a line gives to a key, if the line names the key and one of its two values.
abbrev pub setting_of : Str → Str → Str → Str → Option Str
setting_of key one other line =
    if conf_key line == key && (conf_value line == one || conf_value line == other)
    then some (conf_value line)
    else none

abbrev or_earlier : Option Str → Str → Str
or_earlier none earlier = earlier
or_earlier (some v) earlier = v

-- The value that the last line with a value gives, or the default.
abbrev pub last_setting : (Str → Option Str) → Str → List Str → Str
last_setting read default [] = default
last_setting read default (line ∷ lines) = last_setting read (or_earlier (read line) default) lines

abbrev pub mode_of : Str → Option Str
mode_of = setting_of (str "mode") hook_advisory hook_feedback

abbrev pub enabled_of : Str → Option Str
enabled_of = setting_of (str "enabled") (str "true") (str "false")

abbrev flag : Bool → Str
flag b = if b then str "true" else str "false"

mode_ne_enabled : str "mode" ≢ str "enabled"
unfolding str
mode_ne_enabled e = cc

true_ne_false : str "true" ≢ str "false"
unfolding str
true_ne_false e = cc

conf_line-settings :
    (s : Setting) (line : Str)
    → ((conf_line s line).mode ≡ or_earlier (mode_of line) s.mode)
      × (flag (conf_line s line).enabled ≡ or_earlier (enabled_of line) (flag s.enabled))
unfolding conf_line
conf_line-settings s line = ground (arith, mode_ne_enabled, true_ne_false)

conf_loop-settings :
    (s : Setting) (lines : List Str)
    → ((conf_loop s lines).mode ≡ last_setting mode_of s.mode lines)
      × (flag (conf_loop s lines).enabled ≡ last_setting enabled_of (flag s.enabled) lines)
unfolding conf_loop
conf_loop-settings s [] = (refl, refl)
conf_loop-settings s (line ∷ lines) =
    let (m, f) = conf_line-settings s line in
    let (m', f') = conf_loop-settings (conf_line s line) lines in
    (
      m' ∙ ap (λ d. last_setting mode_of d lines) m,
      f' ∙ ap (λ d. last_setting enabled_of d lines) f,
    )

flag-choice :
    (b : Bool) (x y : Str) → (if b then x else y) ≡ (if flag b == str "true" then x else y)
flag-choice b x y = ground (arith, true_ne_false)

-- The mode of a configuration: what the last valid `mode` line says, `advisory` if there is none, and
-- `disabled` if the last valid `enabled` line says anything but `true`.
pub hook_conf_lem :
    (text : Str)
    → (hook_conf text).mode ≡ (
        if last_setting enabled_of (str "true") (splitlines text) == str "true"
        then last_setting mode_of hook_advisory (splitlines text)
        else hook_disabled)
unfolding hook_conf
hook_conf_lem text =
    let loop = conf_loop (record { mode = hook_advisory; enabled = true }) (splitlines text) in
    let (m, f) =
      conf_loop-settings (record { mode = hook_advisory; enabled = true }) (splitlines text) in
    flag-choice loop.enabled loop.mode hook_disabled ∙ cc (m, f)

feedback_ne_disabled : hook_feedback ≢ hook_disabled
unfolding hook_feedback hook_disabled str list_eq nat_eq
feedback_ne_disabled = ne→≢ hook_feedback hook_disabled refl

governed_ne_undeclared : governance_governed ≢ governance_undeclared
unfolding governance_governed governance_undeclared str list_eq nat_eq
governed_ne_undeclared = ne→≢ governance_governed governance_undeclared refl

-- When each action is taken: `disabled` by the mode alone; else `advise` on an undeclared tree and on
-- findings in a governed file outside feedback mode; `feedback` on findings in a governed file in
-- feedback mode; `silent` on any other governance and on a governed file with no finding.
pub action_iff :
    (r : HookRun)
    → ((action r ≡ disabled) ↔ (r.conf.mode ≡ hook_disabled))
      × ((action r ≡ feedback) ↔ (
          (r.conf.mode ≡ hook_feedback)
          × (r.governance.value ≡ governance_governed)
          × (0 < r.findings.value)))
      × ((action r ≡ silent) ↔ (
          (r.conf.mode ≢ hook_disabled)
          × (r.governance.value ≢ governance_undeclared)
          × (r.governance.value ≡ governance_governed → r.findings.value ≡ 0)))
unfolding action
action_iff r = (
  ground (arith, feedback_ne_disabled, governed_ne_undeclared),
  ground (arith, feedback_ne_disabled, governed_ne_undeclared),
  ground (arith, feedback_ne_disabled, governed_ne_undeclared),
)
