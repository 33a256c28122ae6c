-- ===== src/HookCli/Format/Laws.antt =====
-- What is quoted is bounded and holds no control character; the mode is the one the analyzer reads.
use tesser_build.Prelude.{
  ℕ, zero, suc, ◌+◌, ◌-◌, ◌≤◌, Str, str, splitlines, Bool, true, false, not, ◌&&◌, ◌≡◌, refl, ap,
  List, [], ◌∷◌, ◌++◌, arith, if◌then◌else◌, leb, ltb, eqb, list_eq, nat_eq,
}
use tesser_build.Prelude.Lists.{length, keep, take, all, all-append, length-append, length-take-le}
use tesser_build.Checks.Hook.{
  Setting, conf_key, conf_value, conf_line, conf_loop, hook_conf, hook_advisory, hook_feedback,
  hook_disabled,
}
use tesser_build.HookCli.Format.{
  is_control, is_break, join_breaks, clean, bounded_lines, Conf, conf_step, conf_steps, conf_mode,
}

abbrev as_setting : Conf → Setting
as_setting s = record { mode = s.mode; enabled = s.enabled }

conf_step-conf_line :
    (s : Conf) (raw : Str) → as_setting (conf_step s raw) ≡ conf_line (as_setting s) raw
unfolding conf_step conf_line conf_key conf_value hook_advisory hook_feedback
conf_step-conf_line s raw = ground arith

conf_steps-conf_loop :
    (s : Conf) (raws : List Str) → as_setting (conf_steps s raws) ≡ conf_loop (as_setting s) raws
unfolding conf_steps conf_loop
conf_steps-conf_loop s [] = refl
conf_steps-conf_loop s (raw ∷ raws) =
    rw (← conf_step-conf_line s raw) (conf_steps-conf_loop (conf_step s raw) raws)

-- The mode that the hook command notes down for a configuration is the mode that the analyzer acts on.
pub conf_mode-hook_conf : (conf : Str) → conf_mode conf ≡ (hook_conf conf).mode
unfolding conf_mode hook_conf hook_advisory hook_feedback hook_disabled
conf_mode-hook_conf conf =
    ap (λ (s : Setting). if s.enabled then s.mode else str "disabled")
      (conf_steps-conf_loop _ (splitlines conf))

-- No control character of ASCII: from the blank on, and not the last of ASCII.
abbrev pub is_plain : ℕ → Bool
is_plain c = leb 32 c && not (eqb c 127)

all-join_breaks :
    (inside : Bool) (s : Str)
    → all (λ c. not (is_control c)) s ≡ true
    → all is_plain (join_breaks inside s) ≡ true
unfolding join_breaks is_control is_break
all-join_breaks inside [] h = refl
all-join_breaks inside (c ∷ s) h = ground (arith, all-join_breaks (is_break c) s)

all-keep : (p : ℕ → Bool) (s : Str) → all p (keep p s) ≡ true
all-keep p [] = refl
all-keep p (c ∷ s) = ground (arith, all-keep p s)

all-take : (p : ℕ → Bool) (n : ℕ) (s : Str) → all p s ≡ true → all p (take n s) ≡ true
all-take p zero s h = refl
all-take p (suc n) [] h = refl
all-take p (suc n) (c ∷ s) h = ground (arith, all-take p n s)

abbrev cut : ℕ → Str → Str
cut n s = if leb (length s) n then s else take n s ++ 0x2026 ∷ []

cut_bounds :
    (n : ℕ) (s : Str)
    → all is_plain s ≡ true
    → (length (cut n s) ≤ n + 1) × (all is_plain (cut n s) ≡ true)
unfolding is_control is_break
cut_bounds n s h = ground (
  arith,
  length-take-le n s,
  length-append (take n s) (0x2026 ∷ []),
  all-append is_plain (take n s) (0x2026 ∷ []),
  all-take is_plain n s,
)

-- A cleaned text has at most 401 characters, none of them a control character of ASCII, so no tab and no line feed or
-- carriage return either.
pub clean_bounds : (text : Str) → (length (clean text) ≤ 401) × (all is_plain (clean text) ≡ true)
unfolding clean
clean_bounds text =
    let kept = keep (λ c. not (is_control c)) text in
    cut_bounds 400 (join_breaks false kept)
      (all-join_breaks false kept (all-keep (λ c. not (is_control c)) text))

take_all : (n : ℕ) (xs : List Str) → length xs ≤ n → take n xs ≡ xs
take_all zero [] h = refl
take_all zero (x ∷ xs) h = absurd (omega arith)
take_all (suc n) [] h = refl
take_all (suc n) (x ∷ xs) h = ap (λ l. x ∷ l) (take_all n xs (omega arith))

abbrev limited : ℕ → List Str → Str → List Str
limited n xs more =
    if ltb 0 (length xs - length (take n xs)) then take n xs ++ more ∷ [] else take n xs

limited_bounds :
    (n : ℕ) (xs : List Str) (more : Str)
    → (length (limited n xs more) ≤ n + 1) × (length xs ≤ n → limited n xs more ≡ xs)
limited_bounds n xs more =
    ground (arith, length-take-le n xs, length-append (take n xs) (more ∷ []), take_all n xs)

-- At most 51 lines are shown, and up to 50 findings are shown as they are.
pub bounded_lines_bounds :
    (findings : List Str)
    → (length (bounded_lines findings) ≤ 51)
      × (length findings ≤ 50 → bounded_lines findings ≡ findings)
unfolding bounded_lines
bounded_lines_bounds findings = limited_bounds 50 findings _
