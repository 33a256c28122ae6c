-- ===== src/Layout/Problems/Laws.antt =====
-- Every problem has a message.
use tesser_build.Prelude.{Str, str, false, ◌≡◌, refl, [], ◌∷◌, ◌++◌, ok}
use tesser_build.Prelude.Lists.{is_empty}
use tesser_build.Layout.Problems.{
  Rule, Problem, problem_text, message, manifest, manifest_missing, manifest_unreadable,
  manifest_malformed, manifest_misshapen, unknown_kind, unregistered_top_level,
  unregistered_example, row_without_directory, symlinked_directory, verify_unavailable,
  workflow_unavailable, shared_gate_name, no_verify_arm, no_ci_job, declaration_unchecked,
  declaration_missing, declaration_unavailable, declaration_not_app, requirements_outside_app,
  requires_python_undeclared, target_version_undeclared, floor_file_unavailable,
  requires_python_below_floor, target_version_below_floor, workflow_pin_below_floor,
}

is_empty-append : (s t : Str) → is_empty t ≡ false → is_empty (s ++ t) ≡ false
is_empty-append [] t h = h
is_empty-append (c ∷ s) t h = refl

message-not_empty :
    (r : Rule) (s n : Str) → is_empty (message (record { rule = r; subject = s; note = n })) ≡ false
unfolding message manifest str
message-not_empty manifest_missing s n = is_empty-append s _ refl
message-not_empty manifest_unreadable s n = is_empty-append s _ refl
message-not_empty manifest_malformed s n = is_empty-append s _ refl
message-not_empty manifest_misshapen s n = is_empty-append s _ refl
message-not_empty unknown_kind s n = refl
message-not_empty unregistered_top_level s n = refl
message-not_empty unregistered_example s n = is_empty-append s _ refl
message-not_empty row_without_directory s n = refl
message-not_empty symlinked_directory s n = is_empty-append s _ refl
message-not_empty verify_unavailable s n = is_empty-append s _ refl
message-not_empty workflow_unavailable s n = is_empty-append s _ refl
message-not_empty shared_gate_name s n = refl
message-not_empty no_verify_arm s n = is_empty-append s _ refl
message-not_empty no_ci_job s n = is_empty-append s _ refl
message-not_empty declaration_unchecked s n = is_empty-append s _ refl
message-not_empty declaration_missing s n = is_empty-append s _ refl
message-not_empty declaration_unavailable s n = is_empty-append s _ refl
message-not_empty declaration_not_app s n = is_empty-append s _ refl
message-not_empty requirements_outside_app s n = is_empty-append s _ refl
message-not_empty requires_python_undeclared s n = is_empty-append s _ refl
message-not_empty target_version_undeclared s n = is_empty-append s _ refl
message-not_empty floor_file_unavailable s n = is_empty-append s _ refl
message-not_empty requires_python_below_floor s n = is_empty-append s _ refl
message-not_empty target_version_below_floor s n = is_empty-append s _ refl
message-not_empty workflow_pin_below_floor s n = is_empty-append s _ refl

-- The message of every problem is a text: no problem fails to be reported.
pub problem_text-ok : (p : Problem) → problem_text p ≡ ok (record { value = message p })
unfolding problem_text
problem_text-ok p = rw (message-not_empty p.rule p.subject p.note) refl
