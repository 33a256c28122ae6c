-- ===== src/Checks/Violations/Laws.antt =====
-- Which findings can be made, and what a finding shows of its specification.
use tesser_build.Prelude.{
  ℕ, suc, zero, ◌<◌, Str, str, Bool, true, false, not, ◌&&◌, ◌≡◌, refl, ◌∙◌, List, [], ◌∷◌, ◌++◌,
  contains, ℤ, pos, negsuc, Result, ok, raise, Result-cases, inl, inr, map, traverse, none, some,
  arith, succeeds, if◌then◌else◌, ◌==◌, list_eq, nat_eq,
}
use tesser_build.Prelude.Lists.{all, is_empty}
use tesser_build.Checks.Values.{code_shape, Mark}
use tesser_build.Checks.Violations.{
  ViolationSpec, Violation, violation, unmarkable, single, ImportEdgeSpec, ImportEdge, import_edge,
  path_text, form_violations, member_form_violations, bare_finding, member_finding, future_module,
}
use mathlib.Core.Option
use mathlib.Core.Option.{Option}

abbrev positive : ℤ → Bool
positive (pos zero) = false
positive (pos (suc n)) = true
positive (negsuc n) = false

abbrev rename_complete : Option (Str × Str) → Bool
rename_complete none = true
rename_complete (some (actual, derived)) = not (is_empty actual) && not (is_empty derived)

-- What a specification needs to become a finding.
abbrev pub well_formed : ViolationSpec → Bool
well_formed spec =
    not (is_empty spec.path)
    && positive spec.line
    && code_shape spec.code
    && not (is_empty spec.message)
    && rename_complete spec.rename

-- A finding can be made exactly when its path and message are not empty, its line is positive,
-- its code has the shape of a code, and both names of its rename, if it has one, are not empty.
pub succeeds-violation : (spec : ViolationSpec) → succeeds (violation spec) ≡ well_formed spec
unfolding violation
succeeds-violation spec = ground arith

-- A finding shows the values of its specification, and it carries a mark for its own code exactly
-- when that code is not one of `UNMARKABLE`.
pub violation_fields :
    (spec : ViolationSpec) {v : Violation}
    → violation spec ≡ ok v
    → (v.path.value ≡ spec.path)
      × (pos v.line.value ≡ spec.line)
      × (v.code.value ≡ spec.code)
      × (v.text.value ≡ spec.message)
      × (Option.map (λ (m : Mark). m.code) v.mark
          ≡ (if contains unmarkable spec.code then none else some v.code))
unfolding violation
violation_fields spec h = (ground arith, ground arith, ground arith, ground arith, ground arith)

-- The codes of the findings that a call gives, if it does not raise.
abbrev pub codes : Result (List Violation) → Option (List Str)
codes (ok vs) = some (map (λ (v : Violation). v.code.value) vs)
codes (raise e) = none

abbrev tb053 : List Str
tb053 = str "TB053" ∷ []

is_empty-append : (s : Str) (c : ℕ) (t : Str) → is_empty (s ++ (c ∷ t)) ≡ false
is_empty-append [] c t = refl
is_empty-append (d ∷ s) c t = refl

codes-single :
    (spec : ViolationSpec) → well_formed spec ≡ true → codes (single spec) ≡ some (spec.code ∷ [])
unfolding single
codes-single spec h = elim (Result-cases (violation spec)) [
  | inl (m, e) ↦ absurd (ground (arith, succeeds-violation spec))
  | inr (v, e) ↦ let (_, _, code, _, _) = violation_fields spec e in rw e (rw code refl)
]

edge_fields :
    (spec : ImportEdgeSpec) {edge : ImportEdge}
    → import_edge spec ≡ ok edge
    → (edge.target.value ≡ spec.target)
      × (edge.form.value ≡ (
          if spec.member_form
          then str "member"
          else if spec.aliased
          then str "aliased"
          else str "bare"))
      × (0 < edge.lineno.value)
      × (is_empty (path_text edge.path) ≡ false)
unfolding import_edge path_text str
edge_fields spec h = (ground arith, ground arith, ground arith, ground arith)

bare_finding-well_formed :
    (edge : ImportEdge)
    → 0 < edge.lineno.value
    → is_empty (path_text edge.path) ≡ false
    → well_formed (bare_finding edge) ≡ true
unfolding bare_finding code_shape str
bare_finding-well_formed edge l p = rw (is_empty-append, p) (ground arith)

member_finding-well_formed :
    (edge : ImportEdge)
    → 0 < edge.lineno.value
    → is_empty (path_text edge.path) ≡ false
    → well_formed (member_finding edge) ≡ true
unfolding member_finding code_shape str
member_finding-well_formed edge l p = rw (is_empty-append, p) (ground arith)

module _ (edge : ImportEdge) where
  codes_of_bare :
      codes (single (bare_finding edge)) ≡ some ((bare_finding edge).code ∷ [])
      → codes (single (bare_finding edge)) ≡ some tb053
  unfolding bare_finding
  codes_of_bare h = h

  codes_of_member :
      codes (single (member_finding edge)) ≡ some ((member_finding edge).code ∷ [])
      → codes (single (member_finding edge)) ≡ some tb053
  unfolding member_finding
  codes_of_member h = h

  form_of_word :
      (w : Str)
      → edge.form.value ≡ w
      → codes (single (bare_finding edge)) ≡ some tb053
      → codes (form_violations edge) ≡ (if w == str "bare" then some tb053 else some [])
  unfolding form_violations
  form_of_word w e h = rw e (ground (arith, h))

  member_of_word :
      (w : Str)
      → edge.form.value ≡ w
      → codes (single (member_finding edge)) ≡ some tb053
      → codes (member_form_violations edge) ≡ (
          if w == str "member"
          then (if edge.target.value == future_module then some [] else some tb053)
          else some [])
  unfolding member_form_violations
  member_of_word w e h = rw e (ground (arith, h))

abbrev word : Bool → Bool → Str
word member aliased = if member then str "member" else if aliased then str "aliased" else str "bare"

bare_word :
    (member aliased : Bool)
    → ◌≡◌ {A = Option (List Str)}
        (if word member aliased == str "bare" then some tb053 else some [])
        (some (if member then [] else if aliased then [] else tb053))
unfolding str list_eq nat_eq
bare_word true aliased = refl
bare_word false true = refl
bare_word false false = refl

member_word :
    (member aliased future : Bool)
    → ◌≡◌ {A = Option (List Str)}
        (if word member aliased == str "member"
          then (if future then some [] else some tb053)
          else some [])
        (some (if member then (if future then [] else tb053) else []))
unfolding str list_eq nat_eq
member_word true aliased true = refl
member_word true aliased false = refl
member_word false true future = refl
member_word false false future = refl

-- Every import that could be recorded can be judged without an error. An import of a module with no alias gives one
-- finding, an import of names gives one too unless it is from `__future__`, each with the code TB053, and no import
-- gives both.
pub codes-import_edge :
    (spec : ImportEdgeSpec) {edge : ImportEdge}
    → import_edge spec ≡ ok edge
    → (codes (form_violations edge)
        ≡ some (if spec.member_form then [] else if spec.aliased then [] else str "TB053" ∷ []))
      × (codes (member_form_violations edge)
          ≡ some (
              if spec.member_form
              then (if spec.target == str "__future__" then [] else str "TB053" ∷ [])
              else []))
unfolding str future_module
codes-import_edge spec {edge} h =
    let (target, form, lineno, path) = edge_fields spec h in
    let bare =
      codes_of_bare edge
        (codes-single (bare_finding edge) (bare_finding-well_formed edge lineno path)) in
    let member =
      codes_of_member edge
        (codes-single (member_finding edge) (member_finding-well_formed edge lineno path)) in
    (
      form_of_word edge _ form bare ∙ bare_word spec.member_form spec.aliased,
      member_of_word edge _ form member
          ∙ rw target (member_word spec.member_form spec.aliased (spec.target == future_module)),
    )

-- There are as many findings as there are specifications of them, so none only if there is no specification.
pub is_empty-traverse :
    (specs : List ViolationSpec) {vs : List Violation}
    → traverse violation specs ≡ ok vs
    → is_empty vs ≡ is_empty specs
unfolding traverse
is_empty-traverse [] h = ground arith
is_empty-traverse (s ∷ specs) h = ground arith

-- Findings that are all well formed can all be made.
pub succeeds-traverse :
    (specs : List ViolationSpec)
    → all well_formed specs ≡ true
    → succeeds (traverse violation specs) ≡ true
unfolding traverse
succeeds-traverse [] h = refl
succeeds-traverse (s ∷ specs) h =
    ground (arith, succeeds-violation s, succeeds-traverse specs (ground arith))
