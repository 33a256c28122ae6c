-- ===== src/Checks/Signatures/Classes.antt =====
-- `ClassDecl.constructor` and `SignaturePolicy.missing_constructor_violations` of
-- tessercheck-py/tessercheck/domain/checks.py, and `constructed`, which `Codebase.violations` calls for a class.
use tesser_build.Prelude.{
  Str, str, Bool, false, ◌≡◌, refl, List, [], ◌∷◌, ◌++◌, ◌==◌, list_eq, nat_eq, pos, Result, ok,
  traverse, Option, none, some, Option-cases, inl, inr, if◌then◌else◌, arith,
}
use tesser_build.Prelude.Lists.{is_empty}
use tesser_build.Checks.Values.{FilePath, Line, Text}
use tesser_build.Checks.Violations.{ViolationSpec, Violation, violation}
use tesser_build.Checks.Violations.Laws.{is_empty-traverse}
use tesser_build.Checks.Signatures.{Signature}
use tesser_build.Checks.Signatures.Policy.{SignaturePolicy, signature_violations}
use tesser_build.Checks.Signatures.Laws.{signature_violations_empty, obeys}

-- What is read here of a class.
pub record ClassDecl : Type 0 where
  pub module_name : Text
  pub path : FilePath
  pub name : Text
  pub lineno : Line
  pub signatures : List Signature

abbrev text_or_nothing : Option Text → Str
text_or_nothing none = []
text_or_nothing (some t) = t.value

unfoldable pub constructor_in : List Signature → Option Signature
constructor_in [] = none
constructor_in (s ∷ signatures) =
    let rest = constructor_in signatures in if s.name.value == str "__init__" then some s else rest

unfoldable pub missing_finding : SignaturePolicy → ClassDecl → ViolationSpec
missing_finding p decl = record {
  path = decl.path.value;
  line = pos (decl.lineno.value);
  code = str "TB080";
  message =
      decl.module_name.value
      ++ (b'.' ∷ decl.name.value
          ++ (str " defines no __init__; "
              ++ (text_or_nothing p.constructs ++ str " constructs from exactly one ts.Spec")));
  rename = none;
}

unfoldable pub missing_constructor_violations :
    SignaturePolicy → ClassDecl → Result (List Violation)
unfolding constructor_in violation missing_finding traverse
missing_constructor_violations p decl = elim (constructor_in decl.signatures) [
  | none ↦ traverse violation (missing_finding p decl ∷ [])
  | some init ↦ ok []
]

unfoldable pub constructed : (Str → Str) → SignaturePolicy → ClassDecl → Result (List Violation)
unfolding constructor_in missing_constructor_violations signature_violations
constructed repr p decl = elim (constructor_in decl.signatures) [
  | none ↦ missing_constructor_violations p decl
  | some init ↦ signature_violations repr p init
]

-- The methods before one of the name __init__ do not count, nor those after it; there is such a method, and it is as a
-- policy asks.
abbrev pub first_obeys : SignaturePolicy → List Signature → Bool
first_obeys p [] = false
first_obeys p (s ∷ signatures) =
    if s.name.value == str "__init__" then obeys p s else first_obeys p signatures

abbrev obeys_if_found : SignaturePolicy → Option Signature → Bool
obeys_if_found p none = false
obeys_if_found p (some init) = obeys p init

obeys_if_found-constructor_in :
    (p : SignaturePolicy) (signatures : List Signature)
    → obeys_if_found p (constructor_in signatures) ≡ first_obeys p signatures
unfolding constructor_in
obeys_if_found-constructor_in p [] = refl
obeys_if_found-constructor_in p (s ∷ signatures) =
    ground (arith, obeys_if_found-constructor_in p signatures)

missing_some :
    (p : SignaturePolicy) (decl : ClassDecl) {vs : List Violation}
    → constructor_in decl.signatures ≡ none
    → missing_constructor_violations p decl ≡ ok vs
    → is_empty vs ≡ false
unfolding missing_constructor_violations
missing_some p decl {vs} e h =
    let made : traverse violation (missing_finding p decl ∷ []) ≡ ok vs = ground arith in
    is_empty-traverse (missing_finding p decl ∷ []) made

-- When the findings on the constructor of a class can be made, there is none exactly when the class has an __init__
-- and its first one is as the policy asks: one parameter, of the block that is asked for and named spec if it is a
-- specification, no open parameter, and a result of the block that is asked for, if one is. In a relay the relay's message
-- stands for a port's.
pub constructed_empty :
    (repr : Str → Str) (p : SignaturePolicy) (decl : ClassDecl) {vs : List Violation}
    → constructed repr p decl ≡ ok vs
    → is_empty vs ≡ first_obeys p decl.signatures
unfolding constructed
constructed_empty repr p decl {vs} h = elim (Option-cases (constructor_in decl.signatures)) [
  | inl e ↦
      let made : missing_constructor_violations p decl ≡ ok vs = ground arith in
      ground (arith, missing_some p decl e made, obeys_if_found-constructor_in p decl.signatures)
  | inr (init, e) ↦
      let made : signature_violations repr p init ≡ ok vs = ground arith in
      ground (
        arith,
        signature_violations_empty repr p init made,
        obeys_if_found-constructor_in p decl.signatures,
      )
]
