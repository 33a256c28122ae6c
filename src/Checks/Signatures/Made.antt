-- ===== src/Checks/Signatures/Made.antt =====
-- The findings on a signature can be made, whatever the signature is.
use tesser_build.Prelude.{
  Str, str, ltb, Bool, true, not, ◌&&◌, ◌≡◌, refl, List, [], ◌∷◌, ◌++◌, ◌==◌, list_eq, nat_eq,
  contains, ok, succeeds, traverse, ◌>>=◌, Result-cases, inl, inr, Option, none, some, arith,
  if◌then◌else◌,
}
use tesser_build.Prelude.Dict.{lookup}
use tesser_build.Prelude.Lists.{all, all-append, is_empty, is_empty-append, is_none}
use tesser_build.Checks.Values.{Text, code_shape}
use tesser_build.Checks.Violations.{ViolationSpec, Violation, violation}
use tesser_build.Checks.Violations.Laws.{well_formed, succeeds-traverse}
use tesser_build.Checks.Signatures.{Slot, Signature}
use tesser_build.Checks.Signatures.BlockNames.{ts_names, spec_blocks, spec_parameter, item_of}
use tesser_build.Checks.Signatures.Policy.{
  SignaturePolicy, finding, accepted, block_text, count_findings, slot_findings, each_slot,
  return_findings, signature_violations,
}

-- What the constructors give: a place in the source, and a code of the right shape.
abbrev pub is_made : SignaturePolicy → Signature → Bool
is_made p s =
    (not (is_empty s.where_text.value) && not (is_empty s.path.value))
    && (ltb 0 s.lineno.value && code_shape p.code.value)

abbrev has_name : Text → Bool
has_name t = not (is_none (lookup t.value ts_names))

abbrev result_has_name : Option Text → Bool
result_has_name none = true
result_has_name (some t) = has_name t

-- The blocks of a policy are blocks that have a name.
abbrev pub blocks_known : SignaturePolicy → Bool
blocks_known p = has_name p.param_block && result_has_name p.return_block

succeeds-item_of :
    (repr : Str → Str) (k : Str)
    → succeeds (item_of repr ts_names k) ≡ not (is_none (lookup k ts_names))
unfolding item_of
succeeds-item_of repr k = ground arith

tb080 : code_shape (str "TB080") ≡ true
unfolding code_shape str
tb080 = refl

all-if {ℓ} :
    {A : Type ℓ} (q : A → Bool) (b : Bool) (xs ys : List A)
    → all q xs ≡ true
    → all q ys ≡ true
    → all q (if b then xs else ys) ≡ true
all-if q b xs ys h k = ground arith

module _ (repr : Str → Str) (p : SignaturePolicy) (s : Signature) (made : is_made p s ≡ true) where
  well_formed-finding :
      (c m : Str) → code_shape c ≡ true → well_formed (finding s c (s.where_text.value ++ m)) ≡ true
  unfolding finding
  well_formed-finding c m h = ground (arith, is_empty-append s.where_text.value m)

  one_well_formed :
      (c m : Str)
      → code_shape c ≡ true
      → all well_formed (finding s c (s.where_text.value ++ m) ∷ []) ≡ true
  one_well_formed c m h = ground (arith, well_formed-finding c m h)

  all-well_formed-count : all well_formed (count_findings repr p s) ≡ true
  unfolding count_findings
  all-well_formed-count =
      let code_ok : code_shape p.code.value ≡ true = ground arith in
      ground (arith, λ (m : Str). well_formed-finding p.code.value m code_ok)

  all-well_formed-slot :
      (expected : Str) (slot : Slot) → all well_formed (slot_findings repr p s expected slot) ≡ true
  unfolding slot_findings
  all-well_formed-slot expected slot =
      all-if well_formed (not (contains (accepted p p.param_block.value) (block_text slot.block))) _
        _ (one_well_formed p.code.value _ (ground arith))
        (all-if well_formed
          (contains spec_blocks p.param_block.value && not (slot.name.value == spec_parameter)) _ _
          (one_well_formed (str "TB080") _ tb080) refl)

  all-well_formed-slots :
      (expected : Str) (slots : List Slot)
      → all well_formed (each_slot repr p s expected slots) ≡ true
  unfolding each_slot
  all-well_formed-slots expected [] = refl
  all-well_formed-slots expected (slot ∷ slots) = ground (
    arith,
    all-append well_formed (slot_findings repr p s expected slot)
        (each_slot repr p s expected slots),
    all-well_formed-slot expected slot,
    all-well_formed-slots expected slots,
  )

  succeeds-returned :
      (block : Option Text)
      → result_has_name block ≡ true
      → succeeds (return_findings repr p s block) ≡ true
  unfolding return_findings
  succeeds-returned none h = refl
  succeeds-returned (some block) h = ground (arith, succeeds-item_of repr block.value)

  all-well_formed-returned :
      (block : Option Text) {specs : List ViolationSpec}
      → return_findings repr p s block ≡ ok specs
      → all well_formed specs ≡ true
  unfolding return_findings
  all-well_formed-returned none h = ground arith
  all-well_formed-returned (some block) h =
      let code_ok : code_shape p.code.value ≡ true = ground arith in
      ground (arith, λ (m : Str). well_formed-finding p.code.value m code_ok)

  succeeds-run_return :
      (block : Option Text) (first : List Violation)
      → result_has_name block ≡ true
      → succeeds (do
        returned ← return_findings repr p s block
        of_return ← traverse violation returned
        ok (first ++ of_return))
        ≡ true
  succeeds-run_return block first h = elim (Result-cases (return_findings repr p s block)) [
    | inl (m, e) ↦ absurd (ground (arith, succeeds-returned block h))
    | inr (specs, e) ↦ ground (arith, succeeds-traverse specs (all-well_formed-returned block e))
  ]

  -- The findings on a signature can be made, if the signature and the code of the policy are as the constructors make them
  -- and the blocks of the policy have names in the table.
  pub succeeds-signature_violations :
      blocks_known p ≡ true → succeeds (signature_violations repr p s) ≡ true
  unfolding signature_violations
  succeeds-signature_violations known =
      elim (Result-cases (item_of repr ts_names p.param_block.value)) [
        | inl (m, e) ↦ absurd (ground (arith, succeeds-item_of repr p.param_block.value))
        | inr (expected, e) ↦
            let first = count_findings repr p s ++ each_slot repr p s expected s.params in
            let fine : all well_formed first ≡ true = ground (
              arith,
              all-append well_formed (count_findings repr p s)
                  (each_slot repr p s expected s.params),
              all-well_formed-count,
              all-well_formed-slots expected s.params,
            ) in
            elim (Result-cases (traverse violation first)) [
              | inl (m, e') ↦ absurd (ground (arith, succeeds-traverse first fine))
              | inr (vs, e') ↦ ground (arith, succeeds-run_return p.return_block vs (ground arith))
            ]
      ]
