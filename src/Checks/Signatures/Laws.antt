-- ===== src/Checks/Signatures/Laws.antt =====
-- Which signatures have no finding.
use tesser_build.Prelude.Dict.{lookup}
use tesser_build.Checks.Blocks.{relay_message_block}
use tesser_build.Prelude.{
  Str, str, false, eq→≡, eqb, Bool, true, not, ◌&&◌, ◌||◌, ◌≡◌, refl, List, [], ◌∷◌, ◌++◌, ◌==◌,
  list_eq, nat_eq, contains, ok, >>=-eq-ok, traverse, Option, none, some, arith,
}
use tesser_build.Prelude.Lists.{length, all, is_empty, is_empty-append, both_empty}
use tesser_build.Checks.Values.{Text}
use tesser_build.Checks.Violations.{ViolationSpec, Violation, violation}
use tesser_build.Checks.Violations.Laws.{is_empty-traverse}
use tesser_build.Checks.Names.{holds_any}
use tesser_build.Checks.Signatures.{Slot, Signature}
use tesser_build.Checks.Signatures.BlockNames.{ts_names, spec_blocks, spec_parameter, item_of}
use tesser_build.Checks.Signatures.Policy.{
  SignaturePolicy, accepted, block_text, answers, count_findings, slot_findings, each_slot,
  return_findings, signature_violations,
}

-- A block that stands for another in a signature: itself, and in a relay the relay's message for a port's.
abbrev pub stands_for : Bool → Str → Str → Bool
stands_for relayed wanted given =
    given == wanted
    || (relayed
        && ((wanted == str "port_request" && given == str "relay_request")
            || (wanted == str "port_response" && given == str "relay_response")))

messages_differ : (str "port_request" == str "port_response") ≡ false
unfolding str list_eq nat_eq
messages_differ = refl

contains-accepted :
    (p : SignaturePolicy) (wanted given : Str)
    → contains (accepted p wanted) given ≡ stands_for (holds_any p.relayed) wanted given
unfolding accepted relay_message_block contains lookup
contains-accepted p wanted given = ground (arith, eq→≡ wanted (str "port_request"), messages_differ)

abbrev is_spec_block : Str → Bool
is_spec_block b = b == str "spec" || (b == str "component_spec" || b == str "app_spec")

-- A parameter that a policy takes: of the block that is asked for, and named spec if it is a specification.
abbrev fits : SignaturePolicy → Slot → Bool
fits p slot =
    stands_for (holds_any p.relayed) p.param_block.value (block_text slot.block)
    && (not (is_spec_block p.param_block.value) || slot.name.value == str "spec")

-- The result is of the block that is asked for, if one is.
abbrev answers_as : SignaturePolicy → Option Slot → Option Text → Bool
answers_as p returned none = true
answers_as p none (some block) = false
answers_as p (some slot) (some block) =
    stands_for (holds_any p.relayed) block.value (block_text slot.block)

answers-stands_for :
    (repr : Str → Str) (p : SignaturePolicy) (s : Signature) (block : Text) (returned : Option Slot)
    → answers repr p s block.value returned ≡ answers_as p returned (some block)
answers-stands_for repr p s block none = refl
answers-stands_for repr p s block (some slot) =
    contains-accepted p block.value (block_text slot.block)

-- A signature that a policy asks for: one parameter, which the policy takes, no open ones, and the result of
-- the block that is asked for, if one is.
abbrev pub obeys : SignaturePolicy → Signature → Bool
obeys p s =
    (not (holds_any s.open_params) && eqb (length s.params) 1)
    && (all (fits p) s.params && answers_as p s.returns p.return_block)

module _ (repr : Str → Str) (p : SignaturePolicy) (s : Signature) where
  is_empty-count_findings :
      is_empty (count_findings repr p s)
      ≡ (not (holds_any s.open_params) && eqb (length s.params) 1)
  unfolding count_findings
  is_empty-count_findings = ground arith

  is_empty-slot_findings :
      (expected : Str) (slot : Slot) → is_empty (slot_findings repr p s expected slot) ≡ fits p slot
  unfolding slot_findings spec_parameter spec_blocks contains
  is_empty-slot_findings expected slot =
      ground (arith, contains-accepted p p.param_block.value (block_text slot.block))

  is_empty-each_slot :
      (expected : Str) (slots : List Slot)
      → is_empty (each_slot repr p s expected slots) ≡ all (fits p) slots
  unfolding each_slot
  is_empty-each_slot expected [] = refl
  is_empty-each_slot expected (slot ∷ slots) =
      both_empty (slot_findings repr p s expected slot) (each_slot repr p s expected slots)
        (is_empty-slot_findings expected slot) (is_empty-each_slot expected slots)

  is_empty-return_findings :
      (block : Option Text) {specs : List ViolationSpec}
      → return_findings repr p s block ≡ ok specs
      → is_empty specs ≡ answers_as p s.returns block
  unfolding return_findings
  is_empty-return_findings none h = ground arith
  is_empty-return_findings (some block) h =
      ground (arith, answers-stands_for repr p s block s.returns)

  -- When the findings on a signature can be made, there is none exactly when the signature is as the policy
  -- asks: one parameter, of the block that is asked for and named spec if it is a specification, no open
  -- parameter, and a result of the block that is asked for, if one is.
  pub signature_violations_empty :
      {vs : List Violation} → signature_violations repr p s ≡ ok vs → is_empty vs ≡ obeys p s
  unfolding signature_violations
  signature_violations_empty h =
      let (expected, known, run) = >>=-eq-ok (item_of repr ts_names p.param_block.value) _ h in
      let first = count_findings repr p s ++ each_slot repr p s expected s.params in
      let (of_params, e, run') = >>=-eq-ok (traverse violation first) _ run in
      let (returned, e', run'') = >>=-eq-ok (return_findings repr p s p.return_block) _ run' in
      let (of_return, e'', whole) = >>=-eq-ok (traverse violation returned) _ run'' in
      ground (
        arith,
        is_empty-append of_params of_return,
        is_empty-traverse first e,
        is_empty-traverse returned e'',
        both_empty (count_findings repr p s) (each_slot repr p s expected s.params)
            is_empty-count_findings (is_empty-each_slot expected s.params),
        is_empty-return_findings p.return_block e',
      )
