-- ===== src/Checks/Signatures/Policy.antt =====
-- `SignaturePolicy` of tessercheck-py/tessercheck/domain/checks.py. `repr` is Python's `repr` of a text.
use tesser_build.Prelude.{
  Str, str, str_of_nat, eqb, Bool, false, not, ◌&&◌, List, [], ◌∷◌, ◌++◌, ◌==◌, list_eq, nat_eq,
  contains, pos, Result, ok, traverse, ◌>>=◌, Option, none, some, if◌then◌else◌,
}
use tesser_build.Prelude.Lists.{length}
use tesser_build.Checks.Values.{Code, code, Text, text, optional_text}
use tesser_build.Checks.Violations.{ViolationSpec, Violation, violation}
use tesser_build.Checks.Names.{Names, names, holds_any}
use tesser_build.Checks.Blocks.{relay_message_block}
use tesser_build.Checks.Signatures.{Slot, Signature}
use tesser_build.Checks.Signatures.BlockNames.{ts_names, spec_blocks, spec_parameter, item_of}

pub record SignaturePolicySpec : Type 0 where
  pub param_block : Str
  pub return_block : Option Str
  pub subject : Str
  pub code : Str
  pub taking : Str
  pub constructs : Str
  pub relayed : Bool

pub record SignaturePolicy : Type 0 where
  pub param_block : Text
  pub return_block : Option Text
  pub subject : Text
  pub code : Code
  pub taking : Text
  pub constructs : Option Text
  pub relayed : Names

unfoldable pub signature_policy : SignaturePolicySpec → Result SignaturePolicy
unfolding text optional_text code names
signature_policy spec = do
  p ← text spec.param_block
  r ← optional_text spec.return_block
  s ← text spec.subject
  c ← code spec.code
  t ← text spec.taking
  k ← optional_text (some spec.constructs)
  ok (record {
    param_block = p;
    return_block = r;
    subject = s;
    code = c;
    taking = t;
    constructs = k;
    relayed = names (if spec.relayed then str "relayed" ∷ [] else []);
  })

abbrev as_list : Option Str → List Str
as_list none = []
as_list (some b) = b ∷ []

-- The block that is expected, and the relay's block for it where the signature is relayed.
unfoldable pub accepted : SignaturePolicy → Str → List Str
unfolding relay_message_block holds_any
accepted p block = block ∷ (if holds_any p.relayed then as_list (relay_message_block block) else [])

-- `str(slot.block())`
abbrev pub block_text : Option Text → Str
block_text none = str "None"
block_text (some t) = t.value

unfoldable pub finding : Signature → Str → Str → ViolationSpec
finding s c message = record {
  path = s.path.value;
  line = pos (s.lineno.value);
  code = c;
  message = message;
  rename = none;
}

module _ (repr : Str → Str) (p : SignaturePolicy) (s : Signature) where
  -- The findings on the number of the parameters.
  unfoldable pub count_findings : List ViolationSpec
  unfolding holds_any finding
  count_findings =
      (if holds_any s.open_params
        then finding s p.code.value
            (s.where_text.value ++ (str " uses *args/**kwargs; " ++ p.taking.value))
          ∷ []
        else [])
      ++ (if eqb (length s.params) 1
          then []
          else finding s p.code.value (
              s.where_text.value
              ++ (str " takes "
                  ++ (str_of_nat (length s.params) ++ (str " parameters; " ++ p.taking.value))))
            ∷ [])

  -- The findings on one parameter.
  unfoldable pub slot_findings : Str → Slot → List ViolationSpec
  unfolding finding contains
  slot_findings expected slot =
      if not (contains (accepted p p.param_block.value) (block_text slot.block))
      then finding s p.code.value (
          s.where_text.value
          ++ (str " parameter "
              ++ (repr slot.name.value
                  ++ (str " is not a " ++ (expected ++ (str "; " ++ p.taking.value))))))
        ∷ []
      else if contains spec_blocks p.param_block.value && not (slot.name.value == spec_parameter)
      then finding s (str "TB080") (
          s.where_text.value
          ++ (str " names its spec "
              ++ (repr slot.name.value
                  ++ str
                      "; a constructor's one spec is named spec, because the annotation already says which spec it is")))
        ∷ []
      else []

  unfoldable pub each_slot : Str → List Slot → List ViolationSpec
  unfolding slot_findings
  each_slot expected [] = []
  each_slot expected (slot ∷ slots) = slot_findings expected slot ++ each_slot expected slots

  -- `returns is not None and str(returns.block()) in answered`
  abbrev pub answers : Str → Option Slot → Bool
  answers block none = false
  answers block (some slot) = contains (accepted p block) (block_text slot.block)

  -- The finding on the result.
  unfoldable pub return_findings : Option Text → Result (List ViolationSpec)
  unfolding contains finding item_of
  return_findings none = ok []
  return_findings (some block) = if answers block.value s.returns then ok [] else (do
    name ← item_of repr ts_names block.value
    ok (
        finding s p.code.value (
          s.where_text.value
          ++ (str " does not return a "
              ++ (name ++ (str "; " ++ (p.subject.value ++ (str " returns a " ++ name))))))
        ∷ []))

  unfoldable pub signature_violations : Result (List Violation)
  unfolding item_of count_findings each_slot return_findings violation traverse
  signature_violations = do
    expected ← item_of repr ts_names p.param_block.value
    of_params ← traverse violation (count_findings ++ each_slot expected s.params)
    returned ← return_findings p.return_block
    of_return ← traverse violation returned
    ok (of_params ++ of_return)
