-- ===== src/Tests/Signed.antt =====
-- A constructor that takes one specification, and a repository that speaks records.
use tesser_build.Prelude.{
  str, ◌≡◌, refl, true, false, pos, [], ◌∷◌, list_eq, nat_eq, list_ord, nat_ord, ok, some, none,
  succeeds, Str, ◌++◌,
}
use tesser_build.Prelude.Dict.{lookup}
use tesser_build.Prelude.Lists.{is_empty, all}
use tesser_build.Checks.Values.{code_shape}
use tesser_build.Checks.Violations.{Violation}
use tesser_build.Checks.Signatures.{Slot, SlotSpec, Signature, SignatureSpec, signature}
use tesser_build.Checks.Signatures.BlockNames.{
  ts_names, spec_blocks, spec_parameter, domain_object_blocks,
}
use tesser_build.Checks.Signatures.Policy.{
  SignaturePolicy, SignaturePolicySpec, accepted, signature_policy, signature_violations,
}
use tesser_build.Checks.Signatures.Classes.{ClassDecl, constructed, constructed_empty, first_obeys}
use tesser_build.Checks.Signatures.Made.{succeeds-signature_violations, is_made, blocks_known}
use tesser_build.Checks.Signatures.Records.{RecordSignaturePolicy, record_violations}
use tesser_build.Checks.Signatures.Touched.{record_violations_empty, method_speaks}

-- `repr` of a text without quotes and escapes
abbrev quoted : Str → Str
quoted s = b'\'' ∷ (s ++ b'\'' ∷ [])

abbrev policy_spec : SignaturePolicySpec
policy_spec = record {
  param_block = str "spec";
  return_block = none;
  subject = str "a value object";
  code = str "TB080";
  taking = str "a constructor takes exactly one ts.Spec";
  constructs = str "a value object";
  relayed = false;
}

abbrev policy : SignaturePolicy
policy = record {
  param_block = record { value = str "spec" };
  return_block = none;
  subject = record { value = str "a value object" };
  code = record { value = str "TB080" };
  taking = record { value = str "a constructor takes exactly one ts.Spec" };
  constructs = some (record { value = str "a value object" });
  relayed = record { items = [] };
}

policy_made : signature_policy policy_spec ≡ ok policy
unfolding signature_policy code_shape str list_eq nat_eq list_ord nat_ord
policy_made = refl

abbrev slot_spec : Str → SlotSpec
slot_spec name = record {
  name = name;
  block = some (str "spec");
  touched = str "spec" ∷ [];
  symbol = none;
}

abbrev signature_spec : SignatureSpec
signature_spec = record {
  where_text = str "shop.domain.Money.__init__";
  path = str "shop/domain/__init__.py";
  lineno = pos 7;
  name = str "__init__";
  open_params = [];
  params = slot_spec (str "spec") ∷ [];
  returns = none;
  leading = none;
}

abbrev spec_slot : Slot
spec_slot = record {
  name = record { value = str "spec" };
  block = some (record { value = str "spec" });
  touched = record { value = str "spec" } ∷ [];
  symbol = none;
}

abbrev init : Signature
init = record {
  where_text = record { value = str "shop.domain.Money.__init__" };
  path = record { value = str "shop/domain/__init__.py" };
  lineno = record { value = 7 };
  name = record { value = str "__init__" };
  open_params = record { items = [] };
  params = spec_slot ∷ [];
  returns = none;
  leading = none;
}

init_made : signature signature_spec ≡ ok init
unfolding signature str list_eq nat_eq list_ord nat_ord
init_made = refl

abbrev money : ClassDecl
money = record {
  module_name = record { value = str "shop.domain" };
  path = record { value = str "shop/domain/__init__.py" };
  name = record { value = str "Money" };
  lineno = record { value = 5 };
  signatures = init ∷ [];
}

money_passes : constructed quoted policy money ≡ ok []
unfolding constructed accepted ts_names spec_blocks spec_parameter str list_eq nat_eq
money_passes = refl

constructed_empty_example : is_empty {A = Violation} [] ≡ first_obeys policy (init ∷ [])
constructed_empty_example = constructed_empty quoted policy money money_passes

init-is_made : is_made policy init ≡ true
unfolding code_shape str
init-is_made = refl

known : blocks_known policy ≡ true
unfolding lookup ts_names str list_eq nat_eq
known = refl

succeeds-signature_violations_example : succeeds (signature_violations quoted policy init) ≡ true
succeeds-signature_violations_example =
    succeeds-signature_violations quoted policy init init-is_made known

abbrev records : RecordSignaturePolicy
records = record { subject = record { value = str "a repository" } }

no_objects : record_violations quoted records (init ∷ []) ≡ ok []
unfolding record_violations domain_object_blocks str list_eq nat_eq
no_objects = refl

record_violations_empty_example : is_empty {A = Violation} [] ≡ all method_speaks (init ∷ [])
record_violations_empty_example = record_violations_empty quoted records (init ∷ []) no_objects
