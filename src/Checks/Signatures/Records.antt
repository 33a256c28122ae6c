-- ===== src/Checks/Signatures/Records.antt =====
-- `RecordSignaturePolicy` and `DependencyPolicy` of tessercheck-py/tessercheck/domain/checks.py. A class is given
-- by the signatures of its methods; `repr` is Python's `repr` of a text.
use tesser_build.Prelude.{
  Str, str, Bool, false, ◌&&◌, ◌||◌, List, [], ◌∷◌, ◌++◌, ◌==◌, list_eq, nat_eq, contains, pos,
  Result, ok, traverse, ◌>>=◌, Option, none, some, if◌then◌else◌,
}
use tesser_build.Checks.Values.{Text, text}
use tesser_build.Checks.Violations.{ViolationSpec, Violation, violation}
use tesser_build.Checks.Names.{Names, names, holds_any}
use tesser_build.Checks.Signatures.{Slot, Signature}
use tesser_build.Checks.Signatures.BlockNames.{
  kind_names, domain_object_blocks, relay_block, item_of,
}

pub record RecordSignaturePolicy : Type 0 where
  pub subject : Text

unfoldable pub record_signature_policy : Str → Result RecordSignaturePolicy
unfolding text
record_signature_policy subject = do s ← text subject; ok (record { subject = s })

abbrev pub slot_list : Option Slot → List Slot
slot_list none = []
slot_list (some slot) = slot ∷ []

-- The first parameter, the others and the result.
unfoldable pub slots_of : Signature → List Slot
slots_of s = slot_list s.leading ++ (s.params ++ slot_list s.returns)

-- The first block that is a domain object's.
unfoldable pub touched_object : List Text → Option Str
unfolding contains
touched_object [] = none
touched_object (b ∷ blocks) =
    if contains domain_object_blocks b.value then some b.value else touched_object blocks

unfoldable pub tb081 : Signature → Str → ViolationSpec
tb081 s message = record {
  path = s.path.value;
  line = pos (s.lineno.value);
  code = str "TB081";
  message = message;
  rename = none;
}

abbrev pub carried_object :
    (Str → Str) → RecordSignaturePolicy → Signature → Option Str → Result (List Violation)
carried_object repr p s none = ok []
carried_object repr p s (some block) = do
  name ← item_of repr kind_names block
  v ← violation (
      tb081 s (
        s.where_text.value
        ++ (str " carries "
            ++ (name
                ++ (str " in its signature; "
                    ++ (p.subject.value ++ str " speaks records, never domain objects"))))))
  ok (v ∷ [])

-- The runs of a loop, one after the other, with what they find.
abbrev pub each_found {ℓ} :
    {A : Type ℓ} → (A → Result (List Violation)) → List A → Result (List Violation)
each_found f [] = ok []
each_found f (x ∷ xs) = do first ← f x; rest ← each_found f xs; ok (first ++ rest)

unfoldable pub slot_object :
    (Str → Str) → RecordSignaturePolicy → Signature → Slot → Result (List Violation)
unfolding touched_object item_of violation tb081
slot_object repr p s slot = carried_object repr p s (touched_object slot.touched)

unfoldable pub signature_objects :
    (Str → Str) → RecordSignaturePolicy → Signature → Result (List Violation)
unfolding slot_object slots_of
signature_objects repr p s = each_found (slot_object repr p s) (slots_of s)

unfoldable pub record_violations :
    (Str → Str) → RecordSignaturePolicy → List Signature → Result (List Violation)
unfolding signature_objects
record_violations repr p signatures = each_found (signature_objects repr p) signatures

pub record DependencyPolicySpec : Type 0 where
  pub subject : Str
  pub expected : Str
  pub allowed : Str
  pub relay_ok : Bool

pub record DependencyPolicy : Type 0 where
  pub subject : Text
  pub expected : Text
  pub allowed : Text
  pub relay_ok : Names

unfoldable pub dependency_policy : DependencyPolicySpec → Result DependencyPolicy
unfolding text names
dependency_policy spec = do
  s ← text spec.subject
  e ← text spec.expected
  a ← text spec.allowed
  ok (record {
    subject = s;
    expected = e;
    allowed = a;
    relay_ok = names (if spec.relay_ok then str "relay" ∷ [] else []);
  })

abbrev is_block : Str → Option Text → Bool
is_block wanted none = false
is_block wanted (some b) = b.value == wanted

dependency_findings : (Str → Str) → DependencyPolicy → Signature → Slot → List ViolationSpec
unfolding holds_any tb081
dependency_findings repr p s slot =
    if holds_any p.relay_ok && is_block relay_block slot.block
    then []
    else if is_block (str "port") slot.block || is_block (str "store") slot.block
    then []
    else tb081 s (
        s.where_text.value
        ++ (str " parameter "
            ++ (repr slot.name.value
                ++ (str " is not "
                    ++ (p.expected.value
                        ++ (str "; "
                            ++ (p.subject.value
                                ++ (str " depends only on " ++ p.allowed.value))))))))
      ∷ []

abbrev each_dependency : (Slot → List ViolationSpec) → List Slot → List ViolationSpec
each_dependency f [] = []
each_dependency f (slot ∷ slots) = f slot ++ each_dependency f slots

unfoldable pub dependency_violations :
    (Str → Str) → DependencyPolicy → Signature → Result (List Violation)
unfolding dependency_findings violation traverse
dependency_violations repr p s =
    traverse violation (each_dependency (dependency_findings repr p s) s.params)
