-- ===== src/Checks/Signatures/Touched.antt =====
-- Which classes speak records only.
use tesser_build.Prelude.{
  Str, str, ◌==◌, ◌||◌, Bool, true, not, ◌&&◌, ◌≡◌, ◌∙◌, refl, ◌++◌, List, [], ◌∷◌, list_eq, nat_eq,
  contains, Result, ok, >>=-eq-ok, Option, none, some, arith,
}
use tesser_build.Prelude.Lists.{all, all-append, is_empty, is_empty-append, is_none}
use tesser_build.Checks.Values.{Text}
use tesser_build.Checks.Violations.{Violation, violation}
use tesser_build.Checks.Signatures.{Slot, Signature}
use tesser_build.Checks.Signatures.BlockNames.{domain_object_blocks, kind_names, item_of}
use tesser_build.Checks.Signatures.Records.{
  RecordSignaturePolicy, slots_of, slot_list, touched_object, carried_object, each_found,
  slot_object, signature_objects, record_violations,
}

abbrev is_object_block : Str → Bool
is_object_block b =
    b == str "aggregate" || (b == str "entity" || (b == str "valueobject" || b == str "outcome"))

-- A slot that touches no block of a domain object.
abbrev pub speaks_records : Slot → Bool
speaks_records slot = all (λ (b : Text). not (is_object_block b.value)) slot.touched

-- A parameter or a result that, if there is one, touches no block of a domain object.
abbrev pub speaks_if_given : Option Slot → Bool
speaks_if_given none = true
speaks_if_given (some slot) = speaks_records slot

-- A method that speaks records: its first parameter, the others and its result.
abbrev pub method_speaks : Signature → Bool
method_speaks s =
    speaks_if_given s.leading && (all speaks_records s.params && speaks_if_given s.returns)

all-slot_list : (o : Option Slot) → all speaks_records (slot_list o) ≡ speaks_if_given o
all-slot_list none = refl
all-slot_list (some slot) = ground arith

all_three :
    (leading : Option Slot) (params : List Slot) (returns : Option Slot)
    → all speaks_records (slot_list leading ++ (params ++ slot_list returns))
      ≡ (speaks_if_given leading && (all speaks_records params && speaks_if_given returns))
all_three leading params returns = ground (
  arith,
  all-append speaks_records (slot_list leading) (params ++ slot_list returns),
  all-append speaks_records params (slot_list returns),
  all-slot_list leading,
  all-slot_list returns,
)

all-slots_of : (s : Signature) → all speaks_records (slots_of s) ≡ method_speaks s
unfolding slots_of
all-slots_of s = all_three s.leading s.params s.returns

is_none-touched_object :
    (blocks : List Text)
    → is_none (touched_object blocks) ≡ all (λ (b : Text). not (is_object_block b.value)) blocks
unfolding touched_object domain_object_blocks contains
is_none-touched_object [] = refl
is_none-touched_object (b ∷ blocks) = ground (arith, is_none-touched_object blocks)

is_empty-carried_object :
    (repr : Str → Str) (p : RecordSignaturePolicy) (s : Signature) (block : Option Str)
    → {vs : List Violation} → carried_object repr p s block ≡ ok vs
    → is_empty vs ≡ is_none block
is_empty-carried_object repr p s none h = ground arith
is_empty-carried_object repr p s (some block) h =
    let (name, e, run) = >>=-eq-ok (item_of repr kind_names block) _ h in
    let (v, e', whole) = >>=-eq-ok (violation _) _ run in ground arith

-- A loop finds nothing exactly when no round does.
is_empty-each_found {ℓ} :
    {A : Type ℓ} (f : A → Result (List Violation)) (q : A → Bool) (xs : List A)
    {vs : List Violation}
    → ((x : A) (found : List Violation) → f x ≡ ok found → is_empty found ≡ q x)
    → each_found f xs ≡ ok vs
    → is_empty vs ≡ all q xs
is_empty-each_found f q [] each h = ground arith
is_empty-each_found f q (x ∷ xs) each h =
    let (first, e, run) = >>=-eq-ok (f x) _ h in
    let (rest, e', whole) = >>=-eq-ok (each_found f xs) _ run in
    ground (arith, is_empty-append first rest, each x first e, is_empty-each_found f q xs each e')

module _ (repr : Str → Str) (p : RecordSignaturePolicy) where
  is_empty-slot_object :
      (s : Signature) (slot : Slot) (found : List Violation)
      → slot_object repr p s slot ≡ ok found
      → is_empty found ≡ speaks_records slot
  unfolding slot_object
  is_empty-slot_object s slot found h = ground (
    arith,
    is_empty-carried_object repr p s (touched_object slot.touched) h,
    is_none-touched_object slot.touched,
  )

  is_empty-signature_objects :
      (s : Signature) (found : List Violation)
      → signature_objects repr p s ≡ ok found
      → is_empty found ≡ method_speaks s
  unfolding signature_objects
  is_empty-signature_objects s found h =
      is_empty-each_found (slot_object repr p s) speaks_records (slots_of s)
        (is_empty-slot_object s) h
      ∙ all-slots_of s

  -- When the findings on the methods of a class can be made, there is none exactly when no parameter, leading
  -- ones included, and no result of a method touches a block of a domain object.
  pub record_violations_empty :
      (signatures : List Signature) {vs : List Violation}
      → record_violations repr p signatures ≡ ok vs
      → is_empty vs ≡ all method_speaks signatures
  unfolding record_violations
  record_violations_empty signatures h =
      is_empty-each_found (signature_objects repr p) method_speaks signatures
        is_empty-signature_objects h
