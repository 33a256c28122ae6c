-- ===== src/Generator/Tree/Fields.antt =====
-- The problems with the fields, the samples and the read response of a specification.
use tesser_build.Prelude.{
  ℕ, suc, Str, str, str_of_nat, split, join, eqb, ltb, Bool, not, ◌&&◌, List, [], ◌∷◌, ◌++◌, map,
  ◌==◌, list_eq, nat_eq, list_ord, nat_ord, contains, Option, none, some, if◌then◌else◌,
}
use tesser_build.Prelude.Dict.{keys, lookup}
use tesser_build.Prelude.Lists.{any, keep, length}
use tesser_build.Prelude.Sets.{to_set}
use tesser_build.Prelude.Sorting.{sorted, sorted_set}
use tesser_build.Prelude.Regex.{fullmatch}
use tesser_build.Generator.Tree.Shapes.{field_types, reserved, snake, sample_text, identity_text}
use tesser_build.Generator.Tree.Spec.{TreeSpec, Sample, say, kinds, sampled}

-- What one round of each of the loops finds, one after the other.
abbrev pub each {ℓ} : {A : Type ℓ} → (A → List Str) → List A → List Str
each f [] = []
each f (x ∷ xs) = f x ++ each f xs

abbrev pub when : Bool → List Str → List Str
when test message = if test then say message ∷ [] else []

-- `"".join(part.capitalize() for part in name.split("_"))`
unfoldable pub class_name : (Str → Str) → Str → Str
unfolding split join
class_name capitalize name = join [] (map capitalize (split b'_' name))

-- The classes that the domain module declares beside those of the fields.
unfoldable pub taken : (Str → Str) → TreeSpec → List Str
unfolding class_name
taken capitalize spec =
    spec.aggregate_root_class_name
    ∷ class_name capitalize spec.identity_field_name
    ∷ (spec.aggregate_root_class_name ++ str "Spec")
    ∷ []

unfoldable pub field_problems : (Str → Str) → TreeSpec → Str × Str → List Str
unfolding fullmatch contains keys taken class_name say
field_problems capitalize spec (name, kind) =
    when (not (fullmatch snake name))
      (str "aggregate_fields names '" ∷ name ∷ str "', which is not a snake_case name" ∷ [])
    ++ (when (name == spec.identity_field_name)
          (str "aggregate_fields names '" ∷ name ∷ str "', which is the identity field" ∷ [])
        ++ (when (contains reserved name) (
              str "aggregate_fields names '"
              ∷ name
              ∷ str "', a name the generated tree already uses"
              ∷ [])
            ++ (when (not (contains (keys field_types) kind)) (
                  str "aggregate_fields names '"
                  ∷ name
                  ∷ str "' as '"
                  ∷ kind
                  ∷ str "'; a field is one of "
                  ∷ join (str ", ") (keys field_types)
                  ∷ [])
                ++ when (contains (taken capitalize spec) (class_name capitalize name)) (
                    str "aggregate_fields names '"
                    ∷ name
                    ∷ str "', whose class the domain module already declares"
                    ∷ []))))

unfoldable pub sample_name_problems : TreeSpec → Str → List Str
unfolding contains keys say
sample_name_problems spec name = when (not (contains (keys (kinds spec)) name)) (
    str "sample_values names '"
    ∷ name
    ∷ str "', which is neither the identity field nor an aggregate field"
    ∷ [])

unfoldable pub sample_problems : TreeSpec → Str → Sample → List Str
unfolding fullmatch sample_text identity_text say
sample_problems spec name (value_kind, text) =
    if value_kind == str "str" && not (fullmatch sample_text text)
    then say (
        str "sample value '"
        ∷ text
        ∷ str "' for '"
        ∷ name
        ∷ str "' is not printable ASCII free of quotes and backslashes"
        ∷ [])
      ∷ []
    else when (name == spec.identity_field_name && not (fullmatch identity_text text)) (
        str "sample value '"
        ∷ text
        ∷ str "' for '"
        ∷ name
        ∷ str "' is not letters, digits, '.', '_', '~', and '-'"
        ∷ [])

abbrev text_of : Sample → Str
text_of (value_kind, text) = text

-- The problems with the values of one field.
unfoldable pub values_problems : TreeSpec → Str → Str → Option (List Sample) → List Str
unfolding to_set contains keys sample_problems say
values_problems spec name kind none =
    say (str "sample_values names no values for '" ∷ name ∷ str "'" ∷ []) ∷ []
values_problems spec name kind (some samples) =
    when (not (eqb (length samples) 2)) (
      str "sample_values for '"
      ∷ name
      ∷ str "' holds "
      ∷ str_of_nat (length samples)
      ∷ str " values; each field takes "
      ∷ str_of_nat 2
      ∷ [])
    ++ (when (not (eqb (length (to_set (map text_of samples))) (length samples)))
          (str "sample_values for '" ∷ name ∷ str "' repeats a value; its values differ" ∷ [])
        ++ (when
              (contains (keys field_types) kind && any (λ (s : Sample). not (s.0 == kind)) samples)
              (str "sample_values for '" ∷ name ∷ str "' holds a value that is not a " ∷ kind ∷ [])
            ++ each (sample_problems spec name) samples))

unfoldable pub kind_problems : TreeSpec → Str × Str → List Str
unfolding lookup sampled values_problems
kind_problems spec (name, kind) = values_problems spec name kind (lookup name (sampled spec))

-- `xs.count(x)`
abbrev pub count : List Str → Str → ℕ
count [] x = 0
count (y ∷ ys) x = let rest = count ys x in if y == x then suc rest else rest

unfoldable pub answer_problems : TreeSpec → Str → List Str
unfolding contains keys say
answer_problems spec answer = when (not (contains (keys (kinds spec)) answer)) (
    str "client.read_response_fields names '"
    ∷ answer
    ∷ str "', which is neither the identity field nor an aggregate field"
    ∷ [])

unfoldable pub repeated_answers : TreeSpec → List Str
unfolding to_set sorted say
repeated_answers spec =
    map (λ answer. say (str "client.read_response_fields names '" ∷ answer ∷ str "' twice" ∷ []))
      (sorted_set
        (keep (λ answer. ltb 1 (count spec.read_response_fields answer)) spec.read_response_fields))
