-- ===== src/Generator/Tree/Fine.antt =====
-- What a specification without problems has.
use tesser_build.Prelude.{
  Str, eqb, Bool, true, false, not, ◌&&◌, ◌≡◌, refl, List, [], ◌∷◌, ◌++◌, ◌==◌, list_eq, nat_eq,
  contains, Option, none, some, arith,
}
use tesser_build.Prelude.Dict.{keys, lookup}
use tesser_build.Prelude.Lists.{all, length, is_empty, is_empty-append}
use tesser_build.Generator.Tree.Shapes.{field_types}
use tesser_build.Generator.Tree.Spec.{TreeSpec, Sample, kinds, sampled}
use tesser_build.Generator.Tree.Fields.{
  each, field_problems, kind_problems, values_problems, answer_problems, sample_name_problems,
}
use tesser_build.Generator.Tree.Problems.{
  shaped, shape_problems, choice_problems, content_problems, problems,
}

abbrev pub field_fine : TreeSpec → Str × Str → Bool
field_fine spec (name, kind) =
    contains (keys field_types) kind && not (name == spec.identity_field_name)

abbrev pub has_two : Option (List Sample) → Bool
has_two none = false
has_two (some samples) = eqb (length samples) 2

abbrev pub kind_fine : TreeSpec → Str × Str → Bool
kind_fine spec (name, kind) = has_two (lookup name (sampled spec))

abbrev pub answer_fine : TreeSpec → Str → Bool
answer_fine spec answer = contains (keys (kinds spec)) answer

all_of_each :
    {A : Type 0} (f : A → List Str) (p : A → Bool) (xs : List A)
    → ((x : A) → is_empty (f x) ≡ true → p x ≡ true)
    → is_empty (each f xs) ≡ true
    → all p xs ≡ true
all_of_each f p [] h e = refl
all_of_each f p (x ∷ xs) h e =
    ground (arith, h x, all_of_each f p xs h, is_empty-append (f x) (each f xs))

field_fine_of :
    (capitalize : Str → Str) (spec : TreeSpec) (row : Str × Str)
    → is_empty (field_problems capitalize spec row) ≡ true
    → field_fine spec row ≡ true
unfolding field_problems
field_fine_of capitalize spec (name, kind) e = ground arith

values_fine :
    (spec : TreeSpec) (name kind : Str) (samples : Option (List Sample))
    → is_empty (values_problems spec name kind samples) ≡ true
    → has_two samples ≡ true
unfolding values_problems
values_fine spec name kind none e = cc
values_fine spec name kind (some samples) e = ground arith

kind_fine_of :
    (spec : TreeSpec) (row : Str × Str)
    → is_empty (kind_problems spec row) ≡ true
    → kind_fine spec row ≡ true
unfolding kind_problems
kind_fine_of spec (name, kind) e = values_fine spec name kind (lookup name (sampled spec)) e

answer_fine_of :
    (spec : TreeSpec) (answer : Str)
    → is_empty (answer_problems spec answer) ≡ true
    → answer_fine spec answer ≡ true
unfolding answer_problems
answer_fine_of spec answer e = ground arith

-- The parts of a list that is empty are empty.
first_empty : (xs ys : List Str) → is_empty (xs ++ ys) ≡ true → is_empty xs ≡ true
first_empty xs ys e = ground (arith, is_empty-append xs ys)

rest_empty : (xs ys : List Str) → is_empty (xs ++ ys) ≡ true → is_empty ys ≡ true
rest_empty xs ys e = ground (arith, is_empty-append xs ys)

abbrev EmptyWith : List Str → Type 0
EmptyWith xs = (ys : List Str) × (is_empty (xs ++ ys) ≡ true)

module _ (capitalize : Str → Str) (spec : TreeSpec)
    (none_found : is_empty (problems capitalize spec) ≡ true) where
  content_empty : is_empty (content_problems capitalize spec) ≡ true
  unfolding problems
  content_empty = ground arith

  from_fields : EmptyWith (each (field_problems capitalize spec) spec.aggregate_fields)
  unfolding content_problems
  from_fields = (
    _,
    rest_empty (choice_problems spec) _
        (rest_empty (each shape_problems (shaped spec)) _ (rest_empty _ _ content_empty)),
  )

  from_kinds : EmptyWith (each (kind_problems spec) (kinds spec))
  unfolding content_problems
  from_kinds = (
    _,
    rest_empty (each (sample_name_problems spec) (keys (sampled spec))) _ (
        rest_empty (each (field_problems capitalize spec) spec.aggregate_fields) _ (
          rest_empty (choice_problems spec) _
            (rest_empty (each shape_problems (shaped spec)) _ (rest_empty _ _ content_empty)))),
  )

  from_answers : EmptyWith (each (answer_problems spec) spec.read_response_fields)
  unfolding content_problems
  from_answers = (
    _,
    rest_empty _ _ (
        rest_empty (each (kind_problems spec) (kinds spec)) _ (
          rest_empty (each (sample_name_problems spec) (keys (sampled spec))) _ (
            rest_empty (each (field_problems capitalize spec) spec.aggregate_fields) _ (
              rest_empty (choice_problems spec) _ (
                rest_empty (each shape_problems (shaped spec)) _
                  (rest_empty _ _ content_empty)))))),
  )

  -- Each field has a type that is known, and is not the identity field.
  pub fields_fine : all (field_fine spec) spec.aggregate_fields ≡ true
  fields_fine =
      all_of_each (field_problems capitalize spec) (field_fine spec) spec.aggregate_fields
        (field_fine_of capitalize spec) (first_empty _ from_fields.0 from_fields.1)

  -- Each field, and the identity field, has two sample values.
  pub kinds_fine : all (kind_fine spec) (kinds spec) ≡ true
  kinds_fine =
      all_of_each (kind_problems spec) (kind_fine spec) (kinds spec) (kind_fine_of spec)
        (first_empty _ from_kinds.0 from_kinds.1)

  -- The read response names fields only.
  pub answers_fine : all (answer_fine spec) spec.read_response_fields ≡ true
  answers_fine =
      all_of_each (answer_problems spec) (answer_fine spec) spec.read_response_fields
        (answer_fine_of spec) (first_empty _ from_answers.0 from_answers.1)
