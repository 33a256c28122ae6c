-- ===== src/Generator/Tree/Lookups.antt =====
-- The look-ups of the generation find what they look for, if the specification has no problem.
use tesser_build.Prelude.{
  ℕ, zero, suc, Str, str, eqb, Bool, true, ◌&&◌, ◌||◌, ◌≡◌, refl, ap, ◌∙◌, sym, List, [], ◌∷◌, map,
  list_eq, nat_eq, contains, eq_refl, succeeds, Option-cases, inl, inr, arith,
}
use tesser_build.Prelude.Dict.{
  Dict, keys, lookup, of_rows, contains-keys-of_rows, all-of_rows, all_at_key,
  lookup-some_of_contains,
}
use tesser_build.Prelude.Lists.{all, length, is_empty}
use tesser_build.Generator.Tree.Shapes.{field_types, identity_type}
use tesser_build.Generator.Tree.Spec.{TreeSpec, Sample, kinds, sampled, field_names, name_of}
use tesser_build.Generator.Tree.Fields.{class_name}
use tesser_build.Generator.Tree.Problems.{problems}
use tesser_build.Generator.Tree.Bindings.{
  class_keys, at_index, item_at, classes, literal_at, literal_of, item_row,
}
use tesser_build.Generator.Tree.Fine.{field_fine, has_two, fields_fine, kinds_fine}

pub succeeds-item_at {ℓ} :
    {A : Type ℓ} (f g repr : Str → Str) (d : Dict Str A) (k : Str)
    → contains (keys d) k ≡ true
    → succeeds (item_at f g repr d k) ≡ true
unfolding item_at
succeeds-item_at f g repr d k h = let (v, e) = lookup-some_of_contains k d h in ground arith

at_two :
    (samples : List Sample) (i : ℕ)
    → eqb (length samples) 2 ≡ true
    → eqb i 0 || eqb i 1 ≡ true
    → succeeds (at_index (map literal_of samples) i) ≡ true
unfolding at_index
at_two [] i h k = absurd (ground arith)
at_two (a ∷ []) i h k = absurd (ground arith)
at_two (a ∷ b ∷ []) zero h k = refl
at_two (a ∷ b ∷ []) (suc zero) h k = refl
at_two (a ∷ b ∷ []) (suc (suc i)) h k = absurd (ground arith)
at_two (a ∷ b ∷ c ∷ samples) i h k = absurd (ground arith)

keys-classes :
    (capitalize lower repr : Str → Str) (names : List Str)
    → keys (map (λ name. (name, class_name capitalize name)) names) ≡ names
unfolding keys
keys-classes capitalize lower repr [] = refl
keys-classes capitalize lower repr (n ∷ names) =
    ap (λ ns. n ∷ ns) (keys-classes capitalize lower repr names)

pub all_own :
    (xs ys : List Str)
    → ((a : Str) → contains xs a ≡ true → contains ys a ≡ true)
    → all (contains ys) xs ≡ true
unfolding contains
all_own [] ys h = refl
all_own (x ∷ xs) ys h = ground (arith, h x, eq_refl x, all_own xs ys (λ a m. h a (ground arith)))

keys-map : (rows : List (Str × Str)) → keys rows ≡ map name_of rows
unfolding keys
keys-map [] = refl
keys-map ((n, k) ∷ rows) = ap (λ ns. n ∷ ns) (keys-map rows)

all-keys {ℓ} :
    {A : Type ℓ} (q : Str → Bool) (d : Dict Str A)
    → all q (keys d) ≡ all (λ (row : Str × A). q row.0) d
unfolding keys
all-keys q [] = refl
all-keys q ((k, v) ∷ d) = ground (arith, all-keys q d)

pub all_of_both {ℓ} :
    {A : Type ℓ} (p q r : A → Bool) (xs : List A)
    → ((x : A) → p x ≡ true → q x ≡ true → r x ≡ true)
    → all p xs ≡ true
    → all q xs ≡ true
    → all r xs ≡ true
all_of_both p q r [] each h k = refl
all_of_both p q r (x ∷ xs) each h k = ground (arith, each x, all_of_both p q r xs each)

-- The identity field and the fields.
abbrev pub names_of : TreeSpec → List Str
names_of spec = spec.identity_field_name ∷ field_names spec

abbrev pub row_known : TreeSpec → Str × Str → Bool
row_known spec row = contains (keys field_types) row.1 && contains (names_of spec) row.0

pub contains-keys-kinds :
    (spec : TreeSpec) (n : Str) → contains (keys (kinds spec)) n ≡ contains (names_of spec) n
unfolding kinds field_names keys contains
contains-keys-kinds spec n = ground (
  arith,
  contains-keys-of_rows ((spec.identity_field_name, identity_type) ∷ spec.aggregate_fields) n,
  ap (λ ns. contains ns n) (keys-map spec.aggregate_fields),
)

identity_type_known : contains (keys field_types) identity_type ≡ true
unfolding contains keys field_types identity_type str list_eq nat_eq
identity_type_known = refl

-- A field's name is one of the names of which the classes are made.
contains-class_keys :
    (spec : TreeSpec) (n : Str)
    → contains (names_of spec) n ≡ true
    → contains (class_keys spec) n ≡ true
unfolding class_keys contains
contains-class_keys spec n h = ground arith

module _ (capitalize lower repr : Str → Str) (spec : TreeSpec)
    (clean : is_empty (problems capitalize spec) ≡ true) where
  pub succeeds-class :
      (n : Str)
      → contains (class_keys spec) n ≡ true
      → succeeds (item_at capitalize lower repr (classes capitalize lower repr spec) n) ≡ true
  unfolding classes
  succeeds-class n h =
      let rows = map (λ name. (name, class_name capitalize name)) (class_keys spec) in
      succeeds-item_at capitalize lower repr (of_rows rows) n (
        contains-keys-of_rows rows n
        ∙ ap (λ ns. contains ns n) (keys-classes capitalize lower repr (class_keys spec))
        ∙ h)

  pub two_samples :
      (n : Str) → contains (names_of spec) n ≡ true → has_two (lookup n (sampled spec)) ≡ true
  two_samples n h =
      all_at_key (λ name. has_two (lookup name (sampled spec))) (kinds spec) n
        (all-keys (λ name. has_two (lookup name (sampled spec))) (kinds spec)
          ∙ kinds_fine capitalize spec clean)
        (contains-keys-kinds spec n ∙ h)

  pub succeeds-literal_at :
      (n : Str) (i : ℕ)
      → contains (names_of spec) n ≡ true
      → eqb i 0 || eqb i 1 ≡ true
      → succeeds (literal_at capitalize lower repr spec n i) ≡ true
  unfolding literal_at item_at
  succeeds-literal_at n i h k = elim (Option-cases (lookup n (sampled spec))) [
    | inl e ↦ absurd (ground (arith, two_samples n h))
    | inr (samples, e) ↦
        ground
          (arith, two_samples n h, λ (two : eqb (length samples) 2 ≡ true). at_two samples i two k)
  ]

  fields_known : all (row_known spec) spec.aggregate_fields ≡ true
  unfolding field_names contains
  fields_known =
      all_of_both (field_fine spec) (λ (row : Str × Str). contains (names_of spec) row.0)
        (row_known spec) spec.aggregate_fields (λ row h k. ground arith)
        (fields_fine capitalize spec clean)
        (sym (all-keys (contains (names_of spec)) spec.aggregate_fields)
          ∙ all_own (keys spec.aggregate_fields) (names_of spec)
              (λ a m. ground (arith, ap (λ ns. contains ns a) (keys-map spec.aggregate_fields))))

  pub kinds_known : all (row_known spec) (kinds spec) ≡ true
  unfolding kinds contains
  kinds_known =
      all-of_rows (row_known spec)
        ((spec.identity_field_name, identity_type) ∷ spec.aggregate_fields)
        (ground (arith, fields_known, identity_type_known, eq_refl spec.identity_field_name))

  pub succeeds-item_row :
      (row : Str × Str)
      → row_known spec row ≡ true
      → succeeds (item_row capitalize lower repr spec row) ≡ true
  unfolding item_row
  succeeds-item_row (name, kind) h =
      let in_names : contains (names_of spec) name ≡ true = ground arith in
      ground (
        arith,
        succeeds-item_at capitalize lower repr field_types kind,
        succeeds-class name (contains-class_keys spec name in_names),
        succeeds-literal_at name 0 in_names refl,
        succeeds-literal_at name 1 in_names refl,
      )
