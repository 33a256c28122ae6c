-- ===== src/Generator/Tree/Laws.antt =====
-- A specification without problems has all that the generation of files needs.
use tesser_build.Prelude.{
  ℕ, suc, Str, eqb, Bool, true, ◌||◌, ◌≡◌, refl, List, [], ◌∷◌, list_eq, nat_eq, contains, eq_refl,
  Result, ok, succeeds->>=, succeeds, traverse, traverse-cons, >>=-eq-ok, succeeds-traverse_of_all,
  Option-cases, Bool-cases, inl, inr, some, arith, if◌then◌else◌,
}
use tesser_build.Prelude.Dict.{lookup}
use tesser_build.Prelude.Lists.{All, all, length, is_empty}
use tesser_build.Generator.Scope.{Scope}
use tesser_build.Generator.Tree.{Tree, GeneratedFile, tree, generated, sorted_files, file_into}
use tesser_build.Generator.Tree.Spec.{TreeSpec, Sample, sampled}
use tesser_build.Generator.Tree.Problems.{problems}
use tesser_build.Generator.Tree.Bindings.{
  class_keys, at_index, item_at, classes, literal_at, items, sections, values, bindings,
}
use tesser_build.Generator.Tree.Fine.{has_two}
use tesser_build.Generator.Tree.Sections.{succeeds-items, succeeds-sections, classes_listed}
use tesser_build.Generator.Tree.Lookups.{succeeds-literal_at, two_samples}

All-of_all : (p : Str → Bool) (xs : List Str) → all p xs ≡ true → All (λ x. p x ≡ true) xs
All-of_all p [] h = tt
All-of_all p (x ∷ xs) h = (ground arith, All-of_all p xs (ground arith))

module _ (capitalize lower repr : Str → Str) (spec : TreeSpec)
    (clean : is_empty (problems capitalize spec) ≡ true) where
  raw_sample :
      (samples : List Sample) → has_two (some samples) ≡ true → succeeds (at_index samples 0) ≡ true
  unfolding at_index
  raw_sample [] h = absurd (ground arith)
  raw_sample (x ∷ samples) h = refl

  identity_samples :
      (samples : List Sample)
      → item_at capitalize lower repr (sampled spec) spec.identity_field_name ≡ ok samples
      → succeeds (at_index samples 0) ≡ true
  unfolding item_at contains
  identity_samples samples h =
      let two =
        two_samples capitalize lower repr spec clean spec.identity_field_name
          (ground (arith, eq_refl spec.identity_field_name)) in
      elim (Option-cases (lookup spec.identity_field_name (sampled spec))) [
        | inl e ↦ absurd (ground arith)
        | inr (given, e) ↦ ground (arith, raw_sample samples)
      ]

  identity_sampled :
      succeeds (item_at capitalize lower repr (sampled spec) spec.identity_field_name) ≡ true
  unfolding item_at contains
  identity_sampled =
      let two =
        two_samples capitalize lower repr spec clean spec.identity_field_name
          (ground (arith, eq_refl spec.identity_field_name)) in
      ground arith

  identity_literal :
      (i : ℕ)
      → eqb i 0 || eqb i 1 ≡ true
      → succeeds (literal_at capitalize lower repr spec spec.identity_field_name i) ≡ true
  unfolding contains
  identity_literal i h =
      succeeds-literal_at capitalize lower repr spec clean spec.identity_field_name i
        (ground (arith, eq_refl spec.identity_field_name)) h

  succeeds-values : succeeds (values capitalize lower repr spec) ≡ true
  unfolding values class_keys
  succeeds-values =
      let each =
        All-of_all
          (λ x. succeeds (item_at capitalize lower repr (classes capitalize lower repr spec) x))
          (class_keys spec) (classes_listed capitalize lower repr spec clean) in
      succeeds->>=
        (item_at capitalize lower repr (classes capitalize lower repr spec) spec.app_name) _ each.0
        λ _ _.
          succeeds->>=
            (item_at capitalize lower repr (classes capitalize lower repr spec)
              spec.bounded_context_name)
            _ each.1.0
            λ _ _.
              succeeds->>=
                (item_at capitalize lower repr (classes capitalize lower repr spec)
                  spec.identity_field_name)
                _ each.1.1.0
                λ _ _. succeeds->>= _ _ (identity_literal 0 refl) λ _ _.
                  succeeds->>= _ _ (identity_literal 1 refl) λ _ _.
                    succeeds->>= _ _ identity_sampled λ samples e.
                      succeeds->>= _ _ (identity_samples samples e) λ _ _.
                        succeeds->>=
                          (item_at capitalize lower repr (classes capitalize lower repr spec)
                            spec.write_operation_name)
                          _ each.1.1.1.0
                          λ _ _.
                            succeeds->>=
                              (item_at capitalize lower repr (classes capitalize lower repr spec)
                                spec.read_operation_name)
                              _ each.1.1.1.1.0
                              λ _ _.
                                succeeds->>=
                                  (item_at capitalize lower repr
                                    (classes capitalize lower repr spec)
                                    spec.orchestrator_operation_name)
                                  _ each.1.1.1.1.1.0
                                  λ _ _.
                                    succeeds->>=
                                      (item_at capitalize lower repr
                                        (classes capitalize lower repr spec)
                                        spec.action_operation_name)
                                      _ each.1.1.1.1.1.1.0
                                      λ _ _.
                                        succeeds->>=
                                          (item_at capitalize lower repr
                                            (classes capitalize lower repr spec)
                                            spec.save_operation_name)
                                          _ each.1.1.1.1.1.1.1.0
                                          λ _ _.
                                            succeeds->>=
                                              (item_at capitalize lower repr
                                                (classes capitalize lower repr spec)
                                                spec.load_operation_name)
                                              _ each.1.1.1.1.1.1.1.1.0
                                              λ _ _.
                                                succeeds->>=
                                                  (item_at capitalize lower repr
                                                    (classes capitalize lower repr spec)
                                                    spec.identity_port_operation_name)
                                                  _ each.1.1.1.1.1.1.1.1.1.0 λ _ _. refl

  -- If no problem is found in a specification, the scope of the templates can be made: no look-up misses its key.
  pub succeeds-bindings : succeeds (bindings capitalize lower repr spec) ≡ true
  unfolding bindings
  succeeds-bindings =
      succeeds->>= (items capitalize lower repr spec) _
        (succeeds-items capitalize lower repr spec clean)
        λ rows e.
          succeeds->>= (sections capitalize lower repr spec rows) _
            (succeeds-sections capitalize lower repr spec clean e)
            λ s e'.
              succeeds->>= (values capitalize lower repr spec) _ succeeds-values (λ v e''. refl)

module _ (capitalize lower repr : Str → Str) (spec : TreeSpec) where
  -- The generation raises no error if no template does: when each template can be rendered in the scope that is made
  -- of a specification, the tree is made, whatever the specification is.
  pub succeeds-tree :
      ((s : Scope)
        → bindings capitalize lower repr spec ≡ ok s
        → all (λ t. succeeds (generated s t)) spec.templates ≡ true)
      → succeeds (tree capitalize lower repr spec) ≡ true
  unfolding tree
  succeeds-tree rendered = elim (Bool-cases (is_empty (problems capitalize spec))) [
    | inr found ↦ rw found refl
    | inl clean ↦ rw clean (
        succeeds->>= (bindings capitalize lower repr spec) _
          (succeeds-bindings capitalize lower repr spec clean)
          λ s e.
            succeeds->>= (traverse (generated s) spec.templates) _
              (succeeds-traverse_of_all (generated s) spec.templates (rendered s e))
              (λ files e'. refl))
  ]

length-file_into :
    (repr : Str → Str) (f : GeneratedFile) (files : List GeneratedFile)
    → length (file_into repr f files) ≡ suc (length files)
unfolding file_into
length-file_into repr f [] = refl
length-file_into repr f (g ∷ files) = ground (arith, length-file_into repr f files)

length-sorted_files :
    (repr : Str → Str) (files : List GeneratedFile)
    → length (sorted_files repr files) ≡ length files
unfolding sorted_files
length-sorted_files repr [] = refl
length-sorted_files repr (f ∷ files) =
    ground
      (arith, length-file_into repr f (sorted_files repr files), length-sorted_files repr files)

length-traverse {ℓ κ} :
    {A : Type ℓ} {B : Type κ} (f : A → Result B) (xs : List A) {ys : List B}
    → traverse f xs ≡ ok ys
    → length ys ≡ length xs
unfolding traverse
length-traverse f [] h = ground arith
length-traverse f (x ∷ xs) h =
    let (y, ys', e, rest, whole) = traverse-cons f x xs h in
    ground (arith, length-traverse f xs rest)

-- A tree that is made holds the problems that are found in the specification, and one file for each template if
-- there is no problem, and no file if there is one.
tree_lem :
    (capitalize lower repr : Str → Str) (spec : TreeSpec) {t : Tree}
    → tree capitalize lower repr spec ≡ ok t
    → (t.problems ≡ problems capitalize spec)
      × (length t.files
          ≡ (if is_empty (problems capitalize spec) then length spec.templates else 0))
unfolding tree
tree_lem capitalize lower repr spec {t} h =
    elim (Bool-cases (is_empty (problems capitalize spec))) [
      | inr found ↦ ground arith
      | inl clean ↦
          let (s, e, run) = >>=-eq-ok (bindings capitalize lower repr spec) _ (rw clean at h) in
          let (files, e', whole) = >>=-eq-ok (traverse (generated s) spec.templates) _ run in
          ground
            (arith, length-sorted_files repr files, length-traverse (generated s) spec.templates e')
    ]
