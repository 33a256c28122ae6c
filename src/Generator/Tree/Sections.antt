-- ===== src/Generator/Tree/Sections.antt =====
-- The sections of the scope can be made, if the specification has no problem.
use tesser_build.Prelude.{
  ℕ, suc, Str, str, true, ◌≡◌, refl, ap, ◌∙◌, List, [], ◌∷◌, list_eq, nat_eq, contains, Result, ok,
  succeeds->>=, succeeds, traverse, traverse-cons, >>=-eq-ok, succeeds-traverse_of_all, arith,
}
use tesser_build.Prelude.Dict.{Dict, keys, of_rows, contains-keys-of_rows}
use tesser_build.Prelude.Lists.{all, length, is_empty}
use tesser_build.Generator.Scope.{Values}
use tesser_build.Generator.Tree.Spec.{TreeSpec, kinds, field_names}
use tesser_build.Generator.Tree.Problems.{problems}
use tesser_build.Generator.Tree.Bindings.{
  class_keys, item_at, classes, item_row, items, section_rows, section_for, sections,
}
use tesser_build.Generator.Tree.Fine.{answer_fine, answers_fine}
use tesser_build.Generator.Tree.Lookups.{
  succeeds-item_at, names_of, row_known, contains-keys-kinds, succeeds-class, kinds_known,
  succeeds-item_row, all_own, all_of_both,
}

keys-traverse :
    (f : Str × Str → Result (Str × Values)) (xs : List (Str × Str)) {ys : List (Str × Values)}
    → ((x : Str × Str) (y : Str × Values) → f x ≡ ok y → y.0 ≡ x.0)
    → traverse f xs ≡ ok ys
    → keys ys ≡ keys xs
unfolding traverse keys
keys-traverse f [] same h = ground arith
keys-traverse f ((n, k) ∷ xs) same h =
    let (y, ys', e, rest, whole) = traverse-cons f (n, k) xs h in
    let tail : keys ys' ≡ keys xs = keys-traverse f xs same rest in
    let head : y.0 ≡ n = same (n, k) y e in
    ap keys whole ∙ ap (λ ns. y.0 ∷ ns) tail ∙ ap (λ m. m ∷ keys xs) head

module _ (capitalize lower repr : Str → Str) (spec : TreeSpec)
    (clean : is_empty (problems capitalize spec) ≡ true) where
  item_row-name :
      (row : Str × Str) (y : Str × Values)
      → item_row capitalize lower repr spec row ≡ ok y
      → y.0 ≡ row.0
  unfolding item_row
  item_row-name (name, kind) y h = ground arith

  pub succeeds-items : succeeds (items capitalize lower repr spec) ≡ true
  unfolding items
  succeeds-items =
      let all_rows : all (λ row. succeeds (item_row capitalize lower repr spec row)) (kinds spec)
          ≡ true =
        all_of_both (row_known spec) (row_known spec)
          (λ row. succeeds (item_row capitalize lower repr spec row)) (kinds spec)
          (λ row h k. succeeds-item_row capitalize lower repr spec clean row h)
          (kinds_known capitalize lower repr spec clean)
          (kinds_known capitalize lower repr spec clean) in
      ground (
        arith,
        succeeds-traverse_of_all (item_row capitalize lower repr spec) (kinds spec) all_rows,
      )

  contains-keys-items :
      {rows : Dict Str Values} (n : Str)
      → items capitalize lower repr spec ≡ ok rows
      → contains (keys rows) n ≡ contains (keys (kinds spec)) n
  unfolding items
  contains-keys-items n h =
      let (given, e, made) =
        >>=-eq-ok (traverse (item_row capitalize lower repr spec) (kinds spec))
          (λ given. ok (of_rows given)) h in
      let same : keys given ≡ keys (kinds spec) =
        keys-traverse (item_row capitalize lower repr spec) (kinds spec) item_row-name e in
      ground (arith, contains-keys-of_rows given n, ap (λ ns. contains ns n) same)

  succeeds-section_rows :
      (rows : Dict Str Values) (n index : ℕ) (names : List Str)
      → all (contains (keys rows)) names ≡ true
      → succeeds (section_rows capitalize lower repr rows n index names) ≡ true
  unfolding section_rows
  succeeds-section_rows rows n index [] h = refl
  succeeds-section_rows rows n index (name ∷ names) h = ground (
    arith,
    succeeds-item_at capitalize lower repr rows name,
    succeeds-section_rows rows n (suc index) names,
  )

  succeeds-section_for :
      (rows : Dict Str Values) (section : Str) (names : List Str)
      → all (contains (keys rows)) names ≡ true
      → succeeds (section_for capitalize lower repr rows section names) ≡ true
  unfolding section_for
  succeeds-section_for rows section names h =
      ground (arith, succeeds-section_rows rows (length names) 0 names h)

  names_listed :
      {rows : Dict Str Values}
      → items capitalize lower repr spec ≡ ok rows
      → all (contains (keys rows)) (names_of spec) ≡ true
  names_listed {rows} h =
      all_own (names_of spec) (keys rows)
        (λ a m. contains-keys-items a h ∙ contains-keys-kinds spec a ∙ m)

  answers_listed :
      {rows : Dict Str Values}
      → items capitalize lower repr spec ≡ ok rows
      → all (contains (keys rows)) spec.read_response_fields ≡ true
  answers_listed {rows} h =
      all_of_both (answer_fine spec) (answer_fine spec) (contains (keys rows))
        spec.read_response_fields (λ a k k'. contains-keys-items a h ∙ k)
        (answers_fine capitalize spec clean) (answers_fine capitalize spec clean)

  pub succeeds-sections :
      {rows : Dict Str Values}
      → items capitalize lower repr spec ≡ ok rows
      → succeeds (sections capitalize lower repr spec rows) ≡ true
  unfolding sections
  succeeds-sections {rows} h =
      let listed = names_listed h in
      succeeds->>= (section_for capitalize lower repr rows (str "fields") (field_names spec)) _
        (succeeds-section_for rows (str "fields") (field_names spec) (ground arith))
        λ f e.
          succeeds->>=
            (section_for capitalize lower repr rows (str "record_fields") (names_of spec)) _
            (succeeds-section_for rows (str "record_fields") (names_of spec) listed)
            λ r e.
              succeeds->>=
                (section_for capitalize lower repr rows (str "read_fields")
                  spec.read_response_fields)
                _
                (succeeds-section_for rows (str "read_fields") spec.read_response_fields
                  (answers_listed h))
                (λ a e. refl)

  pub classes_listed :
      all
        (λ n. succeeds (item_at capitalize lower repr (classes capitalize lower repr spec) n))
        (class_keys spec)
      ≡ true
  classes_listed =
      let own = all_own (class_keys spec) (class_keys spec) (λ a m. m) in
      all_of_both (contains (class_keys spec)) (contains (class_keys spec))
        (λ n. succeeds (item_at capitalize lower repr (classes capitalize lower repr spec) n))
        (class_keys spec) (λ n h k. succeeds-class capitalize lower repr spec clean n h) own own
