-- ===== src/Checks/Registry/Search.antt =====
-- The search of the constructors finds the class that is wanted, if it has a row.
use tesser_build.Prelude.{
  Str, false, ◌≡◌, refl, ap, ◌∙◌, List, [], ◌∷◌, map, ◌==◌, list_eq, nat_eq, pair_eq, contains,
  eq→≡, eq_refl, fun_ext, Eq, Ord, less, list_ord, nat_ord, pair_ord, Option, none, some, arith,
  if◌then◌else◌,
}
use tesser_build.Prelude.Dict.{lookup}
use tesser_build.Prelude.Lists.{get_elem?}
use tesser_build.Prelude.Sets.{Nodup}
use tesser_build.Prelude.Sorting.{insert, sorted}
use tesser_build.Prelude.SortedKeys.{sorted-IsSorted, contains-map-sorted}
use tesser_build.Checks.Values.{Symbol}
use tesser_build.Checks.KindTable.{Key, key_of}
use tesser_build.Checks.KindTable.Bisect.{bisect_left, position, bisect_left-position}
use tesser_build.Checks.KindTable.Search.{below, row_key}
use tesser_build.Checks.KindTable.Sorted.{
  sorted-IsPartitioned, value_at, value_at-position_of_sorted,
}
use tesser_build.Checks.Registry.Constructors.{
  Signed, Constructor, ConstructorRows, constructor, constructor_rows, constructor_of,
  constructor_at,
}

empty_first {ℓ} :
    {K : Type ℓ} ⦃o : Ord K⦄ (a k : K) (v : List Str × List Str)
    → less {A = K × (List Str × List Str)} (a, v) (k, ([], [])) ≡ less a k
unfolding pair_ord list_ord
empty_first ⦃o⦄ a k ([], []) = ground arith
empty_first ⦃o⦄ a k ([], (t ∷ ts)) = ground arith
empty_first ⦃o⦄ a k ((p ∷ ps), ts) = ground arith

module _ {ℓ κ} {K : Type ℓ} {V : Type κ} ⦃o : Ord K⦄ ⦃u : Ord V⦄ ⦃e : Eq K⦄ where
  lookup-insert_fresh :
      (k : K) (row : K × V) (rows : List (K × V))
      → contains (map row_key rows) (row_key row) ≡ false
      → lookup k (insert row rows) ≡ (if k == row_key row then some row.1 else lookup k rows)
  unfolding insert lookup contains
  lookup-insert_fresh k (j, v) [] h = refl
  lookup-insert_fresh k (j, v) ((j', v') ∷ rows) h =
      ground (arith, lookup-insert_fresh k (j, v) rows, eq→≡ k j, eq→≡ k j', eq_refl k)

  -- Sorting does not change what is found, if each key stands once.
  lookup-sorted :
      (k : K) (rows : List (K × V))
      → Nodup (map row_key rows)
      → lookup k (sorted rows) ≡ lookup k rows
  unfolding sorted lookup
  lookup-sorted k [] n = refl
  lookup-sorted k (row ∷ rows) n = ground (
    arith,
    lookup-sorted k rows n.1,
    lookup-insert_fresh k row (sorted rows),
    contains-map-sorted row_key rows (row_key row),
  )

abbrev pub made : Option (List Str × List Str) → Option Constructor
made none = none
made (some (params, types)) = some (constructor params types)

constructor_at-value_at :
    (k : Key) (row : Option Signed) → constructor_at k row ≡ made (value_at k row)
constructor_at-value_at k none = refl
constructor_at-value_at k (some (j, (params, types))) = ground arith

-- If each class has one row, the search among the sorted rows finds the constructor of the row of the class.
pub constructor_of-lookup :
    (given : ConstructorRows) (s : Symbol)
    → Nodup (map row_key given.items)
    → constructor_of (constructor_rows given) s ≡ made (lookup (key_of s) given.items)
unfolding constructor_of constructor_rows
constructor_of-lookup given s n =
    let rows = sorted given.items in
    let k = key_of s in
    let increasing = sorted-IsSorted given.items in
    let same_test : (λ (row : Signed). less row (k, ([], []))) ≡ below k =
      fun_ext (λ (row : Signed). empty_first row.0 k row.1) in
    ap (λ test. constructor_at k (get_elem? rows (bisect_left test rows))) same_test
    ∙ ap (λ i. constructor_at k (get_elem? rows i))
        (bisect_left-position (below k) rows (sorted-IsPartitioned k rows increasing))
    ∙ constructor_at-value_at k (get_elem? rows (position (below k) rows))
    ∙ ap made (value_at-position_of_sorted k rows increasing)
    ∙ ap made (lookup-sorted k given.items n)
