-- ===== src/Checks/KindTable/Sorted.antt =====
-- Rows that are sorted by key and then by value, where a key may stand more than once: bisection finds
-- the first row of a key.
use tesser_build.Prelude.{
  ℕ, zero, suc, true, ◌≡◌, refl, List, [], ◌∷◌, ◌==◌, Eq, Ord, Ordering, less, less_eq, pair_ord,
  Option, none, some, arith, if◌then◌else◌,
}
use tesser_build.Prelude.Dict.{lookup}
use tesser_build.Prelude.Lists.{get_elem?}
use tesser_build.Prelude.Sorting.{AllFrom, IsSorted}
use tesser_build.Checks.KindTable.Bisect.{position, IsPartitioned, below_at}
use tesser_build.Checks.KindTable.Search.{below, row_key}

less_of_le {ℓ} :
    {K : Type ℓ} ⦃o : Ord K⦄ (a b k : K) → less_eq a b ≡ true → less b k ≡ true → less a k ≡ true
less_of_le ⦃o⦄ a b k h l = ground (arith, o.cmp_eq a b, o.cmp_trans a b k)

module _ {ℓ κ} {K : Type ℓ} {V : Type κ} ⦃o : Ord K⦄ ⦃u : Ord V⦄ ⦃e : Eq K⦄ where
  key_le : (a b : K × V) → less_eq a b ≡ true → less_eq (row_key a) (row_key b) ≡ true
  unfolding pair_ord
  key_le (k, v) (k', v') h = ground arith

  above_at :
      (a : K × V) (k : K) (rows : List (K × V)) (j : ℕ)
      → AllFrom a rows
      → below_at (below k) (get_elem? rows j) ≡ true
      → less (row_key a) k ≡ true
  above_at a k [] j h l = cc
  above_at a k (row ∷ rows) zero h l = less_of_le (row_key a) (row_key row) k (key_le a row h.0) l
  above_at a k (row ∷ rows) (suc j) h l = above_at a k rows j h.1 l

  -- Rows that are sorted are partitioned at every key, also when a key stands twice.
  pub sorted-IsPartitioned :
      (k : K) (rows : List (K × V)) → IsSorted rows → IsPartitioned (below k) rows
  sorted-IsPartitioned k [] s i j h l = l
  sorted-IsPartitioned k (row ∷ rows) s zero zero h l = l
  sorted-IsPartitioned k (row ∷ rows) s zero (suc j) h l = above_at row k rows j s.0 l
  sorted-IsPartitioned k (row ∷ rows) s (suc i) zero h l = absurd (omega arith)
  sorted-IsPartitioned k (row ∷ rows) s (suc i) (suc j) h l =
      sorted-IsPartitioned k rows s.1 i j (omega arith) l

  lookup_above :
      (a : K × V) (k : K) (rows : List (K × V))
      → o.cmp k (row_key a) ≡ Ordering.lt
      → AllFrom a rows
      → lookup k rows ≡ none
  unfolding lookup
  lookup_above a k [] l h = refl
  lookup_above a k ((j, v) ∷ rows) l h = ground (
    arith,
    lookup_above a k rows l h.1,
    key_le a (j, v) h.0,
    o.cmp_swap (row_key a) j,
    o.cmp_swap (row_key a) k,
    o.cmp_refl k,
  )

  abbrev pub value_at : K → Option (K × V) → Option V
  value_at k none = none
  value_at k (some (j, v)) = if j == k then some v else none

  -- On sorted rows the row at the position of a key is the first row of that key, if there is one.
  pub value_at-position_of_sorted :
      (k : K) (rows : List (K × V))
      → IsSorted rows
      → value_at k (get_elem? rows (position (below k) rows)) ≡ lookup k rows
  unfolding position lookup
  value_at-position_of_sorted k [] s = refl
  value_at-position_of_sorted k ((j, v) ∷ rows) s = ground (
    arith,
    value_at-position_of_sorted k rows s.1,
    lookup_above (j, v) k rows,
    o.cmp_eq j k,
    o.cmp_refl k,
    o.cmp_swap j k,
  )
