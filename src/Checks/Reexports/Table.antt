-- ===== src/Checks/Reexports/Table.antt =====
-- What the search of the table finds for a key: the first re-export of it in the specification.
use tesser_build.Prelude.{
  ℕ, suc, ◌≤◌, false, ◌≡◌, refl, ap, ◌∙◌, List, [], ◌∷◌, ◌==◌, Eq, nat_eq, list_eq, pair_eq, Ord,
  less_eq, pair_ord, nat_ord, list_ord, Option, none, some, arith, if◌then◌else◌,
}
use tesser_build.Prelude.Dict.{lookup}
use tesser_build.Prelude.Lists.{All, get_elem?}
use tesser_build.Prelude.Sorting.{insert, sorted}
use tesser_build.Prelude.SortedKeys.{sorted-IsSorted}
use tesser_build.Checks.KindTable.{Key}
use tesser_build.Checks.KindTable.Bisect.{bisect_left-position}
use tesser_build.Checks.KindTable.Search.{below}
use tesser_build.Checks.KindTable.Sorted.{
  sorted-IsPartitioned, value_at, value_at-position_of_sorted,
}
use tesser_build.Checks.Reexports.{Reexport, Row, numbered, defined_at, stands_for, reexport_table}

abbrev defined_of : Option (ℕ × Key) → Option Key
defined_of none = none
defined_of (some (i, defined)) = some defined

-- Every place in the rows is at least `i`.
abbrev AllAfter : ℕ → List Row → Type 0
AllAfter i rows = All (λ (row : Row). i ≤ row.1.0) rows

AllAfter-numbered :
    (i j : ℕ) (reexports : List Reexport) → i ≤ j → AllAfter i (numbered j reexports)
unfolding numbered
AllAfter-numbered i j [] h = tt
AllAfter-numbered i j (_ ∷ rest) h = (h, AllAfter-numbered i (suc j) rest (omega arith))

AllAfter-insert :
    (i : ℕ) (row : Row) (rows : List Row)
    → i ≤ row.1.0
    → AllAfter i rows
    → AllAfter i (insert row rows)
unfolding insert
AllAfter-insert i row [] h k = (h, tt)
AllAfter-insert i row (r ∷ rows) h k = ground (arith, AllAfter-insert i row rows h k.1)

AllAfter-sorted : (i : ℕ) (rows : List Row) → AllAfter i rows → AllAfter i (sorted rows)
unfolding sorted
AllAfter-sorted i [] h = tt
AllAfter-sorted i (row ∷ rows) h =
    AllAfter-insert i row (sorted rows) h.0 (AllAfter-sorted i rows h.1)

module _ {ℓ κ} {K : Type ℓ} {D : Type κ} ⦃o : Ord K⦄ ⦃u : Ord D⦄ ⦃e : Eq K⦄ where
  -- A row that goes in behind another row of its key has the later place.
  later_of_not_le :
      (k : K) (i j : ℕ) (d d' : D)
      → less_eq {A = K × (ℕ × D)} (k, (i, d)) (k, (j, d')) ≡ false
      → suc i ≤ j
      → ⊥
  unfolding pair_ord nat_ord
  later_of_not_le k i j d d' h l = ground (arith, o.cmp_refl k)

  -- The row that goes in with the smallest place is the first of its key.
  lookup-insert_first :
      (k : K) (row : K × (ℕ × D)) (rows : List (K × (ℕ × D)))
      → All (λ (r : K × (ℕ × D)). suc row.1.0 ≤ r.1.0) rows
      → lookup k (insert row rows) ≡ (if k == row.0 then some row.1 else lookup k rows)
  unfolding insert lookup
  lookup-insert_first k (j, (i, d)) [] h = refl
  lookup-insert_first k (j, (i, d)) ((j', (i', d')) ∷ rows) h =
      ground (arith, lookup-insert_first k (j, (i, d)) rows h.1, later_of_not_le j i i' d d')

lookup-sorted-numbered :
    (k : Key) (i : ℕ) (reexports : List Reexport)
    → defined_of (lookup k (sorted (numbered i reexports))) ≡ lookup k reexports
unfolding sorted numbered lookup
lookup-sorted-numbered k i [] = refl
lookup-sorted-numbered k i ((exported, defined) ∷ rest) =
    let later = numbered (suc i) rest in
    ground (
      arith,
      lookup-sorted-numbered k (suc i) rest,
      lookup-insert_first k (exported, (i, defined)) (sorted later)
          (AllAfter-sorted (suc i) later (AllAfter-numbered (suc i) (suc i) rest (omega arith))),
    )

defined_at-value_at : (k : Key) (o : Option Row) → defined_at k o ≡ defined_of (value_at k o)
defined_at-value_at k none = refl
defined_at-value_at k (some (exported, (i, defined))) = ground arith

-- The search of the table finds what the first re-export of a key stands for.
pub stands_for-lookup :
    (reexports : List Reexport) (k : Key)
    → stands_for (reexport_table reexports).rows k ≡ lookup k reexports
unfolding stands_for reexport_table
stands_for-lookup reexports k =
    let rows = sorted (numbered 0 reexports) in
    let increasing = sorted-IsSorted (numbered 0 reexports) in
    ap (λ i. defined_at k (get_elem? rows i))
      (bisect_left-position (below k) rows (sorted-IsPartitioned k rows increasing))
    ∙ defined_at-value_at k _
    ∙ ap defined_of (value_at-position_of_sorted k rows increasing)
    ∙ lookup-sorted-numbered k 0 reexports
