-- ===== src/Checks/KindTable/Search.antt =====
-- Rows that are sorted by key and then by value, with each key once: bisection finds a key's row.
use tesser_build.Prelude.{
  ℕ, zero, suc, Bool, true, false, ◌||◌, ◌≡◌, ◌≢◌, refl, ◌↔◌, List, [], ◌∷◌, map, ◌==◌, Ordering,
  Eq, pair_eq, Ord, less, less_eq, pair_ord, contains, Option, none, some, arith, if◌then◌else◌,
  eq→≡,
}
use tesser_build.Prelude.Dict.{lookup}
use tesser_build.Prelude.Lists.{get_elem?}
use tesser_build.Prelude.Sets.{Nodup}
use tesser_build.Prelude.Sorting.{AllAbove, IsIncreasing, IsSorted, above_fresh, below_trans}
use tesser_build.Checks.KindTable.Bisect.{position, IsPartitioned, below_at}

abbrev pub row_key {ℓ κ} : {K : Type ℓ} {V : Type κ} → K × V → K
row_key (k, v) = k

IsIncreasing-Nodup {ℓ} :
    {K : Type ℓ} ⦃o : Ord K⦄ ⦃e : Eq K⦄ (ks : List K) → IsIncreasing ks → Nodup ks
IsIncreasing-Nodup [] s = tt
IsIncreasing-Nodup (k ∷ ks) s = (above_fresh k ks s.0, IsIncreasing-Nodup ks s.1)

module _ {ℓ κ} {K : Type ℓ} {V : Type κ} ⦃o : Ord K⦄ ⦃u : Ord V⦄ ⦃e : Eq K⦄ where
  -- `earlier[:2] == later[:2]` for a pair of neighbours
  unfoldable pub neighbours_clash : List (K × V) → Bool
  neighbours_clash [] = false
  neighbours_clash (a ∷ []) = false
  neighbours_clash (a ∷ b ∷ rows) = row_key a == row_key b || neighbours_clash (b ∷ rows)

  keys_from : (a b : K × V) → less_eq a b ≡ true → o.cmp (row_key a) (row_key b) ≢ Ordering.gt
  unfolding pair_ord
  keys_from (k, v) (k', v') h g = ground arith

  -- Sorted rows have strictly increasing keys, if no two neighbours have the same key.
  pub keys-IsIncreasing :
      (rows : List (K × V))
      → IsSorted rows
      → neighbours_clash rows ≡ false
      → IsIncreasing (map row_key rows)
  unfolding neighbours_clash
  keys-IsIncreasing [] s n = tt
  keys-IsIncreasing (a ∷ []) s n = (tt, tt)
  keys-IsIncreasing (a ∷ b ∷ rows) s n =
      let rest = keys-IsIncreasing (b ∷ rows) s.1 (ground arith) in
      let next : o.cmp (row_key a) (row_key b) ≡ Ordering.lt =
        ground (arith, keys_from a b s.0.0, o.cmp_eq (row_key a) (row_key b)) in
      ((next, below_trans (row_key a) (row_key b) (map row_key rows) next rest.0), rest)

  -- The rows do clash if a key stands twice.
  pub clash_of_IsIncreasing :
      (rows : List (K × V)) → IsIncreasing (map row_key rows) → neighbours_clash rows ≡ false
  unfolding neighbours_clash
  clash_of_IsIncreasing [] s = refl
  clash_of_IsIncreasing (a ∷ []) s = refl
  clash_of_IsIncreasing (a ∷ b ∷ rows) s =
      ground (arith, clash_of_IsIncreasing (b ∷ rows) s.1, o.cmp_refl (row_key a))

  clash_free_of_Nodup :
      (rows : List (K × V)) → Nodup (map row_key rows) → neighbours_clash rows ≡ false
  unfolding neighbours_clash contains
  clash_free_of_Nodup [] s = refl
  clash_free_of_Nodup (a ∷ []) s = refl
  clash_free_of_Nodup (a ∷ b ∷ rows) s =
      ground (arith, clash_free_of_Nodup (b ∷ rows) s.1, eq→≡ (row_key a) (row_key b))

  -- On sorted rows neighbours clash exactly when some key stands twice.
  pub neighbours_clash_iff :
      (rows : List (K × V))
      → IsSorted rows
      → (neighbours_clash rows ≡ false) ↔ Nodup (map row_key rows)
  neighbours_clash_iff rows s = (
    λ n. IsIncreasing-Nodup (map row_key rows) (keys-IsIncreasing rows s n),
    clash_free_of_Nodup rows,
  )

  abbrev pub below : K → K × V → Bool
  below k row = less (row_key row) k

  above_at :
      (a k : K) (rows : List (K × V)) (j : ℕ)
      → AllAbove a (map row_key rows)
      → below_at (below k) (get_elem? rows j) ≡ true
      → less a k ≡ true
  above_at a k [] j h l = cc
  above_at a k (row ∷ rows) zero h l = ground (arith, o.cmp_trans a (row_key row) k h.0)
  above_at a k (row ∷ rows) (suc j) h l = above_at a k rows j h.1 l

  pub rows-IsPartitioned :
      (k : K) (rows : List (K × V)) → IsIncreasing (map row_key rows) → IsPartitioned (below k) rows
  rows-IsPartitioned k [] s i j h l = l
  rows-IsPartitioned k (row ∷ rows) s zero zero h l = l
  rows-IsPartitioned k (row ∷ rows) s zero (suc j) h l = above_at (row_key row) k rows j s.0 l
  rows-IsPartitioned k (row ∷ rows) s (suc i) zero h l = absurd (omega arith)
  rows-IsPartitioned k (row ∷ rows) s (suc i) (suc j) h l =
      rows-IsPartitioned k rows s.1 i j (omega arith) l

  abbrev pub value_at : K → Option (K × V) → Option V
  value_at k none = none
  value_at k (some (j, v)) = if j == k then some v else none

  lookup_above :
      (a k : K) (rows : List (K × V))
      → o.cmp k a ≡ Ordering.lt
      → AllAbove a (map row_key rows)
      → lookup k rows ≡ none
  unfolding lookup
  lookup_above a k [] l h = refl
  lookup_above a k ((j, v) ∷ rows) l h =
      ground (arith, lookup_above a k rows l h.1, o.cmp_trans k a j l h.0, o.cmp_refl k)

  -- The row at the position of a key is the row of that key, if there is one.
  pub value_at-position :
      (k : K) (rows : List (K × V))
      → IsIncreasing (map row_key rows)
      → value_at k (get_elem? rows (position (below k) rows)) ≡ lookup k rows
  unfolding position lookup
  value_at-position k [] s = refl
  value_at-position k ((j, v) ∷ rows) s = ground (
    arith,
    value_at-position k rows s.1,
    lookup_above j k rows,
    o.cmp_eq j k,
    o.cmp_refl k,
    o.cmp_swap j k,
  )

module _ {ℓ κ} {K : Type ℓ} {V : Type κ} ⦃e : Eq K⦄ ⦃f : Eq V⦄ where
  contains-keys_of_row :
      (rows : List (K × V)) (k : K) (v : V)
      → contains rows (k, v) ≡ true
      → contains (map row_key rows) k ≡ true
  unfolding contains
  contains-keys_of_row [] k v h = h
  contains-keys_of_row ((j, w) ∷ rows) k v h =
      ground (arith, contains-keys_of_row rows k v, eq→≡ {A = K × V} (k, v) (j, w))

  -- With each key once, a look-up finds a value exactly when its row is there.
  pub lookup_iff_contains :
      (rows : List (K × V)) (k : K) (v : V)
      → Nodup (map row_key rows)
      → (lookup k rows ≡ some v) ↔ (contains rows (k, v) ≡ true)
  unfolding lookup contains
  lookup_iff_contains [] k v n = (λ h. cc, λ h. cc)
  lookup_iff_contains ((j, w) ∷ rows) k v n =
      ground (arith, lookup_iff_contains rows k v n.1, contains-keys_of_row rows k v)
