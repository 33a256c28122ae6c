-- ===== src/Prelude/SortedKeys.antt =====
-- Sorting a list of rows: it is sorted, it has the rows' keys, and its keys increase if no key of it
-- stands beside its equal.
use tesser_build.Prelude.Equality.{Eq, ◌==◌, contains}
use tesser_build.Prelude.Order.{Ord, less_eq}
use tesser_build.Prelude.Sets.{Nodup}
use tesser_build.Prelude.Sorting.{insert, sorted, AllFrom, IsSorted}
use mathlib.Core.Path.{◌≡◌, refl}
use mathlib.Core.Bool.{true, false, ◌||◌}
use mathlib.Core.List.{List, [], ◌∷◌, map}
use mathlib.Core.Logic.{◌↔◌}
use native.Mathlib.Omega.{arith}

module _ {ℓ} {A : Type ℓ} ⦃o : Ord A⦄ where
  pub less_eq_trans : (a b c : A) → less_eq a b ≡ true → less_eq b c ≡ true → less_eq a c ≡ true
  less_eq_trans a b c h k =
      ground (arith, o.cmp_eq a b, o.cmp_eq b c, o.cmp_refl c, o.cmp_trans a b c)

  from_trans : (a b : A) (xs : List A) → less_eq a b ≡ true → AllFrom b xs → AllFrom a xs
  from_trans a b [] h k = tt
  from_trans a b (x ∷ xs) h k = (less_eq_trans a b x h k.0, from_trans a b xs h k.1)

  from_insert :
      (a x : A) (xs : List A) → less_eq a x ≡ true → AllFrom a xs → AllFrom a (insert x xs)
  unfolding insert
  from_insert a x [] h k = (h, tt)
  from_insert a x (y ∷ ys) h k = ground (arith, from_insert a x ys h k.1)

  insert-IsSorted : (x : A) (xs : List A) → IsSorted xs → IsSorted (insert x xs)
  unfolding insert
  insert-IsSorted x [] k = (tt, tt)
  insert-IsSorted x (y ∷ ys) k =
      ground
        (arith, insert-IsSorted x ys k.1, o.cmp_swap x y, from_trans x y ys, from_insert y x ys)

  -- `sorted` sorts.
  pub sorted-IsSorted : (xs : List A) → IsSorted (sorted xs)
  unfolding sorted
  sorted-IsSorted [] = tt
  sorted-IsSorted (x ∷ xs) = insert-IsSorted x (sorted xs) (sorted-IsSorted xs)

module _ {ℓ κ} {A : Type ℓ} {K : Type κ} ⦃o : Ord A⦄ ⦃e : Eq K⦄ (key : A → K) where
  contains-map-insert :
      (x : A) (xs : List A) (k : K)
      → contains (map key (insert x xs)) k ≡ (k == key x || contains (map key xs) k)
  unfolding insert contains
  contains-map-insert x [] k = refl
  contains-map-insert x (y ∷ ys) k = ground (arith, contains-map-insert x ys k)

  pub contains-map-sorted :
      (xs : List A) (k : K) → contains (map key (sorted xs)) k ≡ contains (map key xs) k
  unfolding sorted contains
  contains-map-sorted [] k = refl
  contains-map-sorted (x ∷ xs) k =
      ground (arith, contains-map-insert x (sorted xs) k, contains-map-sorted xs k)

  Nodup-map-insert :
      (x : A) (xs : List A)
      → Nodup (map key (insert x xs))
        ↔ ((contains (map key xs) (key x) ≡ false) × Nodup (map key xs))
  unfolding insert contains
  Nodup-map-insert x [] = (λ u. u, λ u. u)
  Nodup-map-insert x (y ∷ ys) =
      ground (arith, Nodup-map-insert x ys, contains-map-insert x ys (key y))

  -- Sorting does not repeat a key, and does not drop one.
  pub Nodup-map-sorted : (xs : List A) → Nodup (map key (sorted xs)) ↔ Nodup (map key xs)
  unfolding sorted
  Nodup-map-sorted [] = (λ u. u, λ u. u)
  Nodup-map-sorted (x ∷ xs) =
      ground
        (arith, Nodup-map-insert x (sorted xs), contains-map-sorted xs (key x), Nodup-map-sorted xs)
