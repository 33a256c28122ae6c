-- ===== src/Prelude/Sorting.antt =====
-- Python's `sorted`: a stable insertion sort by the three-way comparison.
use tesser_build.Prelude.Tests.{if◌then◌else◌}
use tesser_build.Prelude.Equality.{Eq, ◌==◌, contains}
use tesser_build.Prelude.Lists.{All, all, is_empty}
use tesser_build.Prelude.Order.{Ord, less_eq}
use tesser_build.Prelude.Sets.{Nodup, to_set, contains-to_set, to_set-Nodup}
use Prim.Native.Nat.{Ordering}
use mathlib.Core.Path.{◌≡◌, refl, sym, ◌∙◌, subst}
use mathlib.Core.Logic.{◌≢◌}
use mathlib.Core.Bool.{Bool, true, false, ◌||◌, ◌&&◌}
use mathlib.Core.List.{List, [], ◌∷◌}
use native.Mathlib.Omega.{arith}

module _ {ℓ} {A : Type ℓ} ⦃o : Ord A⦄ where
  unfoldable pub insert : A → List A → List A
  insert a [] = a ∷ []
  insert a (x ∷ xs) = let rest = insert a xs in if less_eq a x then a ∷ x ∷ xs else x ∷ rest

  unfoldable pub sorted : List A → List A
  unfolding insert
  sorted [] = []
  sorted (x ∷ xs) = insert x (sorted xs)

  abbrev pub AllAbove : A → List A → Type 0
  AllAbove a xs = All (λ x. o.cmp a x ≡ Ordering.lt) xs

  -- Strictly increasing: sorted, and without repetition.
  abbrev pub IsIncreasing : List A → Type 0
  IsIncreasing [] = Unit
  IsIncreasing (x ∷ xs) = AllAbove x xs × IsIncreasing xs

  abbrev pub AllFrom : A → List A → Type 0
  AllFrom a xs = All (λ x. less_eq a x ≡ true) xs

  -- Sorted, with repetitions.
  abbrev pub IsSorted : List A → Type 0
  IsSorted [] = Unit
  IsSorted (x ∷ xs) = AllFrom x xs × IsSorted xs

  is_empty-insert : (x : A) (xs : List A) → is_empty (insert x xs) ≡ false
  unfolding insert
  is_empty-insert x [] = refl
  is_empty-insert x (y ∷ ys) = ground arith

  insert-all : (p : A → Bool) (x : A) (xs : List A) → all p (insert x xs) ≡ (p x && all p xs)
  unfolding insert
  insert-all p x [] = refl
  insert-all p x (y ∷ ys) = ground (arith, insert-all p x ys)

  pub all-sorted : (p : A → Bool) (xs : List A) → all p (sorted xs) ≡ all p xs
  unfolding sorted
  all-sorted p [] = refl
  all-sorted p (x ∷ xs) = ground (arith, insert-all p x (sorted xs), all-sorted p xs)

  pub is_empty-sorted : (xs : List A) → is_empty (sorted xs) ≡ is_empty xs
  unfolding sorted insert
  is_empty-sorted [] = refl
  is_empty-sorted (x ∷ xs) = is_empty-insert x (sorted xs)

  pub below_trans :
      (a b : A) (xs : List A) → o.cmp a b ≡ Ordering.lt → AllAbove b xs → AllAbove a xs
  below_trans a b [] h k = tt
  below_trans a b (x ∷ xs) h k = (o.cmp_trans a b x h k.0, below_trans a b xs h k.1)

module _ {ℓ} {A : Type ℓ} ⦃o : Ord A⦄ ⦃e : Eq A⦄ where
  -- `sorted(set(xs))`
  abbrev pub sorted_set : List A → List A
  sorted_set xs = sorted (to_set xs)

  pub contains-insert :
      (x : A) (xs : List A) (a : A) → contains (insert x xs) a ≡ (a == x || contains xs a)
  unfolding insert contains
  contains-insert x [] a = refl
  contains-insert x (y ∷ ys) a = ground (arith, contains-insert x ys a)

  pub contains-sorted : (xs : List A) (a : A) → contains (sorted xs) a ≡ contains xs a
  unfolding sorted contains
  contains-sorted [] a = refl
  contains-sorted (x ∷ xs) a = ground (arith, contains-insert x (sorted xs) a, contains-sorted xs a)

  above_insert :
      (a x : A) (xs : List A) → o.cmp a x ≡ Ordering.lt → AllAbove a xs → AllAbove a (insert x xs)
  unfolding insert
  above_insert a x [] h k = (h, tt)
  above_insert a x (y ∷ ys) h k = ground (arith, above_insert a x ys h k.1)

  insert-IsIncreasing :
      (x : A) (xs : List A) → contains xs x ≡ false → IsIncreasing xs → IsIncreasing (insert x xs)
  unfolding insert contains
  insert-IsIncreasing x [] h k = (tt, tt)
  insert-IsIncreasing x (y ∷ ys) h k = ground (
    arith,
    insert-IsIncreasing x ys,
    o.cmp_eq x y,
    o.cmp_swap x y,
    below_trans x y ys,
    above_insert y x ys,
  )

  pub sorted-IsIncreasing : (xs : List A) → Nodup xs → IsIncreasing (sorted xs)
  unfolding sorted
  sorted-IsIncreasing [] u = tt
  sorted-IsIncreasing (x ∷ xs) u =
      insert-IsIncreasing x (sorted xs) (rw contains-sorted u.0) (sorted-IsIncreasing xs u.1)

  -- The sorted elements of a set stand in strictly increasing order.
  pub sorted_set-IsIncreasing : (xs : List A) → IsIncreasing (sorted_set xs)
  sorted_set-IsIncreasing xs = sorted-IsIncreasing (to_set xs) (to_set-Nodup xs)

  pub contains-sorted_set : (xs : List A) (a : A) → contains (sorted_set xs) a ≡ contains xs a
  contains-sorted_set xs a = contains-sorted (to_set xs) a ∙ contains-to_set xs a

  pub above_fresh : (a : A) (xs : List A) → AllAbove a xs → contains xs a ≡ false
  unfolding contains
  above_fresh a [] h = refl
  above_fresh a (x ∷ xs) h = ground (arith, above_fresh a xs h.1, o.cmp_refl a)

  above_of_contains :
      (a b : A) (xs : List A) → AllAbove a xs → contains xs b ≡ true → o.cmp a b ≡ Ordering.lt
  unfolding contains
  above_of_contains a b [] h m = cc
  above_of_contains a b (x ∷ xs) h m = ground (arith, above_of_contains a b xs h.1)

  -- The head of one list is not below the head of the other, if its elements stand in the other.
  heads_not_lt :
      (x y : A) (ys : List A) → AllAbove y ys → contains (y ∷ ys) x ≡ true → o.cmp x y ≢ Ordering.lt
  unfolding contains
  heads_not_lt x y ys h m l =
      ground (arith, o.cmp_swap x y, o.cmp_refl x, above_of_contains y x ys h)

  tails_agree :
      (x : A) (xs ys : List A)
      → AllAbove x xs
      → AllAbove x ys
      → ((a : A) → contains (x ∷ xs) a ≡ contains (x ∷ ys) a)
      → (a : A) → contains xs a ≡ contains ys a
  unfolding contains
  tails_agree x xs ys h k same a = ground (arith, same a, above_fresh x xs h, above_fresh x ys k)

  heads_eq :
      (x y : A) (xs ys : List A)
      → AllAbove x xs
      → AllAbove y ys
      → ((a : A) → contains (x ∷ xs) a ≡ contains (y ∷ ys) a)
      → x ≡ y
  unfolding contains
  heads_eq x y xs ys h k same =
      let x_in : contains (y ∷ ys) x ≡ true = ground (arith, same x) in
      let y_in : contains (x ∷ xs) y ≡ true = ground (arith, same y) in
      o.cmp_eq x y
        (ground (arith, heads_not_lt x y ys k x_in, heads_not_lt y x xs h y_in, o.cmp_swap x y))

  -- A strictly increasing list is determined by its elements.
  pub IsIncreasing-unique :
      (xs ys : List A)
      → IsIncreasing xs
      → IsIncreasing ys
      → ((a : A) → contains xs a ≡ contains ys a)
      → xs ≡ ys
  unfolding contains
  IsIncreasing-unique [] [] h k same = refl
  IsIncreasing-unique [] (y ∷ ys) h k same = ground (arith, same y)
  IsIncreasing-unique (x ∷ xs) [] h k same = ground (arith, same x)
  IsIncreasing-unique (x ∷ xs) (y ∷ ys) h k same =
      let e : x ≡ y = heads_eq x y xs ys h.0 k.0 same in
      let below : AllAbove x ys = subst (λ z. AllAbove z ys) (sym e) k.0 in
      let agree = subst (λ z. (a : A) → contains (x ∷ xs) a ≡ contains (z ∷ ys) a) (sym e) same in
      cc (e, IsIncreasing-unique xs ys h.1 k.1 (tails_agree x xs ys h.0 below agree))
