-- ===== src/Checks/KindTable/Bisect.antt =====
-- `bisect.bisect_left` of the standard library, as the code calls it: the first index of a sorted list
-- whose element is not below the one that is wanted.
use tesser_build.Prelude.{
  ℕ, zero, suc, ◌+◌, ◌≤◌, ◌<◌, ◌≡◌, refl, Bool, true, false, List, [], ◌∷◌, Option, none, some,
  arith, ltb, if◌then◌else◌,
}
use tesser_build.Prelude.Lists.{length, get_elem?}
use Prim.Native.Nat.{◌/◌}

module _ {ℓ} {A : Type ℓ} (below : A → Bool) where
  abbrev pub below_at : Option A → Bool
  below_at none = false
  below_at (some a) = below a

  -- `while lo < hi: mid = (lo + hi) // 2; if a[mid] < x: lo = mid + 1 else: hi = mid`
  bisect_loop : ℕ → List A → ℕ → ℕ → ℕ
  bisect_loop zero xs lo hi = lo
  bisect_loop (suc fuel) xs lo hi =
      let mid = (lo + hi) / 2 in
      let right = bisect_loop fuel xs (mid + 1) hi in
      let left = bisect_loop fuel xs lo mid in
      if ltb lo hi then (if below_at (get_elem? xs mid) then right else left) else lo

  unfoldable pub bisect_left : List A → ℕ
  unfolding bisect_loop
  bisect_left xs = bisect_loop (length xs) xs 0 (length xs)

  -- The number of elements in front of the first that is not below.
  unfoldable pub position : List A → ℕ
  position [] = 0
  position (x ∷ xs) = let rest = position xs in if below x then suc rest else 0

  -- Once an element is not below, none after it is.
  abbrev pub IsPartitioned : List A → Type 0
  IsPartitioned xs =
      (i j : ℕ) → i ≤ j → below_at (get_elem? xs j) ≡ true → below_at (get_elem? xs i) ≡ true

  position-le : (xs : List A) → position xs ≤ length xs
  unfolding position
  position-le [] = omega arith
  position-le (x ∷ xs) = ground (arith, position-le xs)

  position_of_not_below :
      (xs : List A) (i : ℕ) → below_at (get_elem? xs i) ≡ false → position xs ≤ i
  unfolding position
  position_of_not_below [] i h = omega arith
  position_of_not_below (x ∷ xs) zero h = ground arith
  position_of_not_below (x ∷ xs) (suc i) h = ground (arith, position_of_not_below xs i h)

  not_below_position : (xs : List A) → below_at (get_elem? xs (position xs)) ≡ false
  unfolding position
  not_below_position [] = refl
  not_below_position (x ∷ xs) = ground (arith, not_below_position xs)

  position_of_below :
      (xs : List A) (i : ℕ) → IsPartitioned xs → below_at (get_elem? xs i) ≡ true → i < position xs
  position_of_below xs i p h = ground (arith, p (position xs) i, not_below_position xs)

  bisect_loop-position :
      (fuel : ℕ) (xs : List A) (lo hi : ℕ)
      → IsPartitioned xs
      → hi ≤ lo + fuel
      → lo ≤ position xs
      → position xs ≤ hi
      → bisect_loop fuel xs lo hi ≡ position xs
  unfolding bisect_loop
  bisect_loop-position zero xs lo hi p f l h = omega arith
  bisect_loop-position (suc fuel) xs lo hi p f l h = ground (
    arith,
    position_of_below xs ((lo + hi) / 2) p,
    position_of_not_below xs ((lo + hi) / 2),
    bisect_loop-position fuel xs ((lo + hi) / 2 + 1) hi p,
    bisect_loop-position fuel xs lo ((lo + hi) / 2) p,
  )

  -- On a list that is partitioned the loop ends within its fuel, at the first element not below.
  pub bisect_left-position : (xs : List A) → IsPartitioned xs → bisect_left xs ≡ position xs
  unfolding bisect_left
  bisect_left-position xs p =
      bisect_loop-position (length xs) xs 0 (length xs) p (omega arith) (omega arith)
        (position-le xs)
