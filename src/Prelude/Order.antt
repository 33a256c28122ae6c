-- ===== src/Prelude/Order.antt =====
-- Python's order on numbers, texts and tuples: a total order with a three-way comparison.
use Prim.Native.Nat.{ℕ, compare, Ordering}
use mathlib.Core.Path.{◌≡◌, refl}
use mathlib.Core.Bool.{Bool, true, false}
use mathlib.Core.List.{List, [], ◌∷◌}
use native.Mathlib.Omega.{arith}

abbrev pub swap : Ordering → Ordering
swap Ordering.lt = Ordering.gt
swap Ordering.eq = Ordering.eq
swap Ordering.gt = Ordering.lt

pub record Ord {ℓ} (A : Type ℓ) : Type ℓ where
  pub cmp : A → A → Ordering
  pub cmp_eq : (a b : A) → cmp a b ≡ Ordering.eq → a ≡ b
  pub cmp_refl : (a : A) → cmp a a ≡ Ordering.eq
  pub cmp_swap : (a b : A) → cmp b a ≡ swap (cmp a b)
  pub cmp_trans :
      (a b c : A) → cmp a b ≡ Ordering.lt → cmp b c ≡ Ordering.lt → cmp a c ≡ Ordering.lt

abbrev pub is_lt : Ordering → Bool
is_lt Ordering.lt = true
is_lt _ = false

abbrev pub is_le : Ordering → Bool
is_le Ordering.gt = false
is_le _ = true

module _ {ℓ} {A : Type ℓ} ⦃o : Ord A⦄ where
  abbrev pub less : A → A → Bool
  less a b = is_lt (o.cmp a b)

  abbrev pub less_eq : A → A → Bool
  less_eq a b = is_le (o.cmp a b)

-- The first comparison that differs decides.
abbrev and_then : Ordering → Ordering → Ordering
and_then Ordering.eq o = o
and_then o _ = o

module _ {ℓ} {A : Type ℓ} ⦃o : Ord A⦄ where
  cmp_list : List A → List A → Ordering
  cmp_list [] [] = Ordering.eq
  cmp_list [] (y ∷ ys) = Ordering.lt
  cmp_list (x ∷ xs) [] = Ordering.gt
  cmp_list (x ∷ xs) (y ∷ ys) = and_then (o.cmp x y) (cmp_list xs ys)

  cmp_list_eq : (a b : List A) → cmp_list a b ≡ Ordering.eq → a ≡ b
  unfolding cmp_list
  cmp_list_eq [] [] h = refl
  cmp_list_eq [] (y ∷ ys) h = cc
  cmp_list_eq (x ∷ xs) [] h = cc
  cmp_list_eq (x ∷ xs) (y ∷ ys) h = ground (arith, o.cmp_eq x y, cmp_list_eq xs ys)

  cmp_list_refl : (a : List A) → cmp_list a a ≡ Ordering.eq
  unfolding cmp_list
  cmp_list_refl [] = refl
  cmp_list_refl (x ∷ xs) = rw (o.cmp_refl x) (cmp_list_refl xs)

  cmp_list_swap : (a b : List A) → cmp_list b a ≡ swap (cmp_list a b)
  unfolding cmp_list
  cmp_list_swap [] [] = refl
  cmp_list_swap [] (y ∷ ys) = refl
  cmp_list_swap (x ∷ xs) [] = refl
  cmp_list_swap (x ∷ xs) (y ∷ ys) = ground (arith, o.cmp_swap x y, cmp_list_swap xs ys)

  cmp_list_trans :
      (a b c : List A)
      → cmp_list a b ≡ Ordering.lt
      → cmp_list b c ≡ Ordering.lt
      → cmp_list a c ≡ Ordering.lt
  unfolding cmp_list
  cmp_list_trans [] [] c h k = k
  cmp_list_trans [] (y ∷ ys) [] h k = cc
  cmp_list_trans [] (y ∷ ys) (z ∷ zs) h k = refl
  cmp_list_trans (x ∷ xs) [] c h k = cc
  cmp_list_trans (x ∷ xs) (y ∷ ys) [] h k = cc
  cmp_list_trans (x ∷ xs) (y ∷ ys) (z ∷ zs) h k =
      ground (
        arith,
        o.cmp_eq x y,
        o.cmp_eq y z,
        o.cmp_refl z,
        o.cmp_trans x y z,
        cmp_list_trans xs ys zs,
      )

nat_cmp_eq : (a b : ℕ) → compare a b ≡ Ordering.eq → a ≡ b
nat_cmp_eq a b h = ground arith

nat_cmp_refl : (a : ℕ) → compare a a ≡ Ordering.eq
nat_cmp_refl a = ground arith

nat_cmp_swap : (a b : ℕ) → compare b a ≡ swap (compare a b)
nat_cmp_swap a b = ground arith

nat_cmp_trans :
    (a b c : ℕ) → compare a b ≡ Ordering.lt → compare b c ≡ Ordering.lt → compare a c ≡ Ordering.lt
nat_cmp_trans a b c h k = ground arith

instance unfoldable pub nat_ord : Ord ℕ
unfolding nat_cmp_eq nat_cmp_refl nat_cmp_swap nat_cmp_trans
nat_ord = record {
  cmp = compare;
  cmp_eq = nat_cmp_eq;
  cmp_refl = nat_cmp_refl;
  cmp_swap = nat_cmp_swap;
  cmp_trans = nat_cmp_trans;
}

instance unfoldable pub list_ord {ℓ} : {A : Type ℓ} ⦃o : Ord A⦄ → Ord (List A)
unfolding cmp_list cmp_list_eq cmp_list_refl cmp_list_swap cmp_list_trans
list_ord = record {
  cmp = cmp_list;
  cmp_eq = cmp_list_eq;
  cmp_refl = cmp_list_refl;
  cmp_swap = cmp_list_swap;
  cmp_trans = cmp_list_trans;
}

module _ {ℓ κ} {A : Type ℓ} {B : Type κ} ⦃o : Ord A⦄ ⦃u : Ord B⦄ where
  cmp_pair : A × B → A × B → Ordering
  cmp_pair (a, b) (a', b') = and_then (o.cmp a a') (u.cmp b b')

  cmp_pair_eq : (p q : A × B) → cmp_pair p q ≡ Ordering.eq → p ≡ q
  unfolding cmp_pair
  cmp_pair_eq (a, b) (a', b') h = ground (arith, o.cmp_eq a a', u.cmp_eq b b')

  cmp_pair_refl : (p : A × B) → cmp_pair p p ≡ Ordering.eq
  unfolding cmp_pair
  cmp_pair_refl (a, b) = rw (o.cmp_refl a) (u.cmp_refl b)

  cmp_pair_swap : (p q : A × B) → cmp_pair q p ≡ swap (cmp_pair p q)
  unfolding cmp_pair
  cmp_pair_swap (a, b) (a', b') = ground (arith, o.cmp_swap a a', u.cmp_swap b b')

  cmp_pair_trans :
      (p q r : A × B)
      → cmp_pair p q ≡ Ordering.lt
      → cmp_pair q r ≡ Ordering.lt
      → cmp_pair p r ≡ Ordering.lt
  unfolding cmp_pair
  cmp_pair_trans (a, b) (a', b') (a'', b'') h k = ground (
    arith,
    o.cmp_eq a a',
    o.cmp_eq a' a'',
    o.cmp_refl a'',
    o.cmp_trans a a' a'',
    u.cmp_trans b b' b'',
  )

  instance unfoldable pub pair_ord : Ord (A × B)
  unfolding cmp_pair cmp_pair_eq cmp_pair_refl cmp_pair_swap cmp_pair_trans
  pair_ord = record {
    cmp = cmp_pair;
    cmp_eq = cmp_pair_eq;
    cmp_refl = cmp_pair_refl;
    cmp_swap = cmp_pair_swap;
    cmp_trans = cmp_pair_trans;
  }
