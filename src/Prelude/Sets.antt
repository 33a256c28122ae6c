-- ===== src/Prelude/Sets.antt =====
-- Python sets as lists without repetition, and membership in the lists that set operations give.
use tesser_build.Prelude.Tests.{if◌then◌else◌, Bool-ext}
use tesser_build.Prelude.Equality.{Eq, ◌==◌, contains, eq_refl, eq→≡}
use tesser_build.Prelude.Lists.{keep, any, all}
use mathlib.Core.Path.{◌≡◌, refl, sym, ◌∙◌}
use mathlib.Core.Bool.{Bool, true, false, not, ◌&&◌, ◌||◌}
use mathlib.Core.List.{List, [], ◌∷◌, ◌++◌}
use native.Mathlib.Omega.{arith}

module _ {ℓ} {A : Type ℓ} ⦃e : Eq A⦄ where
  -- `frozenset(xs)`, each element once.
  unfoldable pub to_set : List A → List A
  unfolding contains
  to_set [] = []
  to_set (x ∷ xs) = let rest = to_set xs in if contains rest x then rest else x ∷ rest

  -- `xs - ys`
  unfoldable pub difference : List A → List A → List A
  unfolding contains
  difference xs ys = keep (λ x. not (contains ys x)) xs

  -- No element stands twice.
  abbrev pub Nodup : List A → Type 0
  Nodup [] = Unit
  Nodup (x ∷ xs) = (contains xs x ≡ false) × Nodup xs

  pub contains-cons :
      (x : A) (xs : List A) (a : A) → contains (x ∷ xs) a ≡ (a == x || contains xs a)
  unfolding contains
  contains-cons x xs a = refl

  pub contains-append :
      (xs ys : List A) (a : A) → contains (xs ++ ys) a ≡ (contains xs a || contains ys a)
  unfolding contains
  contains-append [] ys a = refl
  contains-append (x ∷ xs) ys a = ground (arith, contains-append xs ys a)

  pub contains-keep :
      (p : A → Bool) (xs : List A) (a : A) → contains (keep p xs) a ≡ (contains xs a && p a)
  unfolding contains
  contains-keep p [] a = refl
  contains-keep p (x ∷ xs) a = ground (arith, contains-keep p xs a)

  pub contains-to_set : (xs : List A) (a : A) → contains (to_set xs) a ≡ contains xs a
  unfolding contains to_set
  contains-to_set [] a = refl
  contains-to_set (x ∷ xs) a = ground (arith, contains-to_set xs a, contains-to_set xs x)

  pub contains-difference :
      (xs ys : List A) (a : A)
      → contains (difference xs ys) a ≡ (contains xs a && not (contains ys a))
  unfolding difference
  contains-difference xs ys a = contains-keep (λ x. not (contains ys x)) xs a

  pub to_set-Nodup : (xs : List A) → Nodup (to_set xs)
  unfolding to_set
  to_set-Nodup [] = tt
  to_set-Nodup (x ∷ xs) = ground (arith, to_set-Nodup xs)

  pub keep-Nodup : (p : A → Bool) (xs : List A) → Nodup xs → Nodup (keep p xs)
  keep-Nodup p [] u = tt
  keep-Nodup p (x ∷ xs) u = ground (arith, keep-Nodup p xs u.1, contains-keep p xs x)

  -- A Boolean test that holds somewhere in the list holds of an element of it.
  pub any_of_contains :
      (p : A → Bool) (xs : List A) (a : A) → contains xs a ≡ true → p a ≡ true → any p xs ≡ true
  unfolding contains
  any_of_contains p [] a m h = m
  any_of_contains p (x ∷ xs) a m h = ground (arith, any_of_contains p xs a)

  pub all_of_contains :
      (p : A → Bool) (xs : List A) (a : A) → all p xs ≡ true → contains xs a ≡ true → p a ≡ true
  unfolding contains
  all_of_contains p [] a h m = absurd (ground arith)
  all_of_contains p (x ∷ xs) a h m = ground (arith, all_of_contains p xs a)

  pub all_of_each :
      (p : A → Bool) (xs : List A) → ((a : A) → contains xs a ≡ true → p a ≡ true) → all p xs ≡ true
  unfolding contains
  all_of_each p [] h = refl
  all_of_each p (x ∷ xs) h =
      ground (arith, h x, eq_refl x, all_of_each p xs (λ a m. h a (ground arith)))

  -- A test of all elements does not depend on order or repetition.
  pub all_congr :
      (p : A → Bool) (xs ys : List A)
      → ((a : A) → contains xs a ≡ contains ys a)
      → all p xs ≡ all p ys
  all_congr p xs ys same =
      Bool-ext _ _ (λ h. all_of_each p ys (λ a m. all_of_contains p xs a h (same a ∙ m)))
        (λ h. all_of_each p xs (λ a m. all_of_contains p ys a h (sym (same a) ∙ m)))

  pub all-to_set : (p : A → Bool) (xs : List A) → all p (to_set xs) ≡ all p xs
  all-to_set p xs = all_congr p (to_set xs) xs (contains-to_set xs)

  pub single_contains : (a : A) → contains (a ∷ []) a ≡ true
  unfolding contains
  single_contains a = ground (arith, eq_refl a)

  single_all : (a : A) → all (λ x. x == a) (a ∷ []) ≡ true
  single_all a = ground (arith, eq_refl a)

  pub single_of_to_set :
      (a : A) (xs : List A)
      → to_set xs ≡ a ∷ []
      → (contains xs a ≡ true) × (all (λ x. x == a) xs ≡ true)
  single_of_to_set a xs h = (
    sym (contains-to_set xs a) ∙ rw h (single_contains a),
    sym (all-to_set (λ x. x == a) xs) ∙ rw h (single_all a),
  )

  Nodup-single :
      (a : A) (xs : List A)
      → Nodup xs
      → contains xs a ≡ true
      → all (λ x. x == a) xs ≡ true
      → xs ≡ a ∷ []
  unfolding contains
  Nodup-single a [] u m h = absurd (ground arith)
  Nodup-single a (x ∷ []) u m h = ground (arith, eq→≡ x a)
  Nodup-single a (x ∷ y ∷ xs) u m h = absurd (ground (arith, eq→≡ x a, eq→≡ y a, eq_refl a, u.0))

  -- The set of a list is a singleton when the element is in the list and no other is.
  pub to_set_single_of :
      (a : A) (xs : List A)
      → (contains xs a ≡ true) × (all (λ x. x == a) xs ≡ true)
      → to_set xs ≡ a ∷ []
  to_set_single_of a xs h =
      Nodup-single a (to_set xs) (to_set-Nodup xs) (contains-to_set xs a ∙ h.0)
        (all-to_set (λ x. x == a) xs ∙ h.1)
