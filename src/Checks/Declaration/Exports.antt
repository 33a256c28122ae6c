-- ===== src/Checks/Declaration/Exports.antt =====
-- How many exports a declaration has, from its `export` lines.
use tesser_build.Prelude.{
  ℕ, Str, true, leb, ◌≡◌, List, [], ◌∷◌, ◌==◌, contains, list_eq, nat_eq, list_ord, nat_ord,
  eq_refl, eq→≡, arith, Bool-cases, inl, inr,
}
use tesser_build.Prelude.Lists.{all, length}
use tesser_build.Prelude.Sets.{all_of_each, all_of_contains}
use tesser_build.Prelude.Sorting.{IsIncreasing, sorted_set-IsIncreasing, contains-sorted_set}
use tesser_build.Checks.Names.{names}

module _ (e : Str) (xs : List Str) where
  same_all :
      (a : Str)
      → ((x : Str) → contains (a ∷ []) x ≡ contains (e ∷ xs) x)
      → all (λ x. x == e) xs ≡ true
  unfolding contains
  same_all a same =
      all_of_each (λ x. x == e) xs
        (λ x m. ground (arith, same x, same e, eq_refl e, eq→≡ x a, eq→≡ e a))

  two_differ :
      (a b : Str) (more : List Str)
      → IsIncreasing (a ∷ b ∷ more)
      → ((x : Str) → contains (a ∷ b ∷ more) x ≡ contains (e ∷ xs) x)
      → all (λ x. x == e) xs ≡ true
      → ⊥
  unfolding contains
  two_differ a b more inc same h = ground (
    arith,
    same a,
    same b,
    eq_refl a,
    eq_refl b,
    all_of_contains (λ x. x == e) xs a h,
    all_of_contains (λ x. x == e) xs b h,
    eq→≡ a e,
    eq→≡ b e,
    inc.0.0,
    (list_ord {A = ℕ}).cmp_refl e,
  )

  length-increasing :
      (l : List Str)
      → IsIncreasing l
      → ((x : Str) → contains l x ≡ contains (e ∷ xs) x)
      → leb (length l) 1 ≡ all (λ x. x == e) xs
  unfolding contains
  length-increasing [] inc same = absurd (ground (arith, same e, eq_refl e))
  length-increasing (a ∷ []) inc same = ground (arith, same_all a same)
  length-increasing (a ∷ b ∷ more) inc same = elim (Bool-cases (all (λ x. x == e) xs)) [
    | inl h ↦ absurd (two_differ a b more inc same h)
    | inr h ↦ ground arith
  ]

  -- A set has at most one element when all elements it is made of are the same.
  pub length-names : leb (length (names (e ∷ xs)).items) 1 ≡ all (λ x. x == e) xs
  unfolding names
  length-names =
      length-increasing _ (sorted_set-IsIncreasing (e ∷ xs)) (contains-sorted_set (e ∷ xs))
