-- ===== src/Prelude/Results.antt =====
-- A computation that may raise, with the message of its error.
use tesser_build.Prelude.Texts.{Str}
use tesser_build.Prelude.Lists.{all}
use native.Mathlib.Omega.{arith}
use mathlib.Core.Path.{◌≡◌, refl}
use mathlib.Core.Logic.{◌⊎◌, inl, inr}
use mathlib.Core.Bool.{Bool, true, false}
use mathlib.Core.List.{List, [], ◌∷◌}

pub data Result {ℓ} (A : Type ℓ) : Type ℓ where
  raise : Str → Result A
  ok : A → Result A

-- Whether a value is returned.
abbrev pub succeeds {ℓ} : {A : Type ℓ} → Result A → Bool
succeeds (raise message) = false
succeeds (ok value) = true

pub Result-cases {ℓ} :
    {A : Type ℓ} (r : Result A) → ((m : Str) × (r ≡ raise m)) ⊎ ((a : A) × (r ≡ ok a))
Result-cases (raise m) = inl (m, refl)
Result-cases (ok a) = inr (a, refl)

-- `if not test: raise ValueError(message)`
abbrev pub guard : Bool → Str → Result (Unit {0})
guard false message = raise message
guard true message = ok tt

ok-cases {κ} :
    {B : Type κ} (r : Result B) (rs : Result (List B)) {ys : List B}
    → (elim r [
      | raise message ↦ raise message
      | ok y ↦ elim rs [ raise message ↦ raise message | ok ys ↦ ok (y ∷ ys) ]
    ])
      ≡ ok ys
    → (y : B) × (ys' : List B) × (r ≡ ok y) × (rs ≡ ok ys') × (ys ≡ y ∷ ys')
ok-cases (raise m) rs h = cc
ok-cases (ok y) (raise m) h = cc
ok-cases (ok y) (ok ys') h = (y, ys', refl, refl, cc)

module _ {ℓ κ} {A : Type ℓ} {B : Type κ} where
  infixl 5 ◌>>=◌
  -- What comes after an error does not run.
  abbrev pub ◌>>=◌ : Result A → (A → Result B) → Result B
  raise message >>= next = raise message
  ok value >>= next = next value

  pub >>=-eq-ok :
      (first : Result A) (next : A → Result B) {b : B}
      → (first >>= next) ≡ ok b
      → (a : A) × (first ≡ ok a) × (next a ≡ ok b)
  >>=-eq-ok (raise message) next h = cc
  >>=-eq-ok (ok value) next h = (value, refl, h)

  pub succeeds->>= :
      (first : Result A) (next : A → Result B)
      → succeeds first ≡ true
      → ((a : A) → first ≡ ok a → succeeds (next a) ≡ true)
      → succeeds (first >>= next) ≡ true
  succeeds->>= (raise message) next h k = cc
  succeeds->>= (ok value) next h k = k value refl

  -- `[f(x) for x in xs]` for an `f` that may raise: the first error ends the loop.
  unfoldable pub traverse : (A → Result B) → List A → Result (List B)
  traverse f [] = ok []
  traverse f (x ∷ xs) =
      let rest = traverse f xs in
      elim (f x) [
        | raise message ↦ raise message
        | ok y ↦ elim rest [ raise message ↦ raise message | ok ys ↦ ok (y ∷ ys) ]
      ]

  -- What a run over a list that is not empty consists of.
  pub traverse-cons :
      (f : A → Result B) (x : A) (xs : List A) {ys : List B}
      → traverse f (x ∷ xs) ≡ ok ys
      → (y : B) × (ys' : List B) × (f x ≡ ok y) × (traverse f xs ≡ ok ys') × (ys ≡ y ∷ ys')
  unfolding traverse
  traverse-cons f x xs h = ok-cases (f x) (traverse f xs) h

  -- A run over a list succeeds if it succeeds on every element.
  pub succeeds-traverse_of_all :
      (f : A → Result B) (xs : List A)
      → all (λ x. succeeds (f x)) xs ≡ true
      → succeeds (traverse f xs) ≡ true
  unfolding traverse
  succeeds-traverse_of_all f [] h = refl
  succeeds-traverse_of_all f (x ∷ xs) h = ground (arith, succeeds-traverse_of_all f xs)

infixl 5 ◌>>◌
abbrev pub ◌>>◌ {ℓ} : {B : Type ℓ} → Result (Unit {0}) → Result B → Result B
raise message >> after = raise message
ok done >> after = after
