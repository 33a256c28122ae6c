-- ===== src/Prelude/Dict.antt =====
-- Python dicts in insertion order, as association lists with each key once.
use tesser_build.Prelude.Tests.{if◌then◌else◌, Bool-cases}
use tesser_build.Prelude.Equality.{Eq, ◌==◌, contains, eq→≡}
use tesser_build.Prelude.Lists.{all}
use tesser_build.Prelude.Sets.{Nodup}
use mathlib.Core.Path.{◌≡◌, refl, subst}
use mathlib.Core.Logic.{inl, inr}
use mathlib.Core.Bool.{Bool, true, false, ◌||◌}
use mathlib.Core.Option.{Option, none, some}
use mathlib.Core.List.{List, [], ◌∷◌}
use native.Mathlib.Omega.{arith}

abbrev pub Dict {ℓ κ} : Type ℓ → Type κ → Type (ℓ ⊔ κ)
Dict K V = List (K × V)

unfoldable pub keys {ℓ κ} : {K : Type ℓ} {V : Type κ} → Dict K V → List K
keys [] = []
keys ((k, v) ∷ d) = k ∷ keys d

unfoldable pub values {ℓ κ} : {K : Type ℓ} {V : Type κ} → Dict K V → List V
values [] = []
values ((k, v) ∷ d) = v ∷ values d

module _ {ℓ κ} {K : Type ℓ} {V : Type κ} ⦃e : Eq K⦄ where
  -- `d.get(k)`
  unfoldable pub lookup : K → Dict K V → Option V
  lookup k [] = none
  lookup k ((j, v) ∷ d) = if k == j then some v else lookup k d

  -- `d[k] = v`: a key that is there keeps its place.
  unfoldable pub insert : K → V → Dict K V → Dict K V
  insert k v [] = (k, v) ∷ []
  insert k v ((j, w) ∷ d) = if k == j then (j, v) ∷ d else (j, w) ∷ insert k v d

  insert_all : Dict K V → Dict K V → Dict K V
  insert_all d [] = d
  insert_all d ((k, v) ∷ rows) = insert_all (insert k v d) rows

  -- `dict(rows)`: of two rows with one key the later gives the value.
  unfoldable pub of_rows : Dict K V → Dict K V
  unfolding insert_all insert
  of_rows rows = insert_all [] rows

  pub lookup-insert :
      (j k : K) (v : V) (d : Dict K V)
      → lookup j (insert k v d) ≡ (if j == k then some v else lookup j d)
  unfolding insert lookup
  lookup-insert j k v [] = refl
  lookup-insert j k v (_ ∷ d) = ground (arith, lookup-insert j k v d)

  pub contains-keys-insert :
      (k : K) (v : V) (d : Dict K V) (j : K)
      → contains (keys (insert k v d)) j ≡ (j == k || contains (keys d) j)
  unfolding insert keys contains
  contains-keys-insert k v [] j = refl
  contains-keys-insert k v (_ ∷ d) j = ground (arith, contains-keys-insert k v d j)

  pub keys-insert-Nodup :
      (k : K) (v : V) (d : Dict K V) → Nodup (keys d) → Nodup (keys (insert k v d))
  unfolding insert keys contains
  keys-insert-Nodup k v [] u = (refl, tt)
  keys-insert-Nodup k v ((j, w) ∷ d) u =
      ground (arith, keys-insert-Nodup k v d u.1, contains-keys-insert k v d j)

  pub lookup-none_of_not_contains :
      (k : K) (d : Dict K V) → contains (keys d) k ≡ false → lookup k d ≡ none
  unfolding keys contains lookup
  lookup-none_of_not_contains k [] h = refl
  lookup-none_of_not_contains k (_ ∷ d) h = ground (arith, lookup-none_of_not_contains k d)

  pub lookup-some_of_contains :
      (k : K) (d : Dict K V) → contains (keys d) k ≡ true → (v : V) × (lookup k d ≡ some v)
  unfolding keys contains lookup
  lookup-some_of_contains k [] h = cc
  lookup-some_of_contains k ((j, v) ∷ d) h = elim (Bool-cases (k == j)) [
    | inl same ↦ (v, rw same)
    | inr other ↦
        let (w, found) = lookup-some_of_contains k d (rw other at h) in (w, rw other found)
  ]

  insert_all-Nodup : (d rows : Dict K V) → Nodup (keys d) → Nodup (keys (insert_all d rows))
  unfolding insert_all
  insert_all-Nodup d [] u = u
  insert_all-Nodup d ((k, v) ∷ rows) u =
      insert_all-Nodup (insert k v d) rows (keys-insert-Nodup k v d u)

  -- A dict has each key once.
  pub of_rows-Nodup : (rows : Dict K V) → Nodup (keys (of_rows rows))
  unfolding of_rows
  of_rows-Nodup rows = insert_all-Nodup [] rows (unfold keys in tt)

  contains-keys-insert_all :
      (d rows : Dict K V) (j : K)
      → contains (keys (insert_all d rows)) j ≡ (contains (keys rows) j || contains (keys d) j)
  unfolding insert_all keys contains
  contains-keys-insert_all d [] j = refl
  contains-keys-insert_all d ((k, v) ∷ rows) j =
      ground (arith, contains-keys-insert_all (insert k v d) rows j, contains-keys-insert k v d j)

  -- A dict has the keys of the rows it was built from.
  pub contains-keys-of_rows :
      (rows : Dict K V) (j : K) → contains (keys (of_rows rows)) j ≡ contains (keys rows) j
  unfolding of_rows keys contains
  contains-keys-of_rows rows j = ground (arith, contains-keys-insert_all [] rows j)

  pub all-insert :
      (p : K × V → Bool) (k : K) (v : V) (d : Dict K V)
      → p (k, v) ≡ true
      → all p d ≡ true
      → all p (insert k v d) ≡ true
  unfolding insert
  all-insert p k v [] h g = ground arith
  all-insert p k v ((j, w) ∷ d) h g = elim (Bool-cases (k == j)) [
    | inl same ↦
        let e : k ≡ j = eq→≡ k j same in
        let h' : p (j, v) ≡ true = subst (λ x. p (x, v) ≡ true) e h in ground arith
    | inr other ↦ ground (arith, all-insert p k v d h)
  ]

  all-insert_all :
      (p : K × V → Bool) (d rows : Dict K V)
      → all p rows ≡ true
      → all p d ≡ true
      → all p (insert_all d rows) ≡ true
  unfolding insert_all
  all-insert_all p d [] h g = g
  all-insert_all p d ((k, v) ∷ rows) h g =
      all-insert_all p (insert k v d) rows (ground arith) (all-insert p k v d (ground arith) g)

  -- What holds of all rows holds of all items of the dict.
  pub all-of_rows :
      (p : K × V → Bool) (rows : Dict K V) → all p rows ≡ true → all p (of_rows rows) ≡ true
  unfolding of_rows
  all-of_rows p rows h = all-insert_all p [] rows h refl

  -- What holds of all keys of a dict holds of a key of it.
  pub all_at_key :
      (q : K → Bool) (d : Dict K V) (k : K)
      → all q (keys d) ≡ true
      → contains (keys d) k ≡ true
      → q k ≡ true
  unfolding keys contains
  all_at_key q [] k h m = cc
  all_at_key q ((j, v) ∷ d) k h m = ground (arith, all_at_key q d k, eq→≡ k j)
