-- ===== src/Checks/Reexports/Chain.antt =====
-- The loop of `canonical`: it follows a chain of re-exports to its end, and the rows of the table are
-- rounds enough.
use tesser_build.Prelude.{
  ℕ, suc, ◌≤◌, ◌<◌, true, not, ◌≡◌, refl, ap, List, [], ◌∷◌, map, ◌==◌, Eq, Ord, list_ord, nat_ord,
  pair_ord, nat_eq, list_eq, pair_eq, contains, eq_refl, eq→≡, none, some, arith, inl, inr,
  Bool-cases,
}
use tesser_build.Prelude.Dict.{lookup}
use tesser_build.Prelude.Lists.{length, length-map, keep, length-keep-le}
use tesser_build.Prelude.Sets.{Nodup, contains-keep}
use tesser_build.Prelude.Sorting.{insert, sorted}
use tesser_build.Checks.Values.{Symbol, symbol}
use tesser_build.Checks.KindTable.{Key, key_of}
use tesser_build.Checks.KindTable.Search.{row_key}
use tesser_build.Checks.Reexports.{
  Reexport, Row, numbered, stands_for, follow, reexport_table, canonical,
}
use tesser_build.Checks.Reexports.Table.{stands_for-lookup}

-- The chain of re-exports from a name: the names that are passed, and the name at the end, which
-- nothing re-exports.
pub data Chain (reexports : List Reexport) : Key → List Key → Key → Type 0 where
  stop : {k : Key} → lookup k reexports ≡ none → Chain reexports k [] k
  next :
      {k j last : Key} {passed : List Key}
      → lookup k reexports ≡ some j
      → Chain reexports j passed last
      → Chain reexports k (k ∷ passed) last

module _ {ℓ} {A : Type ℓ} ⦃e : Eq A⦄ where
  length-without :
      (x : A) (ys : List A)
      → contains ys x ≡ true
      → length (keep (λ y. not (y == x)) ys) < length ys
  unfolding contains
  length-without x [] h = cc
  length-without x (y ∷ ys) h =
      ground
        (arith, length-without x ys, length-keep-le (λ y. not (y == x)) ys, eq→≡ x y, eq_refl x)

  -- The pigeonhole principle.
  length-le_of_Nodup :
      (xs ys : List A)
      → Nodup xs
      → ((a : A) → contains xs a ≡ true → contains ys a ≡ true)
      → length xs ≤ length ys
  unfolding contains
  length-le_of_Nodup [] ys u h = omega arith
  length-le_of_Nodup (x ∷ xs) ys u h =
      let rest = keep (λ y. not (y == x)) ys in
      let inside : (a : A) → contains xs a ≡ true → contains rest a ≡ true =
        λ a m. ground (arith, h a, contains-keep (λ y. not (y == x)) ys a, u.0, eq→≡ a x) in
      ground (
        arith,
        length-le_of_Nodup xs rest u.1 inside,
        length-without x ys (h x (ground (arith, eq_refl x))),
      )

length-insert {ℓ} :
    {A : Type ℓ} ⦃o : Ord A⦄ (x : A) (xs : List A) → length (insert x xs) ≡ suc (length xs)
unfolding insert
length-insert x [] = refl
length-insert x (y ∷ ys) = ground (arith, length-insert x ys)

length-sorted {ℓ} : {A : Type ℓ} ⦃o : Ord A⦄ (xs : List A) → length (sorted xs) ≡ length xs
unfolding sorted
length-sorted [] = refl
length-sorted (x ∷ xs) = ground (arith, length-insert x (sorted xs), length-sorted xs)

length-numbered :
    (i : ℕ) (reexports : List Reexport) → length (numbered i reexports) ≡ length reexports
unfolding numbered
length-numbered i [] = refl
length-numbered i (_ ∷ rest) = ap suc (length-numbered (suc i) rest)

contains-keys_of_lookup :
    (reexports : List Reexport) (k j : Key)
    → lookup k reexports ≡ some j
    → contains (map row_key reexports) k ≡ true
unfolding lookup contains
contains-keys_of_lookup [] k j h = cc
contains-keys_of_lookup ((exported, defined) ∷ rest) k j h =
    ground (arith, contains-keys_of_lookup rest k j)

abbrev Rest : List Reexport → Key → Key → List Key → Type 0
Rest reexports k last passed =
    (passed' : List Key) × Chain reexports k passed' last × (length passed' ≤ length passed)

module _ {reexports : List Reexport} where
  passed-exported :
      {k last : Key} {passed : List Key}
      → Chain reexports k passed last
      → (a : Key) → contains passed a ≡ true
      → contains (map row_key reexports) a ≡ true
  unfolding contains
  passed-exported (stop h) a m = cc
  passed-exported (next {k} {j} h c) a m =
      ground (arith, passed-exported c a, eq→≡ a k, contains-keys_of_lookup reexports k j h)

  Chain-length :
      {k k' last last' : Key} {passed passed' : List Key}
      → Chain reexports k passed last
      → Chain reexports k' passed' last'
      → k ≡ k'
      → length passed ≡ length passed'
  Chain-length (stop h) (stop h') e = refl
  Chain-length (stop h) (next h' c') e = cc
  Chain-length (next h c) (stop h') e = cc
  Chain-length (next h c) (next h' c') e = ap suc (Chain-length c c' cc)

  -- A name that a chain passes has the rest of the chain as its own.
  Chain-suffix :
      {j last : Key} {passed : List Key} (k : Key)
      → Chain reexports j passed last
      → contains passed k ≡ true
      → Rest reexports k last passed
  unfolding contains
  Chain-suffix k (stop h) m = cc
  Chain-suffix k (next {k = j} {passed} h c) m = elim (Bool-cases (k == j)) [
    | inl here ↦ (j ∷ passed, rw (eq→≡ k j here) (next h c), omega arith)
    | inr other ↦
        let (passed', c', l) = Chain-suffix k c (ground arith) in (passed', c', omega arith)
  ]

  -- A chain that ends passes no name twice.
  passed-Nodup : {k last : Key} {passed : List Key} → Chain reexports k passed last → Nodup passed
  passed-Nodup (stop h) = tt
  passed-Nodup (next {k} {passed} h c) = (
    elim (Bool-cases (contains passed k)) [
      | inl again ↦
          let (passed', c', l) = Chain-suffix k c again in
          absurd (omega (arith, Chain-length (next h c) c' refl))
      | inr fresh ↦ fresh
    ],
    passed-Nodup c,
  )

  follow-Chain :
      (left : List Row) {k last : Key} {passed : List Key}
      → Chain reexports k passed last
      → (rows : List Row) → ((key : Key) → stands_for rows key ≡ lookup key reexports)
      → length passed ≤ length left
      → follow rows left k ≡ last
  unfolding follow
  follow-Chain [] (stop h) rows f l = refl
  follow-Chain [] (next h c) rows f l = absurd (omega arith)
  follow-Chain (_ ∷ left) (stop {k} h) rows f l = ground (arith, f k)
  follow-Chain (_ ∷ left) (next {k} h c) rows f l = ground (arith, f k, follow-Chain left c rows f)

  -- When the chain of re-exports from a symbol ends, the loop finds its end, whatever the length of the chain.
  pub canonical-Chain :
      (s : Symbol) {last : Key} {passed : List Key}
      → Chain reexports (key_of s) passed last
      → canonical (reexport_table reexports) s
        ≡ symbol (record { module_name = last.0; name = last.1 })
  unfolding canonical reexport_table
  canonical-Chain s {last} {passed} c =
      let rows = sorted (numbered 0 reexports) in
      let enough : length passed ≤ length rows = ground (
        arith,
        length-le_of_Nodup passed (map row_key reexports) (passed-Nodup c) (passed-exported c),
        length-map row_key reexports,
        length-sorted (numbered 0 reexports),
        length-numbered 0 reexports,
      ) in
      rw (follow-Chain rows c rows (stands_for-lookup reexports) enough)
