-- ===== src/Checks/Blocks/Closure.antt =====
-- The blocks in the result of the loop, and the keys that have one.
use tesser_build.Prelude.{
  ℕ, zero, suc, ◌+◌, ◌≤◌, Str, true, ◌≡◌, ◌≢◌, refl, ◌∙◌, inl, inr, ap, subst, sym, eq→≡, List, [],
  ◌∷◌, contains, ◌==◌, none, some, arith, Option-cases, Bool-cases, list_eq, nat_eq, pair_eq,
}
use tesser_build.Prelude.Dict.{lookup, insert, lookup-insert}
use tesser_build.Prelude.Lists.{length, is_none, length-map, length-keep-le}
use tesser_build.Checks.KindTable.{Key}
use tesser_build.Checks.Blocks.{
  Blocks, Rule, State, Module, rules, first_block, derived_block, apply, round, settle,
  class_blocks, class_rule, name_rule,
}
use tesser_build.Checks.Blocks.Origins.{
  rules-Origin, resolved-Memᴰ, contains-resolved, class_rule-Memᴰ, name_rule-Memᴰ,
  derived_block-as_message,
}
use tesser_build.Prelude.Sets.{single_contains}
use tesser_build.Checks.Blocks.Reached.{HasBlock, known, by_base, by_name}
use mathlib.Core.List.{Memᴰ}
use mathlib.Core.List.Memᴰ
use tesser_build.Checks.Blocks.Ending.{keys_of, begin, settle_ends, settle-Extends}
use tesser_build.Checks.Blocks.Round.{Extends, apply_cases, AllSettled, missing}

first_block-none :
    (ks : List Key) (blocks : Blocks) (k : Key)
    → first_block ks blocks ≡ none
    → contains ks k ≡ true
    → lookup k blocks ≡ none
unfolding first_block contains
first_block-none [] blocks k h m = cc
first_block-none (j ∷ ks) blocks k h m = ground (arith, first_block-none ks blocks k)

first_block-some :
    (ks : List Key) (blocks : Blocks) {b : Str}
    → first_block ks blocks ≡ some b
    → (k : Key) × (contains ks k ≡ true) × (lookup k blocks ≡ some b)
unfolding first_block contains
first_block-some [] blocks h = cc
first_block-some (j ∷ ks) blocks {b} h = elim (Option-cases (lookup j blocks)) [
  | inr (v, found) ↦ (j, ground arith, ground arith)
  | inl missed ↦
      let (k, m, found) = first_block-some ks blocks {b = b} (ground arith) in
      (k, ground arith, found)
]

-- What holds of the given blocks, and is handed on by each test, holds of all blocks.
module _ (rs : List Rule) (P : Key → Str → Type 0) where
  abbrev Hands : Rule → Type 0
  Hands r =
      (source : Key) (b : Str)
      → contains r.sources source ≡ true
      → P source b
      → P r.key (derived_block r.relayed b)

  abbrev IsSound : Blocks → Type 0
  IsSound blocks = (k : Key) (v : Str) → lookup k blocks ≡ some v → P k v

  apply-IsSound : (r : Rule) (s : State) → Hands r → IsSound s.blocks → IsSound (apply r s).blocks
  apply-IsSound r s hands sound k v h = elim (apply_cases r s) [
    | inl (same, _) ↦ sound k v (rw same at h)
    | inr (b, _, found, e) ↦
        let (source, member, at) = first_block-some r.sources s.blocks found in
        let made = hands source b member (sound source b at) in
        let other : lookup k (insert r.key (derived_block r.relayed b) s.blocks) ≡ some v =
          rw e at h in
        elim (Bool-cases (k == r.key)) [
          | inl same ↦
              let at_key = eq→≡ k r.key same in
              let value : derived_block r.relayed b ≡ v =
                ground (arith, lookup-insert k r.key (derived_block r.relayed b) s.blocks) in
              subst (λ w. P k w) value
                (subst (λ j. P j (derived_block r.relayed b)) (sym at_key) made)
          | inr differ ↦
              sound k v (ground (arith, lookup-insert k r.key (derived_block r.relayed b) s.blocks))
        ]
  ]

  round-IsSound :
      (more : List Rule) (s : State)
      → ((r : Rule) → Memᴰ r more → Hands r)
      → IsSound s.blocks
      → IsSound (round more s).blocks
  unfolding round
  round-IsSound [] s m sound = sound
  round-IsSound (r ∷ more) s m sound =
      round-IsSound more (apply r s) (λ r' i. m r' (Memᴰ.tail i))
        (apply-IsSound r s (m r (Memᴰ.head refl)) sound)

  settle-IsSound :
      (fuel : ℕ) (blocks : Blocks) {result : Blocks}
      → settle fuel rs blocks ≡ some result
      → ((r : Rule) → Memᴰ r rs → Hands r)
      → IsSound blocks
      → IsSound result
  unfolding settle
  settle-IsSound zero blocks h hands sound = cc
  settle-IsSound (suc fuel) blocks {result} h hands sound =
      let next = round-IsSound rs (begin blocks) hands sound in
      elim (Bool-cases (round rs (begin blocks)).changed) [
        | inl more ↦
            settle-IsSound fuel (round rs (begin blocks)).blocks {result = result} (ground arith)
              hands next
        | inr done ↦
            let e : (round rs (begin blocks)).blocks ≡ result = ground arith in subst IsSound e next
      ]

-- A test that is settled and has a source with a block has a block itself.
settled_lookup :
    {r : Rule} (rs : List Rule) (blocks : Blocks) (source : Key)
    → Memᴰ r rs
    → AllSettled rs blocks
    → contains r.sources source ≡ true
    → lookup source blocks ≢ none
    → lookup r.key blocks ≢ none
settled_lookup [] blocks source i s member has = absurd (Memᴰ.not-nil i)
settled_lookup {r} (x ∷ rs) blocks source (Memᴰ.head e) s member has = elim s.0 [
  | inl dry ↦ absurd (
      has (
        first_block-none x.sources blocks source dry
          (subst (λ (q : Rule). contains q.sources source ≡ true) e member)))
  | inr there ↦ λ n. there (ap (λ (q : Rule). lookup q.key blocks) (sym e) ∙ n)
]
settled_lookup (x ∷ rs) blocks source (Memᴰ.tail i) s member has =
    settled_lookup rs blocks source i s.1 member has

only_source : (k source : Key) → contains (k ∷ []) source ≡ true → source ≡ k
unfolding contains
only_source k source h = ground (arith, eq→≡ source k)

module _ (modules : List Module) (given : Blocks) where
  rules-Hands :
      (r : Rule) → Memᴰ r (rules modules) → Hands (rules modules) (HasBlock modules given) r
  unfolding class_rule name_rule derived_block
  rules-Hands r i source b member sub = elim (rules-Origin modules i) [
    | inl (m, c, at, j, e) ↦
        let base =
          resolved-Memᴰ c.bases source
            (subst (λ (q : Rule). contains q.sources source ≡ true) (sym e) member) in
        subst (λ (q : Rule). HasBlock modules given q.key (derived_block q.relayed b)) e
          (subst (λ v. HasBlock modules given (m.name, c.name) v)
            (sym (derived_block-as_message m.relayed b)) (by_base at j base sub))
    | inr (m, n, at, j, e) ↦
        subst (λ (q : Rule). HasBlock modules given q.key (derived_block q.relayed b)) e
          (by_name at j (
            subst (λ k. HasBlock modules given k b)
              (only_source (n.target, n.original) source
                (subst (λ (q : Rule). contains q.sources source ≡ true) (sym e) member))
              sub))
  ]

  HasBlock-lookup :
      (result : Blocks)
      → Extends given result
      → AllSettled (rules modules) result
      → {k : Key} {b : Str} → HasBlock modules given k b
      → lookup k result ≢ none
  unfolding class_rule name_rule
  HasBlock-lookup result e settled (known h) n = cc (e _ _ h, n)
  HasBlock-lookup result e settled (by_base {m} {c} {base} i j l sub) n =
      settled_lookup (rules modules) result base (class_rule-Memᴰ modules i j) settled
        (contains-resolved c.bases base l) (HasBlock-lookup result e settled sub) n
  HasBlock-lookup result e settled (by_name {m} {n = c} i j sub) n =
      settled_lookup (rules modules) result (c.target, c.original) (name_rule-Memᴰ modules i j)
        settled (single_contains (c.target, c.original)) (HasBlock-lookup result e settled sub) n

-- The loop over the classes ends. It keeps the blocks that were given; each block in its result is one that the key
-- has by the given table, by a base of the class that it names, in a relays package as the relay's message, or by the
-- name that it is bound to; and each key that has a block so gets one.
pub class_blocks_lem :
    (modules : List Module) (given : Blocks)
    → (result : Blocks) × (class_blocks modules given ≡ some result)
      × Extends given result
      × ((k : Key) (b : Str) → lookup k result ≡ some b → HasBlock modules given k b)
      × ((k : Key) (b : Str) → HasBlock modules given k b → lookup k result ≢ none)
unfolding class_blocks
class_blocks_lem modules given =
    let rs = rules modules in
    let few : length (missing (keys_of rs) given) ≤ length (keys_of rs) =
      length-keep-le (λ k. is_none (lookup k given)) (keys_of rs) in
    let (result, e) =
      settle_ends (length rs + 1) rs given
        (omega (arith, few, length-map (λ (r : Rule). r.key) rs)) in
    let (extends, settled) = settle-Extends (length rs + 1) rs given e in
    (
      result,
      e,
      extends,
      settle-IsSound rs (HasBlock modules given) (length rs + 1) given e (rules-Hands modules given)
          (λ k v h. known h),
      λ k b. HasBlock-lookup modules given result extends settled,
    )
