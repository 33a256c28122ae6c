-- ===== src/Checks/Blocks/Ending.antt =====
-- The loop ends, and when it does no test has anything to add.
use tesser_build.Prelude.{
  ℕ, zero, suc, ◌<◌, false, ◌≡◌, refl, inl, inr, List, [], ◌∷◌, map, contains, some, arith,
  Bool-cases, list_eq, nat_eq, pair_eq,
}
use tesser_build.Prelude.Lists.{length}
use tesser_build.Checks.KindTable.{Key}
use tesser_build.Checks.Blocks.{Blocks, Rule, State, round, settle}
use tesser_build.Checks.Blocks.Round.{
  Extends, round-Extends, AllSettled, round_unchanged, missing, KeysIn, round-missing,
}

abbrev pub keys_of : List Rule → List Key
keys_of = map (λ (r : Rule). r.key)

KeysIn-cons : (k : Key) (ks : List Key) (rs : List Rule) → KeysIn ks rs → KeysIn (k ∷ ks) rs
unfolding contains
KeysIn-cons k ks [] m = tt
KeysIn-cons k ks (r ∷ rs) m = (ground arith, KeysIn-cons k ks rs m.1)

KeysIn-keys_of : (rs : List Rule) → KeysIn (keys_of rs) rs
unfolding contains
KeysIn-keys_of [] = tt
KeysIn-keys_of (r ∷ rs) = (ground arith, KeysIn-cons r.key (keys_of rs) rs (KeysIn-keys_of rs))

abbrev pub begin : Blocks → State
begin blocks = record { blocks = blocks; changed = false }

-- With more fuel than keys that have no block, the loop ends.
pub settle_ends :
    (fuel : ℕ) (rs : List Rule) (blocks : Blocks)
    → length (missing (keys_of rs) blocks) < fuel
    → (result : Blocks) × (settle fuel rs blocks ≡ some result)
unfolding settle
settle_ends zero rs blocks h = absurd (omega arith)
settle_ends (suc fuel) rs blocks h = elim (Bool-cases (round rs (begin blocks)).changed) [
  | inl more ↦ rw more (
      settle_ends fuel rs (round rs (begin blocks)).blocks (
        omega
          (arith, (round-missing (keys_of rs) rs (begin blocks) (KeysIn-keys_of rs)).1 more refl)))
  | inr done ↦ ((round rs (begin blocks)).blocks, rw done)
]

pub settle-Extends :
    (fuel : ℕ) (rs : List Rule) (blocks : Blocks) {result : Blocks}
    → settle fuel rs blocks ≡ some result
    → Extends blocks result × AllSettled rs result
unfolding settle
settle-Extends zero rs blocks h = cc
settle-Extends (suc fuel) rs blocks {result} h =
    elim (Bool-cases (round rs (begin blocks)).changed) [
      | inl more ↦
          let (e, settled) =
            settle-Extends fuel rs (round rs (begin blocks)).blocks {result = result}
              (ground arith) in
          (λ k v g. e k v (round-Extends rs (begin blocks) k v g), settled)
      | inr done ↦
          let (same, settled) = round_unchanged rs (begin blocks) done in
          let found : result ≡ blocks = ground arith in (λ k v g. rw found g, rw found settled)
    ]
