-- ===== src/Checks/Blocks/Round.antt =====
-- One round: it only adds entries, and if it changes nothing then no test of it applies.
use tesser_build.Prelude.{
  ◌≤◌, ◌<◌, Str, Bool, true, false, ◌≡◌, ◌≢◌, refl, ◌∙◌, ap, subst, ◌⊎◌, Bool-cases, List, [], ◌∷◌,
  contains, none, some, arith, Option-cases, inl, inr, list_eq, nat_eq, pair_eq,
}
use tesser_build.Prelude.Dict.{lookup, insert, lookup-insert}
use tesser_build.Prelude.Lists.{length, keep, All, is_none}
use tesser_build.Checks.KindTable.{Key}
use tesser_build.Checks.Blocks.{Blocks, Rule, State, first_block, derived_block, put, apply, round}

-- Every entry of one table stands in the other.
abbrev pub Extends : Blocks → Blocks → Type 0
Extends a b = (k : Key) (v : Str) → lookup k a ≡ some v → lookup k b ≡ some v

-- A test either changes nothing, since its key has a block or none of its sources has one, or it puts
-- the block of a source in.
abbrev Applied : Rule → State → Type 0
Applied r s =
    ((apply r s ≡ s) × ((first_block r.sources s.blocks ≡ none) ⊎ (lookup r.key s.blocks ≢ none)))
    ⊎ ((b : Str) × (lookup r.key s.blocks ≡ none)
        × (first_block r.sources s.blocks ≡ some b)
        × (apply r s ≡ put r s (some b)))

pub apply_cases : (r : Rule) (s : State) → Applied r s
unfolding apply
apply_cases r s = elim (Option-cases (lookup r.key s.blocks)) [
  | inr (v, known) ↦ inl (rw (known, apply) refl, inr (λ e. cc (known, e)))
  | inl fresh ↦ elim (Option-cases (first_block r.sources s.blocks)) [
    | inl dry ↦ inl (rw (fresh, dry, apply) refl, inl dry)
    | inr (b, found) ↦ inr (b, fresh, found, rw (fresh, found, apply) refl)
  ]
]

pub apply-Extends : (r : Rule) (s : State) → Extends s.blocks (apply r s).blocks
apply-Extends r s k v h = elim (apply_cases r s) [
  | inl (same, _) ↦ rw same h
  | inr (b, fresh, _, e) ↦
      rw e (ground (arith, lookup-insert k r.key (derived_block r.relayed b) s.blocks))
]

pub round-Extends : (rs : List Rule) (s : State) → Extends s.blocks (round rs s).blocks
unfolding round
round-Extends [] s k v h = h
round-Extends (r ∷ rs) s k v h = round-Extends rs (apply r s) k v (apply-Extends r s k v h)

-- The flag that a change was made stays up.
round-changed : (rs : List Rule) (s : State) → s.changed ≡ true → (round rs s).changed ≡ true
unfolding round
round-changed [] s h = h
round-changed (r ∷ rs) s h =
    round-changed rs (apply r s)
      (elim (apply_cases r s) [ inl (same, _) ↦ rw same h | inr (b, _, _, e) ↦ rw e refl ])

-- The test has nothing to add.
abbrev pub IsSettled : Rule → Blocks → Type 0
IsSettled r blocks = (first_block r.sources blocks ≡ none) ⊎ (lookup r.key blocks ≢ none)

abbrev pub AllSettled : List Rule → Blocks → Type 0
AllSettled rs blocks = All (λ r. IsSettled r blocks) rs

-- A round that reports no change has left the blocks as they were, and no test has anything to add.
pub round_unchanged :
    (rs : List Rule) (s : State)
    → (round rs s).changed ≡ false
    → ((round rs s).blocks ≡ s.blocks) × AllSettled rs s.blocks
unfolding round
round_unchanged [] s h = (refl, tt)
round_unchanged (r ∷ rs) s h = elim (apply_cases r s) [
  | inl (same, settled) ↦
      let (e, rest) = round_unchanged rs (apply r s) h in
      (
        e ∙ ap (λ (t : State). t.blocks) same,
        (settled, subst (λ (t : State). AllSettled rs t.blocks) same rest),
      )
  | inr (b, _, _, e) ↦ absurd (flag_clash (round-changed rs (apply r s) (rw e refl)) h)
]
  where
    flag_clash : {b : Bool} → b ≡ true → b ≡ false → ⊥
    flag_clash p q = cc

-- The keys without a block.
abbrev pub missing : List Key → Blocks → List Key
missing ks blocks = keep (λ k. is_none (lookup k blocks)) ks

missing-insert-le :
    (ks : List Key) (k : Key) (v : Str) (blocks : Blocks)
    → length (missing ks (insert k v blocks)) ≤ length (missing ks blocks)
missing-insert-le [] k v blocks = omega arith
missing-insert-le (j ∷ ks) k v blocks =
    ground (arith, lookup-insert j k v blocks, missing-insert-le ks k v blocks)

missing-insert-lt :
    (ks : List Key) (k : Key) (v : Str) (blocks : Blocks)
    → contains ks k ≡ true
    → lookup k blocks ≡ none
    → length (missing ks (insert k v blocks)) < length (missing ks blocks)
unfolding contains
missing-insert-lt [] k v blocks m h = cc
missing-insert-lt (j ∷ ks) k v blocks m h = ground (
  arith,
  lookup-insert j k v blocks,
  missing-insert-lt ks k v blocks,
  missing-insert-le ks k v blocks,
)

abbrev pub KeysIn : List Key → List Rule → Type 0
KeysIn ks rs = All (λ (r : Rule). contains ks r.key ≡ true) rs

apply-missing :
    (ks : List Key) (r : Rule) (s : State)
    → contains ks r.key ≡ true
    → (length (missing ks (apply r s).blocks) ≤ length (missing ks s.blocks))
      × ((apply r s).changed ≡ true
          → s.changed ≡ false
          → length (missing ks (apply r s).blocks) < length (missing ks s.blocks))
apply-missing ks r s m = elim (apply_cases r s) [
  | inl (same, _) ↦ rw same (omega arith, λ c n. cc (c, n))
  | inr (b, fresh, _, e) ↦
      let less = missing-insert-lt ks r.key (derived_block r.relayed b) s.blocks m fresh in
      rw e (omega (arith, less), λ c n. less)
]

-- A round that reports a change leaves fewer keys without a block.
pub round-missing :
    (ks : List Key) (rs : List Rule) (s : State)
    → KeysIn ks rs
    → (length (missing ks (round rs s).blocks) ≤ length (missing ks s.blocks))
      × ((round rs s).changed ≡ true
          → s.changed ≡ false
          → length (missing ks (round rs s).blocks) < length (missing ks s.blocks))
unfolding round
round-missing ks [] s m = (omega arith, λ c n. cc (c, n))
round-missing ks (r ∷ rs) s m = ground (
  arith,
  apply-missing ks r s m.0,
  round-missing ks rs (apply r s) m.1,
  Bool-cases (apply r s).changed,
)
