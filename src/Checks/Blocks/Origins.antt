-- ===== src/Checks/Blocks/Origins.antt =====
-- The tests of a round are those of the classes and of the bound names.
use tesser_build.Prelude.{
  Str, Bool, true, ◌≡◌, refl, ap, subst, eq_refl, eq→≡, ◌⊎◌, inl, inr, List, [], ◌∷◌, map, contains,
  ◌==◌, none, some, Option, arith, Bool-cases, list_eq, nat_eq, pair_eq,
}
use tesser_build.Prelude.Dict.{lookup}
use tesser_build.Checks.KindTable.{Key}
use tesser_build.Checks.Blocks.{
  Rule, Module, ClassDef, BoundName, rules, resolved, class_rule, name_rule, derived_block,
  relay_message_block,
}
use tesser_build.Checks.Blocks.Reached.{as_message}
use mathlib.Core.List.{Memᴰ}
use mathlib.Core.List.Memᴰ

pub derived_block-as_message :
    (relayed : Bool) (b : Str) → derived_block relayed b ≡ as_message relayed b
unfolding derived_block relay_message_block lookup
derived_block-as_message relayed b = ground arith

pub resolved-Memᴰ :
    (bases : List (Option Key)) (k : Key) → contains (resolved bases) k ≡ true → Memᴰ (some k) bases
unfolding contains
resolved-Memᴰ [] k h = absurd (ground arith)
resolved-Memᴰ (none ∷ bases) k h = Memᴰ.tail (resolved-Memᴰ bases k h)
resolved-Memᴰ (some j ∷ bases) k h = elim (Bool-cases (k == j)) [
  | inl same ↦ Memᴰ.head (ap some (eq→≡ k j same))
  | inr differ ↦ Memᴰ.tail (resolved-Memᴰ bases k (ground arith))
]

pub contains-resolved :
    (bases : List (Option Key)) (k : Key) → Memᴰ (some k) bases → contains (resolved bases) k ≡ true
unfolding contains
contains-resolved [] k i = absurd (Memᴰ.not-nil i)
contains-resolved (none ∷ bases) k (Memᴰ.head e) = cc e
contains-resolved (none ∷ bases) k (Memᴰ.tail i) = contains-resolved bases k i
contains-resolved (some j ∷ bases) k (Memᴰ.head e) = ground (arith, e, eq_refl k)
contains-resolved (some j ∷ bases) k (Memᴰ.tail i) = ground (arith, contains-resolved bases k i)

class_rule_here :
    (m : Module) {c : ClassDef} (modules : List Module)
    → Memᴰ c m.class_defs
    → Memᴰ (class_rule m c) (rules (m ∷ modules))
unfolding rules
class_rule_here m modules j = Memᴰ.append_left _ (Memᴰ.map (class_rule m) j)

name_rule_here :
    (m : Module) {n : BoundName} (modules : List Module)
    → Memᴰ n m.bound_names
    → Memᴰ (name_rule m n) (rules (m ∷ modules))
unfolding rules
name_rule_here m modules j =
    Memᴰ.append_right (map (class_rule m) m.class_defs)
      (Memᴰ.append_left (rules modules) (Memᴰ.map (name_rule m) j))

rule_later :
    {r : Rule} (m : Module) (modules : List Module)
    → Memᴰ r (rules modules)
    → Memᴰ r (rules (m ∷ modules))
unfolding rules
rule_later m modules i =
    Memᴰ.append_right (map (class_rule m) m.class_defs)
      (Memᴰ.append_right (map (name_rule m) m.bound_names) i)

pub class_rule-Memᴰ :
    {m : Module} {c : ClassDef} (modules : List Module)
    → Memᴰ m modules
    → Memᴰ c m.class_defs
    → Memᴰ (class_rule m c) (rules modules)
class_rule-Memᴰ [] i j = absurd (Memᴰ.not-nil i)
class_rule-Memᴰ {m} {c} (x ∷ modules) (Memᴰ.head e) j =
    subst (λ y. Memᴰ (class_rule m c) (rules (y ∷ modules))) e (class_rule_here m modules j)
class_rule-Memᴰ (x ∷ modules) (Memᴰ.tail i) j = rule_later x modules (class_rule-Memᴰ modules i j)

pub name_rule-Memᴰ :
    {m : Module} {n : BoundName} (modules : List Module)
    → Memᴰ m modules
    → Memᴰ n m.bound_names
    → Memᴰ (name_rule m n) (rules modules)
name_rule-Memᴰ [] i j = absurd (Memᴰ.not-nil i)
name_rule-Memᴰ {m} {n} (x ∷ modules) (Memᴰ.head e) j =
    subst (λ y. Memᴰ (name_rule m n) (rules (y ∷ modules))) e (name_rule_here m modules j)
name_rule-Memᴰ (x ∷ modules) (Memᴰ.tail i) j = rule_later x modules (name_rule-Memᴰ modules i j)

-- Where a test comes from.
abbrev pub Origin : List Module → Rule → Type 0
Origin modules r =
    ((m : Module) × (c : ClassDef) × Memᴰ m modules × Memᴰ c m.class_defs × (class_rule m c ≡ r))
    ⊎ ((m : Module) × (n : BoundName) × Memᴰ m modules × Memᴰ n m.bound_names × (name_rule m n ≡ r))

Origin-later :
    {r : Rule} (m : Module) (modules : List Module) → Origin modules r → Origin (m ∷ modules) r
Origin-later m modules (inl (m', c, i, j, e)) = inl (m', c, Memᴰ.tail i, j, e)
Origin-later m modules (inr (m', n, i, j, e)) = inr (m', n, Memᴰ.tail i, j, e)

pub rules-Origin : {r : Rule} (modules : List Module) → Memᴰ r (rules modules) → Origin modules r
unfolding rules
rules-Origin [] i = absurd (Memᴰ.not-nil i)
rules-Origin {r} (m ∷ modules) i = elim (Memᴰ.append_cases (map (class_rule m) m.class_defs) i) [
  | inl first ↦
      let (c, j, e) = Memᴰ.of_map (class_rule m) m.class_defs first in
      inl (m, c, Memᴰ.head refl, j, e)
  | inr rest ↦ elim (Memᴰ.append_cases (map (name_rule m) m.bound_names) rest) [
    | inl second ↦
        let (n, j, e) = Memᴰ.of_map (name_rule m) m.bound_names second in
        inr (m, n, Memᴰ.head refl, j, e)
    | inr later ↦ Origin-later m modules (rules-Origin modules later)
  ]
]
