-- ===== src/Checks/Blocks.antt =====
-- The block of every class, in `Codebase.violations` of tessercheck-py/tessercheck/domain/checks.py: a class is
-- what its first base of a known block is, and a name that a module binds is what it stands for. The
-- loop runs over all modules until a round changes nothing.
pub mod Reached
pub mod Origins
pub mod Round
pub mod Ending
pub mod Closure
use tesser_build.Prelude.{
  ℕ, zero, suc, ◌+◌, Str, str, Bool, true, false, List, [], ◌∷◌, ◌++◌, map, Option, none, some,
  list_eq, nat_eq, pair_eq, contains, ◌≡◌, if◌then◌else◌,
}
use tesser_build.Prelude.Dict.{Dict, lookup, insert}
use tesser_build.Prelude.Lists.{length}
use tesser_build.Checks.KindTable.{Key}

abbrev pub Blocks : Type 0
Blocks = Dict Key Str

-- A class as the loop reads it: its name, and its bases as far as they can be resolved.
pub record ClassDef : Type 0 where
  pub name : Str
  pub bases : List (Option Key)

-- A name that a module binds to a name of another module.
pub record BoundName : Type 0 where
  pub local_name : Str
  pub target : Str
  pub original : Str

-- A module as the loop reads it. `relayed` says that it stands in a relays package.
pub record Module : Type 0 where
  pub name : Str
  pub relayed : Bool
  pub class_defs : List ClassDef
  pub bound_names : List BoundName

-- RELAY_MESSAGE_BLOCKS
unfoldable pub relay_message_block : Str → Option Str
unfolding lookup
relay_message_block b =
    lookup b
      ((str "port_request", str "relay_request") ∷ (str "port_response", str "relay_response") ∷ [])

-- One test of the loop's body: the key that is decided, the keys it takes its block from, in order,
-- and whether the block is that of a relay's message.
pub record Rule : Type 0 where
  pub key : Key
  pub sources : List Key
  pub relayed : Bool

abbrev pub resolved : List (Option Key) → List Key
resolved [] = []
resolved (none ∷ bases) = resolved bases
resolved (some k ∷ bases) = k ∷ resolved bases

unfoldable pub class_rule : Module → ClassDef → Rule
class_rule m c = record { key = (m.name, c.name); sources = resolved c.bases; relayed = m.relayed }

unfoldable pub name_rule : Module → BoundName → Rule
name_rule m b = record {
  key = (m.name, b.local_name);
  sources = (b.target, b.original) ∷ [];
  relayed = false;
}

-- The tests of one round, in the order in which the round makes them.
unfoldable pub rules : List Module → List Rule
unfolding class_rule name_rule
rules [] = []
rules (m ∷ modules) =
    map (class_rule m) m.class_defs ++ (map (name_rule m) m.bound_names ++ rules modules)

-- The block of the first key that has one.
unfoldable pub first_block : List Key → Blocks → Option Str
unfolding lookup
first_block [] blocks = none
first_block (k ∷ ks) blocks = elim (lookup k blocks) [
  | some b ↦ some b
  | none ↦ first_block ks blocks
]

abbrev or_self : Option Str → Str → Str
or_self none b = b
or_self (some c) b = c

-- `RELAY_MESSAGE_BLOCKS.get(derived, derived)` in a relays package
unfoldable pub derived_block : Bool → Str → Str
unfolding relay_message_block
derived_block relayed b = if relayed then or_self (relay_message_block b) b else b

-- The variables of the loop.
pub record State : Type 0 where
  pub blocks : Blocks
  pub changed : Bool

abbrev put : Rule → State → Option Str → State
put r s none = s
put r s (some b) = record {
  blocks = insert r.key (derived_block r.relayed b) s.blocks;
  changed = true;
}

unfoldable pub apply : Rule → State → State
unfolding lookup insert first_block derived_block
apply r s = elim (lookup r.key s.blocks) [
  | some b ↦ s
  | none ↦ put r s (first_block r.sources s.blocks)
]

unfoldable pub round : List Rule → State → State
unfolding apply
round [] s = s
round (r ∷ rs) s = round rs (apply r s)

-- `while changed`, on fuel; `none` means that the fuel ran out.
unfoldable pub settle : ℕ → List Rule → Blocks → Option Blocks
unfolding round
settle zero rs blocks = none
settle (suc fuel) rs blocks =
    let s = round rs (record { blocks = blocks; changed = false }) in
    let rest = settle fuel rs s.blocks in if s.changed then rest else some s.blocks

-- The loop of the source, with one round more than there are tests as its fuel.
unfoldable pub class_blocks : List Module → Blocks → Option Blocks
unfolding settle rules
class_blocks modules given = settle (length (rules modules) + 1) (rules modules) given
