-- ===== src/Checks/Blocks/Reached.antt =====
-- The blocks that the keys of a tree come by, said of its modules, classes and bound names.
use tesser_build.Prelude.{
  Str, str, Bool, ◌&&◌, ◌≡◌, List, ◌==◌, list_eq, nat_eq, pair_eq, some, if◌then◌else◌,
}
use tesser_build.Prelude.Dict.{lookup}
use tesser_build.Checks.KindTable.{Key}
use tesser_build.Checks.Blocks.{Blocks, Module, ClassDef, BoundName}
use mathlib.Core.List.{Memᴰ}

-- The block that a class takes from a base: in a relays package the relay's message for a port's, and else the same.
abbrev pub as_message : Bool → Str → Str
as_message relayed b =
    if relayed && b == str "port_request"
    then str "relay_request"
    else if relayed && b == str "port_response"
    then str "relay_response"
    else b

-- A key has a block by the given table, by a base of the class that it names, or by the name that it is bound to.
pub data HasBlock (modules : List Module) (given : Blocks) : Key → Str → Type 0 where
  known : {k : Key} {b : Str} → lookup k given ≡ some b → HasBlock modules given k b
  by_base :
      {m : Module} {c : ClassDef} {base : Key} {b : Str}
      → Memᴰ m modules
      → Memᴰ c m.class_defs
      → Memᴰ (some base) c.bases
      → HasBlock modules given base b
      → HasBlock modules given (m.name, c.name) (as_message m.relayed b)
  by_name :
      {m : Module} {n : BoundName} {b : Str}
      → Memᴰ m modules
      → Memᴰ n m.bound_names
      → HasBlock modules given (n.target, n.original) b
      → HasBlock modules given (m.name, n.local_name) b
