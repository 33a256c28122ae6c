-- ===== src/Checks/KindTable.antt =====
-- `KindTable` of tessercheck-py/tessercheck/domain/checks.py: the block that each class is, in a table sorted
-- by module and class and searched by bisection.
pub mod Bisect
pub mod Search
pub mod Sorted
pub mod Laws
use tesser_build.Prelude.{
  ℕ, zero, suc, ◌+◌, ◌-◌, Str, str, starts_with, ltb, Bool, true, false, ◌||◌, List, [], ◌∷◌, ◌++◌,
  map, ◌==◌, list_eq, nat_eq, pair_eq, Ord, less, list_ord, nat_ord, pair_ord, Result, ok, raise,
  ◌>>=◌, Option, none, some, if◌then◌else◌,
}
use tesser_build.Prelude.Lists.{keep, length, get_elem?}
use tesser_build.Prelude.Sorting.{sorted}
use tesser_build.Checks.Values.{Symbol, Text, text}
use tesser_build.Checks.Names.{Names, names}
use Bisect.{bisect_left}
use Search.{neighbours_clash, below}

-- A class by its module and its name.
abbrev pub Key : Type 0
Key = Str × Str

abbrev pub Entry : Type 0
Entry = Key × Str

pub record KindTable : Type 0 where
  pub entries : List Entry

unfoldable pub kind_table : List Entry → Result KindTable
unfolding sorted neighbours_clash
kind_table entries =
    let ordered = sorted entries in
    if neighbours_clash ordered
    then raise (str "a kind table names one block per symbol")
    else ok (record { entries = ordered })

unfoldable pub blocks_in : KindTable → Text → Names
unfolding names
blocks_in t wanted =
    names (map (λ (e : Entry). e.1) (keep (λ (e : Entry). e.0.0 == wanted.value) t.entries))

unfoldable pub blocks_under : KindTable → Text → Names
unfolding names starts_with
blocks_under t wanted = names (
    map (λ (e : Entry). e.1)
      (keep (λ (e : Entry). e.0.0 == wanted.value || starts_with e.0.0 (wanted.value ++ b'.' ∷ []))
        t.entries))

abbrev pub key_of : Symbol → Key
key_of s = (s.module_name.value, s.name.value)

-- The block at an index, if the entry there is the one that is wanted.
block_at : Key → Option Entry → Result (Option Text)
unfolding text
block_at wanted none = ok none
block_at wanted (some e) = if e.0 == wanted then (do t ← text e.1; ok (some t)) else ok none

unfoldable pub block_of : KindTable → Symbol → Result (Option Text)
unfolding bisect_left block_at
block_of t s =
    let index = bisect_left (below (key_of s)) t.entries in
    block_at (key_of s) (get_elem? t.entries index)
