-- ===== src/Checks/KindTable/Laws.antt =====
-- The table accepts each symbol once, and a search finds what was put in.
use tesser_build.Prelude.{
  Str, str, true, false, ◌≡◌, refl, ap, ◌∙◌, ◌↔◌, List, [], ◌∷◌, map, list_eq, nat_eq, pair_eq,
  list_ord, nat_ord, pair_ord, contains, Result, ok, raise, succeeds, Option, none, some, arith,
}
use tesser_build.Prelude.Dict.{lookup}
use tesser_build.Prelude.Lists.{is_empty, get_elem?}
use tesser_build.Prelude.Sets.{Nodup}
use tesser_build.Prelude.Sorting.{sorted, contains-sorted, IsIncreasing}
use tesser_build.Prelude.SortedKeys.{sorted-IsSorted, Nodup-map-sorted}
use tesser_build.Checks.Values.{Symbol, Text}
use tesser_build.Checks.KindTable.{Key, Entry, KindTable, kind_table, key_of, block_at, block_of}
use tesser_build.Checks.KindTable.Bisect.{bisect_left-position}
use tesser_build.Checks.KindTable.Search.{
  row_key, below, neighbours_clash, neighbours_clash_iff, keys-IsIncreasing, rows-IsPartitioned,
  value_at, value_at-position, lookup_iff_contains,
}

-- A table is accepted exactly when no symbol stands twice in it.
pub succeeds-kind_table :
    (entries : List Entry) → (succeeds (kind_table entries) ≡ true) ↔ Nodup (map row_key entries)
unfolding kind_table
succeeds-kind_table entries = ground (
  arith,
  neighbours_clash_iff (sorted entries) (sorted-IsSorted entries),
  Nodup-map-sorted row_key entries,
)

abbrev as_text : Option Str → Result (Option Text)
as_text none = ok none
as_text (some []) = raise (str "text must be non-empty")
as_text (some (c ∷ s)) = ok (some (record { value = c ∷ s }))

block_at-value_at : (k : Key) (o : Option Entry) → block_at k o ≡ as_text (value_at k o)
unfolding block_at str
block_at-value_at k none = refl
block_at-value_at k (some (j, v)) = ground arith

-- The rows of a table are those it was built from, in increasing order of their symbols.
sorted_entries :
    (entries : List Entry) {t : KindTable}
    → kind_table entries ≡ ok t
    → (t.entries ≡ sorted entries) × (neighbours_clash t.entries ≡ false)
unfolding kind_table
sorted_entries entries h = (ground arith, ground arith)

entries-IsIncreasing :
    (entries : List Entry) {t : KindTable}
    → kind_table entries ≡ ok t
    → IsIncreasing (map row_key t.entries)
entries-IsIncreasing entries {t} h =
    let (e, free) = sorted_entries entries h in
    keys-IsIncreasing t.entries (rw e (sorted-IsSorted entries)) free

block_of-lookup :
    (entries : List Entry) {t : KindTable} (s : Symbol)
    → kind_table entries ≡ ok t
    → block_of t s ≡ as_text (lookup (key_of s) t.entries)
unfolding block_of list_eq nat_eq pair_eq
block_of-lookup entries {t} s h =
    let k = key_of s in
    let increasing = entries-IsIncreasing entries h in
    ap (λ i. block_at k (get_elem? t.entries i))
      (bisect_left-position (below k) t.entries (rows-IsPartitioned k t.entries increasing))
    ∙ block_at-value_at k _
    ∙ ap as_text (value_at-position k t.entries increasing)

as_text-some :
    (o : Option Str) (b : Text)
    → is_empty b.value ≡ false
    → (as_text o ≡ ok (some b)) ↔ (o ≡ some b.value)
as_text-some o b h = ground arith

-- In an accepted table the binary search for a symbol finds a given non-empty block exactly when the table was built
-- with the row of that symbol and that block.
pub block_of_iff :
    (entries : List Entry) {t : KindTable} (s : Symbol) (b : Text)
    → kind_table entries ≡ ok t
    → is_empty b.value ≡ false
    → (block_of t s ≡ ok (some b)) ↔ (contains entries (key_of s, b.value) ≡ true)
block_of_iff entries {t} s b h n =
    let increasing = entries-IsIncreasing entries h in
    let nodup =
      (neighbours_clash_iff t.entries (rw (sorted_entries entries h).0 (sorted-IsSorted entries))).0
        (sorted_entries entries h).1 in
    ground (
      arith,
      block_of-lookup entries s h,
      as_text-some (lookup (key_of s) t.entries) b n,
      lookup_iff_contains t.entries (key_of s) b.value nodup,
      contains-sorted entries (key_of s, b.value),
      sorted_entries entries h,
    )
