-- ===== src/Tests/Analyzer.antt =====
-- Findings, names, the kind table and the blocks of classes.
use tesser_build.Prelude.{
  Str, str, true, false, not, ◌&&◌, ◌||◌, ◌≡◌, ◌≢◌, refl, ◌↔◌, List, [], ◌∷◌, map, list_eq, nat_eq,
  pair_eq, list_ord, nat_ord, pair_ord, contains, ◌==◌, pos, ok, succeeds, none, some,
  if◌then◌else◌,
}
use tesser_build.Prelude.Dict.{lookup}
use tesser_build.Prelude.Lists.{is_empty}
use tesser_build.Prelude.Sets.{Nodup}
use tesser_build.Checks.Values.{Symbol, Text, code_shape}
use tesser_build.Checks.Violations.{
  ViolationSpec, Violation, violation, unmarkable, ImportEdgeSpec, ImportEdge, import_edge,
  form_violations, member_form_violations,
}
use tesser_build.Checks.Violations.Laws.{succeeds-violation, codes-import_edge, codes, well_formed}
use tesser_build.Checks.Names.{names, meet, minus, join_names, holds}
use tesser_build.Checks.Names.Laws.{names-canonical, holds-operations}
use tesser_build.Checks.KindTable.{Key, Entry, KindTable, kind_table, key_of, block_of}
use tesser_build.Checks.KindTable.Search.{row_key}
use tesser_build.Checks.KindTable.Laws.{block_of_iff, succeeds-kind_table}
use tesser_build.Checks.Blocks.{Blocks, Module, class_blocks}
use tesser_build.Checks.Blocks.Reached.{HasBlock}
use tesser_build.Checks.Blocks.Round.{Extends}
use tesser_build.Checks.Blocks.Closure.{class_blocks_lem}

abbrev spec : ViolationSpec
spec = record {
  path = str "shop/domain/order.py";
  line = pos 3;
  code = str "TB053";
  message = str "no alias";
  rename = none;
}

abbrev finding : Violation
finding = record {
  path = record { value = str "shop/domain/order.py" };
  line = record { value = 3 };
  code = record { value = str "TB053" };
  text = record { value = str "no alias" };
  rename = none;
  mark = some (record { code = record { value = str "TB053" } });
}

found : violation spec ≡ ok finding
unfolding violation str list_eq nat_eq code_shape unmarkable
found = refl

succeeds-violation_example : succeeds (violation spec) ≡ well_formed spec
succeeds-violation_example = succeeds-violation spec

abbrev edge_spec : ImportEdgeSpec
edge_spec = record {
  target = str "shop.domain.order";
  lineno = pos 1;
  member_form = true;
  aliased = false;
  path = str "shop/app.py";
  module_name = str "shop.app";
}

abbrev edge : ImportEdge
edge = record {
  target = record { value = str "shop.domain.order" };
  lineno = record { value = 1 };
  form = record { value = str "member" };
  path = some (record { value = str "shop/app.py" });
  module_name = some (record { value = str "shop.app" });
}

edge_made : import_edge edge_spec ≡ ok edge
unfolding import_edge str list_eq nat_eq
edge_made = refl

codes-import_edge_example :
    (codes (form_violations edge)
      ≡ some (if true then [] else if false then [] else str "TB053" ∷ []))
    × (codes (member_form_violations edge)
        ≡ some (
            if true
            then (if edge_spec.target == str "__future__" then [] else str "TB053" ∷ [])
            else []))
codes-import_edge_example = codes-import_edge edge_spec edge_made

abbrev a : Str
a = str "a"

abbrev b : Str
b = str "b"

names-canonical_example :
    (names (b ∷ a ∷ []) ≡ names (a ∷ b ∷ []))
    ↔ ((s : Str) → contains (b ∷ a ∷ []) s ≡ contains (a ∷ b ∷ []) s)
names-canonical_example = names-canonical (b ∷ a ∷ []) (a ∷ b ∷ [])

holds-operations_example :
    (holds (meet (names (a ∷ [])) (names (b ∷ []))) a
      ≡ (holds (names (a ∷ [])) a && holds (names (b ∷ [])) a))
    × (holds (minus (names (a ∷ [])) (names (b ∷ []))) a
        ≡ (holds (names (a ∷ [])) a && not (holds (names (b ∷ [])) a)))
    × (holds (join_names (names (a ∷ [])) (names (b ∷ []))) a
        ≡ (holds (names (a ∷ [])) a || holds (names (b ∷ [])) a))
holds-operations_example = holds-operations (names (a ∷ [])) (names (b ∷ [])) a

abbrev order : Key
order = (str "shop.domain", str "Order")

abbrev price : Key
price = (str "shop.domain", str "Price")

abbrev entries : List Entry
entries = (price, str "value_object") ∷ (order, str "aggregate_root") ∷ []

abbrev table : KindTable
table = record { entries = (order, str "aggregate_root") ∷ (price, str "value_object") ∷ [] }

table_made : kind_table entries ≡ ok table
unfolding kind_table str list_eq nat_eq pair_eq list_ord nat_ord pair_ord
table_made = refl

abbrev price_symbol : Symbol
price_symbol = record {
  module_name = record { value = price.0 };
  name = record { value = price.1 };
}

abbrev value_object : Text
value_object = record { value = str "value_object" }

value_object_named : is_empty value_object.value ≡ false
unfolding str
value_object_named = refl

succeeds-kind_table_example : (succeeds (kind_table entries) ≡ true) ↔ Nodup (map row_key entries)
succeeds-kind_table_example = succeeds-kind_table entries

block_of_iff_example :
    (block_of table price_symbol ≡ ok (some value_object))
    ↔ (contains entries (key_of price_symbol, value_object.value) ≡ true)
block_of_iff_example = block_of_iff entries price_symbol value_object table_made value_object_named

-- A class of a relays package that stands on a class of another module, by a name that is bound.
abbrev modules : List Module
modules =
    record {
      name = str "shop.relays";
      relayed = true;
      class_defs =
          record { name = str "Ask"; bases = some (str "shop.ports", str "Base") ∷ [] } ∷ [];
      bound_names = [];
    }
    ∷ record {
      name = str "shop.ports";
      relayed = false;
      class_defs = [];
      bound_names =
          record { local_name = str "Base"; target = str "tesser"; original = str "Request" } ∷ [];
    }
    ∷ []

abbrev given : Blocks
given = ((str "tesser", str "Request"), str "port_request") ∷ []

class_blocks_lem_example :
    (result : Blocks) × (class_blocks modules given ≡ some result)
    × Extends given result
    × ((k : Key) (b : Str) → lookup k result ≡ some b → HasBlock modules given k b)
    × ((k : Key) (b : Str) → HasBlock modules given k b → lookup k result ≢ none)
class_blocks_lem_example = class_blocks_lem modules given
