-- ===== src/Tests/Resolving.antt =====
-- A shop whose package exports an order on from the module that defines it.
use tesser_build.Prelude.{
  split, last_part, not, ◌&&◌, str, ◌≡◌, refl, true, List, [], ◌∷◌, map, list_eq, nat_eq, pair_eq,
  list_ord, nat_ord, pair_ord, ok, none, some, contains, ◌==◌,
}
use tesser_build.Prelude.Lists.{all}
use tesser_build.Prelude.Sets.{Nodup}
use tesser_build.Prelude.Dict.{lookup}
use tesser_build.Checks.Values.{Symbol, Text, symbol}
use tesser_build.Checks.KindTable.{Key, key_of}
use tesser_build.Checks.KindTable.Search.{row_key}
use tesser_build.Checks.Reexports.{Reexport, reexport_table, canonical}
use tesser_build.Checks.Reexports.Chain.{Chain, stop, next, canonical-Chain}
use tesser_build.Checks.Scope.{Scope, ScopeSpec, scope, symbols_of, resolve}
use tesser_build.Checks.Scope.Laws.{resolve-symbols_of}
use tesser_build.Checks.Registry.Rows.{
  FieldRows, field_ref, barred, parts_of, Member, Shaped, shaped_if, first_row,
}
use tesser_build.Checks.Registry.Bars.{field_ref-barred, bar_free_member, row_is_free}
use tesser_build.Checks.Registry.Constructors.{
  ConstructorRows, constructor_rows, constructor_of, constructor,
}
use tesser_build.Checks.Registry.Search.{constructor_of-lookup, made}
use tesser_build.Checks.Placement.{PlacementSpec, placement}
use tesser_build.Checks.Placement.Places.{export_package_places}
use tesser_build.Checks.Placement.Laws.{contains-placement, is_test_name, in_exporting_part}

abbrev reexports : List Reexport
reexports =
    ((str "shop", str "Order"), (str "shop.domain", str "Order"))
    ∷ ((str "shop.domain", str "Order"), (str "shop.domain.order", str "Order"))
    ∷ []

abbrev exported : Symbol
exported = record {
  module_name = record { value = str "shop" };
  name = record { value = str "Order" };
}

abbrev defined : Symbol
defined = record {
  module_name = record { value = str "shop.domain.order" };
  name = record { value = str "Order" };
}

abbrev passed : List Key
passed = (str "shop", str "Order") ∷ (str "shop.domain", str "Order") ∷ []

chain : Chain reexports (key_of exported) passed (str "shop.domain.order", str "Order")
unfolding str list_eq nat_eq pair_eq lookup
chain = next refl (next refl (stop refl))

canonical-Chain_example :
    canonical (reexport_table reexports) exported
    ≡ symbol (record { module_name = str "shop.domain.order"; name = str "Order" })
canonical-Chain_example = canonical-Chain exported chain

abbrev scope_spec : ScopeSpec
scope_spec = record {
  module_name = str "till.domain";
  imported = record { local_name = str "Order"; target = str "shop"; original = str "Order" } ∷ [];
  packages = record { alias_name = str "ts"; package_name = str "tesser.domain" } ∷ [];
  classes = str "Till" ∷ str "Order" ∷ [];
  functions = [];
  spoken = none;
  enums = [];
  reexports = reexports;
}

abbrev till : Scope
till = record {
  module_name = record { value = str "till.domain" };
  imported =
      record {
        local_name = record { value = str "Order" };
        target = record { value = str "shop" };
        original = record { value = str "Order" };
      }
      ∷ [];
  packages =
      record {
        alias_name = record { value = str "ts" };
        package_name = record { value = str "tesser.domain" };
      }
      ∷ [];
  classes = record { items = str "Order" ∷ str "Till" ∷ [] };
  functions = record { items = [] };
  spoken = none;
  enums = record { items = [] };
  table = reexport_table reexports;
}

scope_made : scope scope_spec ≡ ok till
unfolding scope str list_eq nat_eq list_ord nat_ord pair_ord
scope_made = refl

-- An own class of the same name comes after the import.
both :
    symbols_of till (str "Order" ∷ [])
    ≡ ok (record {
      items =
          defined
          ∷ record {
            module_name = record { value = str "till.domain" };
            name = record { value = str "Order" };
          }
          ∷ [];
    })
unfolding symbols_of reexport_table str list_eq nat_eq pair_eq list_ord nat_ord pair_ord
both = refl

resolve-symbols_of_example : resolve till (record { value = str "Order" }) ≡ ok (some defined)
resolve-symbols_of_example = resolve-symbols_of till (record { value = str "Order" }) both

abbrev total : Member
total = (str "shop.domain", (str "Order", str "total"))

abbrev field_rows : FieldRows
field_rows = record { items = (total, ((str "shop.domain", str "MoneySpec"), str "one")) ∷ [] }

abbrev total_text : Text
total_text = record { value = str "shop.domain|Order|total" }

barred-total : total_text.value ≡ barred (parts_of total)
unfolding barred str
barred-total = refl

money_ref :
    field_ref field_rows total_text
    ≡ ok (
        some (record {
          symbol = record {
            module_name = record { value = str "shop.domain" };
            name = record { value = str "MoneySpec" };
          };
          shape = record { value = str "one" };
        }))
unfolding field_ref str list_eq nat_eq
money_ref = refl

-- No name of the rows has a bar in it.
is_free : (bar_free_member total ≡ true) × (all row_is_free field_rows.items ≡ true)
unfolding contains str list_eq nat_eq
is_free = (refl, refl)

field_ref-barred_example :
    field_ref field_rows total_text
    ≡ shaped_if (first_row (λ (row : Member × Shaped). row.0 == total) field_rows.items)
field_ref-barred_example =
    field_ref-barred field_rows total total_text is_free.0 is_free.1 barred-total

abbrev constructors : ConstructorRows
constructors = record {
  items =
      ((str "till.domain", str "Till"), (str "spec" ∷ [], str "TillSpec" ∷ []))
      ∷ (key_of defined, (str "spec" ∷ [], str "OrderSpec" ∷ []))
      ∷ [];
}

once : Nodup (map row_key constructors.items)
unfolding contains str list_eq nat_eq pair_eq
once = (refl, (refl, tt))

constructor_of-lookup_example :
    constructor_of (constructor_rows constructors) defined
    ≡ made (lookup (key_of defined) constructors.items)
constructor_of-lookup_example = constructor_of-lookup constructors defined once

order_made :
    made (lookup (key_of defined) constructors.items)
    ≡ some (constructor (str "spec" ∷ []) (str "OrderSpec" ∷ []))
unfolding lookup str list_eq nat_eq pair_eq
order_made = refl

abbrev ports_spec : PlacementSpec
ports_spec = record {
  name = str "shop.application.ports";
  is_package = true;
  contexts = str "shop" ∷ [];
  export = none;
}

ports_text : (placement ports_spec).value ≡ str "ports-init"
unfolding placement contains str list_eq nat_eq
ports_text = refl

contains-placement_example : contains export_package_places (placement ports_spec).value ≡ (
    ports_spec.is_package
    && (not (is_test_name (last_part (split b'.' ports_spec.name)))
        && in_exporting_part ports_spec (split b'.' ports_spec.name)))
contains-placement_example = contains-placement ports_spec
