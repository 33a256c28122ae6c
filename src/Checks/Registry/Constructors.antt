-- ===== src/Checks/Registry/Constructors.antt =====
-- `Constructor` and `ConstructorRows` of tessercheck-py/tessercheck/domain/checks.py: the parameters of the
-- constructors of classes, searched by bisection.
use tesser_build.Prelude.{
  Str, List, [], ◌∷◌, map, ◌==◌, list_eq, nat_eq, pair_eq, less, list_ord, nat_ord, pair_ord,
  Result, Option, none, some, if◌then◌else◌,
}
use tesser_build.Prelude.Dict.{lookup}
use tesser_build.Prelude.Lists.{get_elem?}
use tesser_build.Prelude.Sorting.{sorted}
use tesser_build.Checks.Values.{Symbol, Text, optional_text}
use tesser_build.Checks.Names.{Names, names}
use tesser_build.Checks.KindTable.{Key, key_of}
use tesser_build.Checks.KindTable.Bisect.{bisect_left}

-- `zip(spec.params, spec.types)`: it ends with the shorter list.
pub record Constructor : Type 0 where
  pub typed : List (Str × Str)

unfoldable pub zip : List Str → List Str → List (Str × Str)
zip [] types = []
zip (p ∷ params) [] = []
zip (p ∷ params) (t ∷ types) = (p, t) ∷ zip params types

abbrev pub constructor : List Str → List Str → Constructor
constructor params types = record { typed = zip params types }

unfoldable pub params : Constructor → Names
unfolding names
params c = names (map (λ (row : Str × Str). row.0) c.typed)

unfoldable pub type_of : Constructor → Text → Result (Option Text)
unfolding lookup optional_text
type_of c t = optional_text (lookup t.value c.typed)

-- A class, and the names and the types of its constructor's parameters.
abbrev pub Signed : Type 0
Signed = Key × (List Str × List Str)

pub record ConstructorRows : Type 0 where
  pub items : List Signed

unfoldable pub constructor_rows : ConstructorRows → ConstructorRows
unfolding sorted
constructor_rows given = record { items = sorted given.items }

-- The row at an index, if it is of the class that is wanted.
abbrev pub constructor_at : Key → Option Signed → Option Constructor
constructor_at wanted none = none
constructor_at wanted (some (key, (params, types))) =
    if key == wanted then some (constructor params types) else none

unfoldable pub constructor_of : ConstructorRows → Symbol → Option Constructor
unfolding bisect_left zip
constructor_of rows s =
    let key = key_of s in
    let first : Signed = (key, ([], [])) in
    constructor_at key (get_elem? rows.items (bisect_left (λ row. less row first) rows.items))
