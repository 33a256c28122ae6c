-- ===== src/Generator/Scope.antt =====
-- `Scope` of generator/trees/domain/tree.py: what the names of a template are bound to.
use tesser_build.Prelude.{
  Str, str, List, [], ◌∷◌, ◌++◌, map, list_eq, nat_eq, Result, ok, raise, none, some, if◌then◌else◌,
}
use tesser_build.Prelude.Dict.{lookup, of_rows}
use tesser_build.Prelude.Lists.{is_empty}

abbrev pub Values : Type 0
Values = List (Str × Str)

-- The names that are bound to a text, and those that are bound to a list of items with values of their own.
pub record Scope : Type 0 where
  pub values : Values
  pub sections : List (Str × List Values)

-- "{{sigil name}}"
abbrev pub tagged : Str → Str → Str
tagged sigil name = str "{{" ++ (sigil ++ (name ++ str "}}"))

unfoldable pub value : Scope → Str → Result Str
unfolding lookup
value s name = elim (lookup name s.values) [
  | some bound ↦ ok bound
  | none ↦
      raise (str "a template names " ++ (tagged [] name ++ str ", which the spec binds to nothing"))
]

abbrev item_scope : Scope → Values → Scope
item_scope s item = record { values = item ++ s.values; sections = s.sections }

unbound : Str → Str → Str
unbound sigil name =
    str "a template opens " ++ (tagged sigil name ++ str ", which the spec binds to nothing")

unfoldable pub enter : Scope → Str → Result (List Scope)
unfolding lookup of_rows unbound
enter s name = elim (lookup name (of_rows s.sections)) [
  | some items ↦ ok (map (item_scope s) items)
  | none ↦ elim (lookup name s.values) [
    | some bound ↦ ok (if is_empty bound then [] else s ∷ [])
    | none ↦ raise (unbound (str "#") name)
  ]
]

unfoldable pub skip : Scope → Str → Result (List Scope)
unfolding lookup of_rows unbound
skip s name = elim (lookup name (of_rows s.sections)) [
  | some items ↦ ok (if is_empty items then s ∷ [] else [])
  | none ↦ elim (lookup name s.values) [
    | some bound ↦ ok (if is_empty bound then s ∷ [] else [])
    | none ↦ raise (unbound (str "^") name)
  ]
]
