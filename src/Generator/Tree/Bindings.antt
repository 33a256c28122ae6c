-- ===== src/Generator/Tree/Bindings.antt =====
-- What the names of the templates stand for: the part of the constructor of `Tree` of generator/trees/domain/tree.py
-- that runs when no problem was found. A missing key raises the `repr` of the key, an index that is out of range
-- raises a message.
use tesser_build.Prelude.{
  ℕ, suc, ◌-◌, ◌+◌, Str, str, str_of_nat, join, eqb, ltb, leb, ◌&&◌, List, [], ◌∷◌, ◌++◌, map, ◌==◌,
  list_eq, nat_eq, Result, ok, raise, traverse, ◌>>=◌, none, some, if◌then◌else◌,
}
use tesser_build.Prelude.Dict.{Dict, lookup, of_rows}
use tesser_build.Prelude.Lists.{length, get_elem?}
use tesser_build.Generator.Scope.{Scope, Values}
use tesser_build.Generator.Tree.Shapes.{field_types}
use tesser_build.Generator.Tree.Spec.{TreeSpec, Sample, say, kinds, sampled, field_names}
use tesser_build.Generator.Tree.Fields.{class_name}

-- `f'"{text}"' if value_kind == "str" else text`
unfoldable pub literal_of : Sample → Str
literal_of (value_kind, text) = if value_kind == str "str" then b'"' ∷ (text ++ b'"' ∷ []) else text

unfoldable pub class_keys : TreeSpec → List Str
unfolding field_names
class_keys spec =
    spec.app_name
    ∷ spec.bounded_context_name
    ∷ spec.identity_field_name
    ∷ spec.write_operation_name
    ∷ spec.read_operation_name
    ∷ spec.orchestrator_operation_name
    ∷ spec.action_operation_name
    ∷ spec.save_operation_name
    ∷ spec.load_operation_name
    ∷ spec.identity_port_operation_name
    ∷ field_names spec

-- `WORD_START.sub("_", name)`: an underscore before every capital letter but the first character
underscored : Str → Str
underscored [] = []
underscored (c ∷ s) =
    let rest = underscored s in if leb b'A' c && leb c b'Z' then b'_' ∷ c ∷ rest else c ∷ rest

unfoldable pub word_starts : Str → Str
unfolding underscored
word_starts [] = []
word_starts (c ∷ s) = c ∷ underscored s

spaced : Str → Str
spaced [] = []
spaced (c ∷ s) = (if eqb c b'_' then b' ' else c) ∷ spaced s

-- `names[i]` of a tuple
unfoldable pub at_index {ℓ} : {A : Type ℓ} → List A → ℕ → Result A
at_index xs i = elim (get_elem? xs i) [
  | none ↦ raise (str "tuple index out of range")
  | some x ↦ ok x
]

abbrev second_of : Sample → Str
second_of (value_kind, text) = text

-- Two names, and what they stand for.
abbrev pair_for : Str → Str → Str → Str → Values
pair_for small large name c = (small, name) ∷ (large, c) ∷ []

abbrev flat : List Values → Values
flat [] = []
flat (v ∷ vs) = v ++ flat vs

-- `capitalize` and `lower` are Python's methods of texts, `repr` its function.
module _ (capitalize lower repr : Str → Str) where
  -- `d[k]`
  unfoldable pub item_at {ℓ} : {A : Type ℓ} → Dict Str A → Str → Result A
  unfolding lookup
  item_at d k = elim (lookup k d) [ none ↦ raise (repr k) | some v ↦ ok v ]

  unfoldable pub classes : TreeSpec → Dict Str Str
  unfolding of_rows class_keys class_name
  classes spec = of_rows (map (λ name. (name, class_name capitalize name)) (class_keys spec))

  -- `literals[name][i]`
  unfoldable pub literal_at : TreeSpec → Str → ℕ → Result Str
  unfolding item_at at_index sampled literal_of
  literal_at spec name i = do
    values ← item_at (sampled spec) name
    at_index (map literal_of values) i

  -- What the names of a field stand for.
  unfoldable pub item_row : TreeSpec → Str × Str → Result (Str × Values)
  unfolding item_at field_types classes literal_at
  item_row spec (name, kind) = do
    ft ← item_at field_types kind
    c ← item_at (classes spec) name
    first ← literal_at spec name 0
    second ← literal_at spec name 1
    ok (
      name,
      (str "field", name)
          ∷ (str "Field", c)
          ∷ (str "py_type", kind)
          ∷ (str "sql_type", ft.sql_type)
          ∷ (str "canonical", ft.canonical)
          ∷ (str "dunder", ft.dunder)
          ∷ (str "sample", first)
          ∷ (str "sample2", second)
          ∷ (str "wrong", (if kind == str "str" then str "1" else str "\"1\""))
          ∷ (str "accessor", (if name == spec.identity_field_name then str "identity" else name))
          ∷ (str "is_identity", (if name == spec.identity_field_name then str "true" else []))
          ∷ [],
    )

  unfoldable pub items : TreeSpec → Result (Dict Str Values)
  unfolding traverse item_row kinds of_rows
  items spec = do rows ← traverse (item_row spec) (kinds spec); ok (of_rows rows)

  -- What is added to an item for its place among `n` names.
  unfoldable pub placed : ℕ → ℕ → Values
  placed n index =
      (str "comma", (if ltb index (n - 1) then str ", " else []))
      ∷ (
        str "prose",
        (if eqb index 0
            then []
            else if eqb n 2
            then str " and "
            else if eqb index (n - 1)
            then str ", and "
            else str ", "),
      )
      ∷ (str "position", str_of_nat (index + 1))
      ∷ []

  unfoldable pub section_rows : Dict Str Values → ℕ → ℕ → List Str → Result (List Values)
  unfolding item_at placed
  section_rows rows n index [] = ok []
  section_rows rows n index (name ∷ names) = do
    item ← item_at rows name
    rest ← section_rows rows n (suc index) names
    ok ((item ++ placed n index) ∷ rest)

  unfoldable pub section_for : Dict Str Values → Str → List Str → Result (Str × List Values)
  unfolding section_rows
  section_for rows section names = do
    listed ← section_rows rows (length names) 0 names
    ok (section, listed)

  unfoldable pub sections : TreeSpec → Dict Str Values → Result (List (Str × List Values))
  unfolding section_for field_names
  sections spec rows = do
    f ← section_for rows (str "fields") (field_names spec)
    r ← section_for rows (str "record_fields") (spec.identity_field_name ∷ field_names spec)
    a ← section_for rows (str "read_fields") spec.read_response_fields
    ok (f ∷ r ∷ a ∷ [])

  -- `"(" + ", ".join(choices) + ("," if len(choices) == 1 else "") + ")"`
  unfoldable pub random_choices : TreeSpec → Str
  unfolding join literal_of say
  random_choices spec =
      let choices = map literal_of spec.random_values in
      say (
        str "("
        ∷ join (str ", ") choices
        ∷ (if eqb (length choices) 1 then str "," else [])
        ∷ str ")"
        ∷ [])

  unfoldable pub values : TreeSpec → Result Values
  unfolding item_at classes literal_at at_index sampled word_starts spaced random_choices
  values spec = do
    app ← item_at (classes spec) spec.app_name
    context ← item_at (classes spec) spec.bounded_context_name
    identity ← item_at (classes spec) spec.identity_field_name
    first ← literal_at spec spec.identity_field_name 0
    second ← literal_at spec spec.identity_field_name 1
    samples ← item_at (sampled spec) spec.identity_field_name
    raw ← at_index samples 0
    write ← item_at (classes spec) spec.write_operation_name
    read ← item_at (classes spec) spec.read_operation_name
    conduct ← item_at (classes spec) spec.orchestrator_operation_name
    record_class ← item_at (classes spec) spec.action_operation_name
    save ← item_at (classes spec) spec.save_operation_name
    load ← item_at (classes spec) spec.load_operation_name
    issue ← item_at (classes spec) spec.identity_port_operation_name
    ok (
        flat (
          pair_for (str "app") (str "App") spec.app_name app
          ∷ pair_for (str "context") (str "Context") spec.bounded_context_name context
          ∷ pair_for (str "aggregate") (str "Aggregate")
              (lower (word_starts spec.aggregate_root_class_name)) spec.aggregate_root_class_name
          ∷ pair_for (str "identity") (str "Identity") spec.identity_field_name identity
          ∷ pair_for (str "identity_sample") (str "identity_sample2") first second
          ∷ ((str "identity_raw", second_of raw) ∷ [])
          ∷ pair_for (str "write") (str "Write") spec.write_operation_name write
          ∷ pair_for (str "read") (str "Read") spec.read_operation_name read
          ∷ pair_for (str "conduct") (str "Conduct") spec.orchestrator_operation_name conduct
          ∷ ((str "conduct_words", spaced spec.orchestrator_operation_name) ∷ [])
          ∷ pair_for (str "record") (str "Record") spec.action_operation_name record_class
          ∷ ((str "record_words", spaced spec.action_operation_name) ∷ [])
          ∷ pair_for (str "save") (str "Save") spec.save_operation_name save
          ∷ pair_for (str "load") (str "Load") spec.load_operation_name load
          ∷ pair_for (str "issue") (str "Issue") spec.identity_port_operation_name issue
          ∷ ((str "collection", spec.load_response_collection_name)
              ∷ (str "storage_env", spec.storage_url_variable)
              ∷ (str "ingress_env", spec.restate_ingress_url_variable)
              ∷ (str "asserts", spec.asserted_field)
              ∷ (str "random_choices", random_choices spec)
              ∷ (str "test_class", spec.test_class_name)
              ∷ (str "test_method", spec.test_method_name)
              ∷ [])
          ∷ []))

  -- The scope that the templates are rendered in.
  unfoldable pub bindings : TreeSpec → Result Scope
  unfolding items sections values
  bindings spec = do
    rows ← items spec
    s ← sections spec rows
    v ← values spec
    ok (record { values = v; sections = s })
