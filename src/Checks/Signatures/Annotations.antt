-- ===== src/Checks/Signatures/Annotations.antt =====
-- `AnnotationPolicy` of tessercheck-py/tessercheck/domain/checks.py. An annotation is given by its leaves, if it can
-- be taken apart, and by its source.
use tesser_build.Prelude.{
  Str, str, Bool, true, false, not, ◌&&◌, ◌||◌, List, [], ◌∷◌, ◌++◌, list_eq, nat_eq, contains,
  Result, ok, ◌>>=◌, Option, none, some, if◌then◌else◌,
}
use tesser_build.Checks.Values.{Symbol, Text, text}
use tesser_build.Checks.Names.{Names, names, holds, symbol_eq}
use tesser_build.Checks.KindTable.{block_of}
use tesser_build.Checks.Scope.{Scope, ScopeSpec, scope, resolve}
use tesser_build.Checks.Registry.{Registry, RegistrySpec, registry, kinds, domain_enums}

pub record AnnotationPolicySpec : Type 0 where
  pub blocks : List Str
  pub primitives : List Str
  pub enums : List Str
  pub scope : ScopeSpec
  pub registry : RegistrySpec
  pub domain_enums : Str

pub record AnnotationPolicy : Type 0 where
  pub blocks : Names
  pub primitives : Names
  pub enums : Names
  pub scope : Scope
  pub registry : Registry
  pub domain_enums : Names

unfoldable pub annotation_policy : AnnotationPolicySpec → Result AnnotationPolicy
unfolding names scope registry
annotation_policy spec = do
  s ← scope spec.scope
  r ← registry spec.registry
  ok (record {
    blocks = names spec.blocks;
    primitives = names spec.primitives;
    enums = names spec.enums;
    scope = s;
    registry = r;
    domain_enums = names (spec.domain_enums ∷ []);
  })

pub record Annotation : Type 0 where
  pub leaves : Option (List Str)
  pub source : Str

abbrev pub is_among : Names → Option Text → Bool
is_among blocks none = false
is_among blocks (some b) = holds blocks b.value

-- `symbol in registry.domain_enums()`, asked only where domain enums are allowed
unfoldable pub is_domain_enum : AnnotationPolicy → Symbol → Result Bool
unfolding holds domain_enums contains symbol_eq
is_domain_enum p s =
    if holds p.domain_enums (str "allowed")
    then (do e ← domain_enums p.registry; ok (contains e.items s))
    else ok false

-- Whether a symbol is of one of the blocks.
unfoldable pub has_block : AnnotationPolicy → Symbol → Result Bool
unfolding kinds block_of holds
has_block p s = do table ← kinds p.registry; b ← block_of table s; ok (is_among p.blocks b)

unless : Bool → Str → List Str
unless true leaf = []
unless false leaf = leaf ∷ []

abbrev symbol_rejected : AnnotationPolicy → Str → Option Symbol → Result (List Str)
symbol_rejected p leaf none = ok (leaf ∷ [])
symbol_rejected p leaf (some s) = do
  enum ← is_domain_enum p s
  if enum then ok [] else (do b ← has_block p s; ok (unless b leaf))

-- `"." not in leaf and (leaf in self._enums or leaf in self._primitives)`
unfoldable pub is_plain : AnnotationPolicy → Str → Bool
unfolding contains holds
is_plain p leaf = not (contains leaf b'.') && (holds p.enums leaf || holds p.primitives leaf)

-- One round of the loop: the leaf, if it is rejected.
unfoldable pub rejected : AnnotationPolicy → Str → Result (List Str)
unfolding is_plain is_domain_enum has_block resolve text unless
rejected p leaf =
    if is_plain p leaf
    then ok []
    else (do t ← text leaf; s ← resolve p.scope t; symbol_rejected p leaf s)

unfoldable pub all_rejected : AnnotationPolicy → List Str → Result (List Str)
unfolding rejected
all_rejected p [] = ok []
all_rejected p (leaf ∷ leaves) = do
  first ← rejected p leaf
  rest ← all_rejected p leaves
  ok (first ++ rest)

unfoldable pub disallowed : AnnotationPolicy → Annotation → Result Names
unfolding all_rejected names
disallowed p a = elim a.leaves [
  | none ↦ ok (names (a.source ∷ []))
  | some leaves ↦ (do found ← all_rejected p leaves; ok (names found))
]
