-- ===== src/Checks/Scope/Laws.antt =====
-- The two ways to resolve a name agree.
use tesser_build.Prelude.{
  Str, rsplit, ◌≡◌, refl, List, [], ◌∷◌, ◌++◌, map, append-nil, list_eq, nat_eq, Result, ok,
  >>=-eq-ok, traverse, traverse-cons, Option, none, some, arith, if◌then◌else◌,
}
use tesser_build.Checks.Values.{Symbol, SymbolSpec, symbol, Text, text, spec_of}
use tesser_build.Checks.Names.{Symbols, symbols, holds}
use tesser_build.Checks.KindTable.{Key, key_of}
use tesser_build.Checks.Reexports.{canonical, follow}
use tesser_build.Checks.Scope.{
  Scope, Import, Alias, found_at, found_for, first_import, first_package, candidates_at, candidates,
  all_candidates, canonical_key, imports_for, aliases_for, resolve, symbols_of,
}

abbrev first_key : List Key → Option Key
first_key [] = none
first_key (k ∷ ks) = some k

first_key-imports_for :
    (ref : Str) (imported : List Import) (ks : List Key)
    → first_key (imports_for ref imported ++ ks)
      ≡ elim (first_import ref imported) [ some k ↦ some k | none ↦ first_key ks ]
unfolding first_import
first_key-imports_for ref [] ks = refl
first_key-imports_for ref (i ∷ imported) ks = ground (arith, first_key-imports_for ref imported ks)

first_key-aliases_for :
    (prefix attr : Str) (packages : List Alias)
    → first_key (aliases_for prefix attr packages)
      ≡ elim (first_package prefix packages) [ some p ↦ some (p.value, attr) | none ↦ none ]
unfolding first_package
first_key-aliases_for prefix attr [] = refl
first_key-aliases_for prefix attr (a ∷ packages) =
    ground (arith, first_key-aliases_for prefix attr packages)

first_key-candidates_at :
    (s : Scope) (ref : Str) (parts : Option (Str × Str))
    → first_key (candidates_at s ref parts) ≡ found_at s ref parts
unfolding found_at
first_key-candidates_at s ref none = ground (
  arith,
  first_key-imports_for ref s.imported
      (if holds s.classes ref then (s.module_name.value, ref) ∷ [] else []),
)
first_key-candidates_at s ref (some (prefix, attr)) =
    ground (arith, first_key-aliases_for prefix attr s.packages)

first_key-candidates : (s : Scope) (ref : Str) → first_key (candidates s ref) ≡ found_for s ref
unfolding candidates found_for
first_key-candidates s ref = first_key-candidates_at s ref (rsplit b'.' ref)

-- The symbol of a re-export is as the constructor makes it.
symbol-spec_of : (spec : SymbolSpec) {y : Symbol} → symbol spec ≡ ok y → symbol (spec_of y) ≡ ok y
unfolding symbol text
symbol-spec_of spec {y} h = ground arith

canonical_key-spec_of :
    (s : Scope) (key : Key) (y : Symbol) → canonical_key s key ≡ ok y → symbol (spec_of y) ≡ ok y
unfolding canonical_key canonical
canonical_key-spec_of s key y h =
    let (given, e, made) =
      >>=-eq-ok (symbol (record { module_name = key.0; name = key.1 })) (canonical s.table) h in
    let last = follow s.table.rows s.table.rows (key_of given) in
    symbol-spec_of (record { module_name = last.0; name = last.1 }) made

abbrev first_symbol : List Symbol → Option Symbol
first_symbol [] = none
first_symbol (y ∷ ys) = some y

module _ {ℓ κ} {A : Type ℓ} {B : Type κ} where
  traverse-map {μ} :
      {C : Type μ} (f : A → Result B) (g : B → C) (back : C → Result B)
      → ((a : A) (b : B) → f a ≡ ok b → back (g b) ≡ ok b)
      → (xs : List A) {ys : List B} → traverse f xs ≡ ok ys
      → traverse back (map g ys) ≡ ok ys
  unfolding traverse
  traverse-map f g back same [] h = ground arith
  traverse-map f g back same (x ∷ xs) {ys} h =
      let (y, ys', e, rest, whole) = traverse-cons f x xs h in
      ground (arith, same x y e, traverse-map f g back same xs rest)

-- What a text stands for is the first symbol of an annotation that is this text alone.
resolve_first :
    (s : Scope) (t : Text) (ks : List Key)
    → {ys : List Symbol} → first_key ks ≡ found_for s t.value
    → traverse (canonical_key s) ks ≡ ok ys
    → resolve s t ≡ ok (first_symbol ys)
unfolding resolve traverse
resolve_first s t [] e h = ground arith
resolve_first s t (k ∷ ks) e h = ground arith

-- When everything that a text may stand for can be resolved, the text stands for the first symbol of
-- the annotation that is this text alone.
pub resolve-symbols_of :
    (s : Scope) (t : Text) {found : Symbols}
    → symbols_of s (t.value ∷ []) ≡ ok found
    → resolve s t ≡ ok (first_symbol found.items)
unfolding symbols_of all_candidates symbols
resolve-symbols_of s t h =
    let keys = candidates s t.value in
    let (ys, resolved, made) =
      >>=-eq-ok (traverse (canonical_key s) (keys ++ [])) (λ found. symbols (map spec_of found))
        h in
    let whole : traverse (canonical_key s) keys ≡ ok ys = rw (← append-nil keys) resolved in
    ground (
      arith,
      resolve_first s t keys (first_key-candidates s t.value) whole,
      traverse-map (canonical_key s) spec_of symbol (canonical_key-spec_of s) keys whole,
    )
