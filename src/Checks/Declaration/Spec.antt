-- ===== src/Checks/Declaration/Spec.antt =====
-- The names that a declaration is checked against, and `DeclarationSpec` and `Declaration` of
-- tessercheck-py/tessercheck/domain/checks.py.
use tesser_build.Prelude.{
  Str, str, List, [], ◌∷◌, map, list_eq, nat_eq, list_ord, nat_ord, Result, ok, ◌>>=◌, Option, none,
  some,
}
use tesser_build.Checks.Values.{Text, text}
use tesser_build.Checks.Names.{Names, names, Refs, refs}

unfoldable pub tree_declaration : Str
tree_declaration = str ".tesser-root"

unfoldable pub declared_app : Str
declared_app = str "app"

unfoldable pub declared_missing : Str
declared_missing = str "missing"

unfoldable pub declared_unreadable : Str
declared_unreadable = str "unreadable"

unfoldable pub kernel_package : Str
kernel_package = str "kernel"

unfoldable pub shell_packages : List Str
shell_packages = str "srv" ∷ str "app" ∷ str "protocol" ∷ str "tests" ∷ []

unfoldable pub tesser : Str
tesser = str "tesser"

-- The top-level names of the distribution itself.
unfoldable pub distribution : List Str
unfolding tesser
distribution = tesser ∷ str "tests" ∷ str "conftest" ∷ []

unfoldable pub roles : List Str
roles = str "domain" ∷ str "application" ∷ str "client" ∷ str "adapters" ∷ str "component" ∷ []

-- CORE_STDLIB["domain"]
unfoldable pub domain_stdlib : List Str
domain_stdlib = map str (
    "__future__" ∷ "typing" ∷ "enum" ∷ "decimal" ∷ "fractions" ∷ "datetime" ∷ "math" ∷ "re" ∷ "ast"
    ∷ "io" ∷ "tokenize" ∷ "builtins" ∷ "collections.abc" ∷ "urllib.parse" ∷ "copy" ∷ [])

pub record DeclarationSpec : Type 0 where
  pub declared : Str
  pub exports : List Str
  pub imports : List Str
  pub stdlib : List Str
  pub pure_stdlib : List Str
  pub nested : List Str
  pub symlinked : List Str
  pub module_names : List Str
  pub package_names : List Str

pub record Declaration : Type 0 where
  pub declared : Text
  pub exports : Names
  pub export : Option Text
  pub imports : Refs
  pub stdlib : Names
  pub pure_stdlib : Refs
  pub nested : Names
  pub symlinked : Names
  pub module_names : Names
  pub package_names : Names

-- `Text(exports[0]) if len(exports) == 1 else None`
unfoldable pub only_export : List Str → Result (Option Text)
unfolding text
only_export (e ∷ []) = do t ← text e; ok (some t)
only_export _ = ok none

unfoldable pub declaration : DeclarationSpec → Result Declaration
unfolding text names refs only_export
declaration spec = do
  d ← text spec.declared
  e ← only_export spec.exports
  ok (record {
    declared = d;
    exports = names spec.exports;
    export = e;
    imports = refs spec.imports;
    stdlib = names spec.stdlib;
    pure_stdlib = refs spec.pure_stdlib;
    nested = names spec.nested;
    symlinked = names spec.symlinked;
    module_names = names spec.module_names;
    package_names = names spec.package_names;
  })

-- `ViolationSpec(path, 1, code, message)`
