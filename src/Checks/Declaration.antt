-- ===== src/Checks/Declaration.antt =====
-- `Declaration` of tessercheck-py/tessercheck/domain/checks.py: what a tree's `.tesser-root` file declares, and
-- the findings on it.
pub mod Spec
pub mod Exports
pub mod Tops
pub mod Laws
use tesser_build.Prelude.{
  ℕ, zero, suc, Str, str, split, join, leb, Bool, true, false, not, ◌&&◌, ◌||◌, List, [], ◌∷◌, ◌++◌,
  map, ◌==◌, contains, list_eq, nat_eq, list_ord, nat_ord, pos, Result, ok, ◌>>=◌, traverse, Option,
  none, some, if◌then◌else◌,
}
use tesser_build.Prelude.Lists.{length, any, keep, is_empty}
use tesser_build.Prelude.Sets.{to_set, difference}
use tesser_build.Prelude.Sorting.{sorted}
use tesser_build.Checks.Values.{Text, text}
use tesser_build.Checks.Violations.{ViolationSpec, Violation, violation}
use tesser_build.Checks.Names.{Names, names, Refs, refs, holds}
use Spec.{
  Declaration, tree_declaration, declared_app, declared_missing, declared_unreadable,
  kernel_package, shell_packages, tesser, distribution, roles, domain_stdlib,
}

abbrev pub finding : Str → Str → Str → ViolationSpec
finding path code message = record {
  path = path;
  line = pos 1;
  code = code;
  message = message;
  rename = none;
}

abbrev pub on_tree : Str → ViolationSpec
on_tree = finding tree_declaration (str "TB044")

-- `len(tuple(self._exports)) > 1`
abbrev pub has_second_export : Declaration → Bool
has_second_export d = not (leb (length d.exports.items) 1)

unfoldable pub kind_findings : Declaration → List ViolationSpec
kind_findings d =
    let kind = d.declared.value in
    if kind == declared_missing
    then on_tree (
        str "this tree is not declared; a checkable tree carries a "
        ++ str ".tesser-root file containing 'app' at its root")
      ∷ []
    else if kind == declared_unreadable
    then on_tree (
        str "this tree's declaration is not readable; "
        ++ str "a .tesser-root is a plain UTF-8 text file")
      ∷ []
    else if has_second_export d
    then on_tree (
        str "this tree declares a second exported kernel; a tree has one "
        ++ (str "exported kernel, so a declaration carries at most one "
            ++ str "'export <dir>' line"))
      ∷ []
    else if not (kind == declared_app)
    then on_tree (
        str "this tree declares an unrecognized kind; a declaration is "
        ++ (str "'app', then only 'skip <dir>', 'export <dir>', "
            ++ str "'import <package>', and 'stdlib <module>' lines"))
      ∷ []
    else []

abbrev first_part : List Str → Str
first_part [] = []
first_part (p ∷ ps) = p

-- `name.split(".")[0]`
abbrev pub head_of : Str → Str
head_of name = first_part (split b'.' name)

abbrev pub tops : Declaration → List Str
tops d = to_set (map head_of d.module_names.items)

-- `sorted(tops - frozenset({…}))`
abbrev pub outsiders : Declaration → List Str
outsiders d = sorted (difference (tops d) distribution)

-- `len(parts) >= 2 and parts[0] == export and parts[1] in ROLES`
unfoldable pub is_role_of : Str → List Str → Bool
is_role_of export (p ∷ q ∷ ps) = p == export && contains roles q
is_role_of export _ = false

abbrev pub is_reserved : Str → Bool
is_reserved name = name == kernel_package || contains shell_packages name

-- The findings on the exported kernel, at most one.
unfoldable pub export_findings : Declaration → Str → List ViolationSpec
unfolding split contains holds to_set sorted difference join is_role_of
export_findings d export =
    if is_reserved export
    then on_tree (
        str "this tree exports '"
        ++ (export
            ++ (str "'; an exported kernel "
                ++ str "never takes the name of the kernel package or the app shell")))
      ∷ []
    else if not (holds d.package_names export)
    then on_tree (
        str "this tree exports '"
        ++ (export
            ++ (str "' but no such package "
                ++ str "exists; an export names a package at the tree root")))
      ∷ []
    else if export == tesser && not (is_empty (outsiders d))
    then on_tree (
        str "this tree exports 'tesser' but also holds "
        ++ (join (str ", ") (outsiders d)
            ++ (str "; "
                ++ (str "a tree exporting tesser is the distribution itself — "
                    ++ str "its top level is tesser and tests, nothing else"))))
      ∷ []
    else if not (export == tesser)
        && any (λ name. is_role_of export (split b'.' name)) d.module_names.items
    then on_tree (
        str "this tree exports '"
        ++ (export
            ++ (str "', a context-shaped package; "
                ++ str "a bounded context's domain is never exported — a kernel is not a context")))
      ∷ []
    else []

unfoldable pub import_findings : Declaration → Str → List ViolationSpec
unfolding split contains holds to_set
import_findings d declared =
    let head = head_of declared in
    if is_reserved head || contains (tops d) head
    then on_tree (
        str "this tree declares 'import "
        ++ (declared
            ++ (str "' but that names "
                ++ (str "this tree; an import declaration names an installed "
                    ++ str "external kernel, never something the walk governs"))))
      ∷ []
    else if holds d.stdlib head
    then on_tree (
        str "this tree declares 'import "
        ++ (declared
            ++ (str "' but that names "
                ++ (str "the stdlib; the pure stdlib is already legal and the "
                    ++ str "rest of it is never a kernel"))))
      ∷ []
    else []

unfoldable pub stdlib_findings : Declaration → Str → List ViolationSpec
unfolding split contains holds
stdlib_findings d declared =
    let head = head_of declared in
    if not (holds d.stdlib head)
    then on_tree (
        str "this tree declares 'stdlib "
        ++ (declared
            ++ (str "' but that is not "
                ++ (str "the stdlib; a stdlib declaration widens the domain's pure "
                    ++ str "stdlib, an external package is declared with import"))))
      ∷ []
    else if contains domain_stdlib declared || contains domain_stdlib head
    then on_tree (
        str "this tree declares 'stdlib "
        ++ (declared
            ++ (str "' but the domain "
                ++ (str "already imports it; a stdlib declaration widens the default "
                    ++ str "pure stdlib, never repeats it"))))
      ∷ []
    else []

-- The findings of each element, one after the other.
abbrev pub each : (Str → List ViolationSpec) → List Str → List ViolationSpec
each f [] = []
each f (x ∷ xs) = f x ++ each f xs

abbrev of_export : Declaration → Option Text → List ViolationSpec
of_export d none = []
of_export d (some t) = export_findings d t.value

-- The findings on what a tree with at most one export declares.
unfoldable pub content_findings : Declaration → List ViolationSpec
unfolding export_findings import_findings stdlib_findings
content_findings d =
    of_export d d.export
    ++ (each (import_findings d) d.imports.items ++ each (stdlib_findings d) d.pure_stdlib.items)

abbrev pub nested_finding : Str → ViolationSpec
nested_finding relative = finding relative (str "TB044") (
    str "declares a nested tree root; a tessercheck run covers one "
    ++ str "declared tree, so run that tree directly")

abbrev pub symlinked_finding : Str → ViolationSpec
symlinked_finding relative = finding relative (str "TB045") (
    str "is a symlinked directory; a declared tree is walked in "
    ++ str "full, and a symlink escapes the walk")

unfoldable pub findings : Declaration → List ViolationSpec
unfolding kind_findings content_findings
findings d =
    kind_findings d
    ++ ((if has_second_export d then [] else content_findings d)
        ++ (map nested_finding d.nested.items ++ map symlinked_finding d.symlinked.items))

unfoldable pub violations : Declaration → Result (List Violation)
unfolding findings traverse violation
violations d = traverse violation (findings d)

unfoldable pub unused_findings : Declaration → Names → List ViolationSpec
unfolding holds
unused_findings d used =
    map
      (λ declared. on_tree (
        str "this tree declares 'import "
        ++ (declared
            ++ (str "' and nothing uses it; "
                ++ str "an import declaration that legalizes nothing is itself a finding"))))
      (keep (λ declared. not (holds used declared)) d.imports.items)
    ++ map
        (λ declared. on_tree (
          str "this tree declares 'stdlib "
          ++ (declared
              ++ (str "' and nothing uses it; "
                  ++ str "a stdlib declaration that legalizes nothing is itself a finding"))))
        (keep (λ declared. not (holds used declared)) d.pure_stdlib.items)

unfoldable pub unused_violations : Declaration → Names → Result (List Violation)
unfolding unused_findings traverse violation
unused_violations d used = traverse violation (unused_findings d used)
