-- ===== src/Checks/Declaration/Laws.antt =====
-- Which declarations have no finding.
use tesser_build.Prelude.{
  Str, str, leb, >>=-eq-ok, split, Bool, true, not, ◌&&◌, ◌≡◌, ◌≢◌, refl, ◌∙◌, List, [], ◌∷◌, ◌++◌,
  map, ◌==◌, contains, list_eq, nat_eq, list_ord, nat_ord, ne→≢, ok, Option, none, some, arith,
  if◌then◌else◌,
}
use tesser_build.Prelude.Lists.{
  length, all, any, is_empty, is_empty-append, both_empty, is_empty-map,
}
use tesser_build.Checks.Values.{Text, text}
use tesser_build.Checks.Violations.{ViolationSpec, Violation}
use tesser_build.Checks.Violations.Laws.{is_empty-traverse}
use tesser_build.Checks.Names.{holds, names}
use tesser_build.Checks.Declaration.Spec.{
  Declaration, declared_app, declared_missing, declared_unreadable, tesser, domain_stdlib,
  only_export, declaration, DeclarationSpec,
}
use tesser_build.Checks.Declaration.Tops.{
  is_taken, is_of_tesser, is_in_role, is_reserved-is_taken, is_empty-outsiders, contains-tops,
  any-is_role_of,
}
use tesser_build.Checks.Declaration.Exports.{length-names}
use tesser_build.Checks.Declaration.{
  kind_findings, export_findings, import_findings, stdlib_findings, content_findings, findings,
  violations, each, head_of, has_second_export, nested_finding, symlinked_finding, of_export,
}

-- A kernel that a tree may export: a package of its own, not a context, and not beside others if it is
-- tesser.
abbrev may_export : Declaration → Option Text → Bool
may_export d none = true
may_export d (some t) =
    not (is_taken t.value)
    && (holds d.package_names t.value
        && (if t.value == str "tesser"
            then all (λ name. is_of_tesser (head_of name)) d.module_names.items
            else not (any (λ name. is_in_role t.value (split b'.' name)) d.module_names.items)))

-- A package that a tree may declare as imported: not one of its own, nor of the standard library.
abbrev may_import : Declaration → Str → Bool
may_import d declared =
    not (is_taken (head_of declared))
    && (not (any (λ name. head_of declared == head_of name) d.module_names.items)
        && not (holds d.stdlib (head_of declared)))

-- A module that a tree may declare as standard library: one that the domain cannot import already.
abbrev may_widen : Declaration → Str → Bool
may_widen d declared =
    holds d.stdlib (head_of declared)
    && (not (contains domain_stdlib declared) && not (contains domain_stdlib (head_of declared)))

-- Of the `export` lines there is none, or one with a kernel that may be exported; or there are several of the same
-- kernel, whatever it is.
abbrev exports_fine : Declaration → List Str → Bool
exports_fine d [] = true
exports_fine d (e ∷ []) = may_export d (some (record { value = e }))
exports_fine d (e ∷ f ∷ more) = all (λ x. x == e) (f ∷ more)

-- A declaration with the given `export` lines.
abbrev pub is_sound : List Str → Declaration → Bool
is_sound exports d =
    d.declared.value == str "app"
    && ((exports_fine d exports
          && (all (may_import d) d.imports.items && all (may_widen d) d.pure_stdlib.items))
        && (is_empty d.nested.items && is_empty d.symlinked.items))

app_ne : (declared_app ≢ declared_missing) × (declared_app ≢ declared_unreadable)
unfolding declared_app declared_missing declared_unreadable str list_eq nat_eq
app_ne = (ne→≢ declared_app declared_missing refl, ne→≢ declared_app declared_unreadable refl)

is_empty-kind_findings :
    (d : Declaration)
    → is_empty (kind_findings d) ≡ (d.declared.value == declared_app && not (has_second_export d))
unfolding kind_findings
is_empty-kind_findings d = ground (arith, app_ne)

is_empty-of_export : (d : Declaration) (t : Option Text) → is_empty (of_export d t) ≡ may_export d t
unfolding export_findings tesser
is_empty-of_export d none = refl
is_empty-of_export d (some t) = ground (
  arith,
  is_reserved-is_taken t.value,
  is_empty-outsiders d,
  any-is_role_of t.value d.module_names.items,
)

is_empty-import_findings :
    (d : Declaration) (x : Str) → is_empty (import_findings d x) ≡ may_import d x
unfolding import_findings
is_empty-import_findings d x =
    ground (arith, is_reserved-is_taken (head_of x), contains-tops d (head_of x))

is_empty-stdlib_findings :
    (d : Declaration) (x : Str) → is_empty (stdlib_findings d x) ≡ may_widen d x
unfolding stdlib_findings
is_empty-stdlib_findings d x = ground arith

is_empty-each :
    (f : Str → List ViolationSpec) (p : Str → Bool) (xs : List Str)
    → ((x : Str) → is_empty (f x) ≡ p x)
    → is_empty (each f xs) ≡ all p xs
is_empty-each f p [] h = refl
is_empty-each f p (x ∷ xs) h = both_empty (f x) (each f xs) (h x) (is_empty-each f p xs h)

is_empty-content_findings :
    (d : Declaration)
    → is_empty (content_findings d) ≡ (
        may_export d d.export
        && (all (may_import d) d.imports.items && all (may_widen d) d.pure_stdlib.items))
unfolding content_findings
is_empty-content_findings d = both_empty (of_export d d.export) _ (is_empty-of_export d d.export) (
    both_empty (each (import_findings d) d.imports.items) _
      (is_empty-each (import_findings d) (may_import d) d.imports.items
        (is_empty-import_findings d))
      (is_empty-each (stdlib_findings d) (may_widen d) d.pure_stdlib.items
        (is_empty-stdlib_findings d)))

-- A declaration without a second export, in what is held of it.
abbrev is_held_sound : Declaration → Bool
is_held_sound d =
    (d.declared.value == declared_app && not (has_second_export d))
    && ((may_export d d.export
          && (all (may_import d) d.imports.items && all (may_widen d) d.pure_stdlib.items))
        && (is_empty d.nested.items && is_empty d.symlinked.items))

is_empty-findings : (d : Declaration) → is_empty (findings d) ≡ is_held_sound d
unfolding findings
is_empty-findings d =
    let rest = map nested_finding d.nested.items ++ map symlinked_finding d.symlinked.items in
    let content = if has_second_export d then [] else content_findings d in
    ground (
      arith,
      is_empty-append (kind_findings d) (content ++ rest),
      is_empty-append content rest,
      is_empty-append (map nested_finding d.nested.items) (map symlinked_finding d.symlinked.items),
      is_empty-map nested_finding d.nested.items,
      is_empty-map symlinked_finding d.symlinked.items,
      is_empty-kind_findings d,
      is_empty-content_findings d,
    )

export_lines :
    (d : Declaration) (exports : List Str) (export : Option Text)
    → only_export exports ≡ ok export
    → (leb (length (names exports).items) 1 && may_export d export) ≡ exports_fine d exports
unfolding only_export text
export_lines d [] export h = unfold names in ground arith
export_lines d (e ∷ []) export h = ground (arith, length-names e [])
export_lines d (e ∷ f ∷ more) export h = ground (arith, length-names e (f ∷ more))

declaration_exports :
    (spec : DeclarationSpec) {d : Declaration}
    → declaration spec ≡ ok d
    → (d.exports ≡ names spec.exports) × (only_export spec.exports ≡ ok d.export)
unfolding declaration
declaration_exports spec h =
    let (declared, e, run) = >>=-eq-ok (text spec.declared) _ h in
    let (export, e', whole) = >>=-eq-ok (only_export spec.exports) _ run in
    (ground arith, ground arith)

pub violations_empty :
    (spec : DeclarationSpec) {d : Declaration} {vs : List Violation}
    → declaration spec ≡ ok d
    → violations d ≡ ok vs
    → is_empty vs ≡ is_sound spec.exports d
unfolding violations declared_app
violations_empty spec {d} made h =
    let (exports, export) = declaration_exports spec made in
    is_empty-traverse (findings d) h
    ∙ is_empty-findings d
    ∙ ground (arith, exports, export_lines d spec.exports d.export export)
