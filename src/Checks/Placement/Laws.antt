-- ===== src/Checks/Placement/Laws.antt =====
-- Where each place is.
use tesser_build.Prelude.{
  Str, str, eq→≡, starts_with, split, last_part, Bool, true, false, not, ◌||◌, ◌&&◌, ◌≡◌, ◌∙◌, refl,
  List, [], ◌∷◌, ◌==◌, list_eq, nat_eq, contains, Option, none, some, arith, if◌then◌else◌,
}
use tesser_build.Checks.Declaration.Spec.{kernel_package, roles}
use tesser_build.Checks.Placement.{
  PlacementSpec, placement, locate, stray, in_role, in_context, by_first, by_basename, or_else,
  is_export, app_packages, tests_role, is_reserved_name,
}
use tesser_build.Checks.Placement.Places.{
  Place, export_package_places, exports_package, inside_context, contains-export_package_places,
}

abbrev implies : Bool → Bool → Bool
implies a b = not a || b

abbrev is_stray : Option Place → Bool
is_stray none = false
is_stray (some p) = true

abbrev stray_exports : Option Place → Bool
stray_exports none = false
stray_exports (some p) = exports_package p

-- A name that test files have: their places are told by it alone.
abbrev pub is_test_name : Str → Bool
is_test_name basename =
    basename == str "conftest"
    || (starts_with basename (str "test_") || starts_with basename (str "eval_"))

-- The second name of a module of a context that is in a role.
abbrev pub in_a_role : List Str → Bool
in_a_role [] = false
in_a_role (second ∷ more) =
    contains
      (str "domain" ∷ str "application" ∷ str "client" ∷ str "adapters" ∷ str "component" ∷ [])
      second

-- The names of a module that is in the shell or the protocol of an app, or in a role of a context. A context is not
-- called as the tests or a kernel are.
abbrev pub in_exporting_part : PlacementSpec → List Str → Bool
in_exporting_part spec [] = false
in_exporting_part spec (first ∷ more) =
    contains (str "srv" ∷ str "app" ∷ str "protocol" ∷ []) first
    || (not (first == str "tests" || (first == str "kernel" || is_export spec.export first))
        && (contains spec.contexts first && in_a_role more))

exports_package-in_role :
    (spec : PlacementSpec) (second : Str) (more : List Str)
    → exports_package (in_role spec second more) ≡ spec.is_package
unfolding in_role
exports_package-in_role spec second [] = ground arith
exports_package-in_role spec second (third ∷ more) = ground arith

tests_not_role : contains roles tests_role ≡ false
unfolding roles tests_role contains str list_eq nat_eq
tests_not_role = refl

exports_package-in_context :
    (spec : PlacementSpec) (more : List Str)
    → exports_package (in_context spec more) ≡ (spec.is_package && in_a_role more)
unfolding in_context roles
exports_package-in_context spec [] = ground arith
exports_package-in_context spec (second ∷ more) =
    ground (arith, exports_package-in_role spec second more, eq→≡ second tests_role, tests_not_role)

exports_package-if :
    (c : Bool) {p q : Bool} (x y : Place)
    → exports_package x ≡ p
    → exports_package y ≡ q
    → exports_package (if c then x else y) ≡ (if c then p else q)
exports_package-if c x y h k = ground arith

tests_not_protocol : (str "tests" == str "protocol") ≡ false
unfolding str list_eq nat_eq
tests_not_protocol = refl

-- The tests of the first name, in the order of the source, come to one condition.
by_first_tests :
    (is_package shell tests protocol kernel known roled : Bool)
    → (tests ≡ true → protocol ≡ false)
    → (if shell
        then is_package
        else if tests
        then false
        else if protocol
        then is_package
        else if kernel
        then false
        else if not known
        then false
        else is_package && roled)
      ≡ (is_package && ((shell || protocol) || (not (tests || kernel) && (known && roled))))
by_first_tests is_package shell tests protocol kernel known roled h = ground arith

exports_package-by_first :
    (spec : PlacementSpec) (parts : List Str)
    → exports_package (by_first spec parts) ≡ (spec.is_package && in_exporting_part spec parts)
unfolding by_first app_packages tests_role kernel_package
exports_package-by_first spec [] = ground arith
exports_package-by_first spec (first ∷ more) =
    exports_package-if (contains app_packages first) _ _ (ground arith) (
      exports_package-if (first == tests_role) _ _ refl (
        exports_package-if (first == str "protocol") _ _ (ground arith) (
          exports_package-if (first == kernel_package || is_export spec.export first) _ _
            (ground arith)
            (exports_package-if (not (contains spec.contexts first)) _ _ refl
              (exports_package-in_context spec more)))))
    ∙ by_first_tests spec.is_package (contains app_packages first) (first == tests_role)
        (first == str "protocol") (first == kernel_package || is_export spec.export first)
        (contains spec.contexts first) (in_a_role more)
        (λ h. ground (arith, eq→≡ first tests_role h, tests_not_protocol))
    ∙ ground arith

exports_package-by_basename :
    (spec : PlacementSpec) (basename : Str) (parts : List Str)
    → exports_package (by_basename spec basename parts)
      ≡ (spec.is_package && (not (is_test_name basename) && in_exporting_part spec parts))
unfolding by_basename
exports_package-by_basename spec basename parts =
    ground (arith, exports_package-by_first spec parts)

-- A place among the ports or the clients is only given to a file with the name of a test.
stray-is_test_name :
    (spec : PlacementSpec) (basename : Str) (parts : List Str)
    → (is_stray (stray spec basename parts) ≡ true → is_test_name basename ≡ true)
      × (stray_exports (stray spec basename parts) ≡ false)
unfolding stray is_reserved_name
stray-is_test_name spec basename [] = ground arith
stray-is_test_name spec basename (_ ∷ []) = ground arith
stray-is_test_name spec basename (_ ∷ _ ∷ []) = ground arith
stray-is_test_name spec basename (_ ∷ _ ∷ _ ∷ []) = ground arith
stray-is_test_name spec basename (_ ∷ _ ∷ _ ∷ _ ∷ _) = ground arith

-- The place of a module is one from which names are exported on exactly when the module is a package, its last name is not
-- that of a test file, and it is in the shell or the protocol of an app, or in a role of a context.
pub contains-placement :
    (spec : PlacementSpec)
    → contains export_package_places (placement spec).value ≡ (
        spec.is_package
        && (not (is_test_name (last_part (split b'.' spec.name)))
            && in_exporting_part spec (split b'.' spec.name)))
unfolding placement locate
contains-placement spec =
    let parts = split b'.' spec.name in
    let basename = last_part parts in
    ground (
      arith,
      contains-export_package_places
          (or_else (stray spec basename parts) (by_basename spec basename parts)),
      stray-is_test_name spec basename parts,
      exports_package-by_basename spec basename parts,
    )

abbrev under_context : PlacementSpec → List Str → Bool
under_context spec [] = false
under_context spec (first ∷ more) = contains spec.contexts first

by_first-context :
    (spec : PlacementSpec) (parts : List Str)
    → implies (inside_context (by_first spec parts)) (under_context spec parts) ≡ true
unfolding by_first
by_first-context spec [] = refl
by_first-context spec (first ∷ more) = ground arith

by_basename-context :
    (spec : PlacementSpec) (basename : Str) (parts : List Str)
    → implies (inside_context (by_basename spec basename parts)) (under_context spec parts) ≡ true
unfolding by_basename
by_basename-context spec basename parts = ground (arith, by_first-context spec parts)

stray-context :
    (spec : PlacementSpec) (basename : Str) (parts : List Str)
    → implies (is_stray (stray spec basename parts)) (under_context spec parts) ≡ true
unfolding stray
stray-context spec basename [] = refl
stray-context spec basename (_ ∷ []) = refl
stray-context spec basename (_ ∷ _ ∷ []) = refl
stray-context spec basename (_ ∷ _ ∷ _ ∷ []) = refl
stray-context spec basename (_ ∷ _ ∷ _ ∷ _ ∷ _) = ground arith

-- A module has a place inside a context only if its first name is that of a context.
locate-context :
    (spec : PlacementSpec)
    → inside_context (locate spec) ≡ true
    → under_context spec (split b'.' spec.name) ≡ true
unfolding locate
locate-context spec h =
    let parts = split b'.' spec.name in
    let basename = last_part parts in
    ground (arith, stray-context spec basename parts, by_basename-context spec basename parts)
