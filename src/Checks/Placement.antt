-- ===== src/Checks/Placement.antt =====
-- `Placement` of tessercheck-py/tessercheck/domain/checks.py: where a module stands in the tree, from its name.
pub mod Places
pub mod Laws
use tesser_build.Prelude.{
  Str, str, split, starts_with, last_part, Bool, true, false, not, ◌&&◌, ◌||◌, List, [], ◌∷◌, ◌==◌,
  list_eq, nat_eq, contains, Option, none, some, if◌then◌else◌,
}
use tesser_build.Prelude.Lists.{is_empty}
use tesser_build.Checks.Declaration.Spec.{kernel_package, roles}
use Places.{
  Place, place_text, ports_stray, app_client_stray, conftest_root, conftest, test, eval, shell_init,
  shell_srv, shell_app, root_tests, protocol_init, protocol, kernel_init, kernel_file, kernel, root,
  context_init, context_tests_init, context_tests_stray, context_kernel_init, context_kernel_file,
  context_kernel, ports_init, ports_file, ports, app_client_init, app_client_file, app_client,
  orchestrators_init, orchestrators_file, orchestrators, relays_init, relays_file, relays,
  snapshots_init, snapshots_file, snapshots, role_init, role_file, role, context_stray,
}

pub record PlacementSpec : Type 0 where
  pub name : Str
  pub is_package : Bool
  pub contexts : List Str
  pub export : Option Str

pub record Placement : Type 0 where
  pub value : Str

unfoldable pub app_packages : List Str
app_packages = str "srv" ∷ str "app" ∷ []

unfoldable pub tests_role : Str
tests_role = str "tests"

unfoldable pub ports_parent_role : Str
ports_parent_role = str "application"

-- `basename == "conftest" or basename.startswith("test_") or basename.startswith(EVAL_PREFIX)`
unfoldable pub is_reserved_name : Str → Bool
unfolding starts_with
is_reserved_name basename =
    basename == str "conftest"
    || (starts_with basename (str "test_") || starts_with basename (str "eval_"))

-- A test file among the ports or the application clients of a context, at least four names deep.
stray : PlacementSpec → Str → List Str → Option Place
unfolding is_reserved_name contains ports_parent_role
stray spec basename (first ∷ second ∷ third ∷ fourth ∷ more) =
    if contains spec.contexts first && (second == ports_parent_role && is_reserved_name basename)
    then (if third == str "ports"
        then some ports_stray
        else if third == str "client"
        then some app_client_stray
        else none)
    else none
stray spec basename _ = none

-- The place of a package, of the module that stands for it, and of a module in it.
abbrev home : Bool → Bool → Place → Place → Place → Place
home is_package is_file init file deep = if is_package then init else if is_file then file else deep

-- Inside a role of a context, at the names after the role's.
in_role : PlacementSpec → Str → List Str → Place
unfolding ports_parent_role kernel_package
in_role spec second [] = if spec.is_package then role_init else role_file
in_role spec second (third ∷ more) =
    let place = home spec.is_package (is_empty more) in
    if second == str "domain" && third == kernel_package
    then place context_kernel_init context_kernel_file context_kernel
    else if second == ports_parent_role
    then (if third == str "ports"
        then place ports_init ports_file ports
        else if third == str "client"
        then place app_client_init app_client_file app_client
        else if third == str "orchestrators"
        then place orchestrators_init orchestrators_file orchestrators
        else if third == str "relays"
        then place relays_init relays_file relays
        else if third == str "snapshots"
        then place snapshots_init snapshots_file snapshots
        else if spec.is_package
        then role_init
        else role)
    else if spec.is_package
    then role_init
    else role

-- Inside a context, at the names after the context's.
in_context : PlacementSpec → List Str → Place
unfolding in_role tests_role roles contains
in_context spec [] = context_init
in_context spec (second ∷ more) =
    if second == tests_role
    then (if spec.is_package then context_tests_init else context_tests_stray)
    else if contains roles second
    then in_role spec second more
    else context_stray

abbrev is_export : Option Str → Str → Bool
is_export none first = false
is_export (some e) first = first == e

-- A module that is no test, by its first name.
by_first : PlacementSpec → List Str → Place
unfolding in_context app_packages tests_role kernel_package contains
by_first spec [] = root
by_first spec (first ∷ more) =
    if contains app_packages first
    then (if spec.is_package
        then shell_init
        else if first == str "srv"
        then shell_srv
        else shell_app)
    else if first == tests_role
    then root_tests
    else if first == str "protocol"
    then (if spec.is_package then protocol_init else protocol)
    else if first == kernel_package || is_export spec.export first
    then home spec.is_package (is_empty more) kernel_init kernel_file kernel
    else if not (contains spec.contexts first)
    then root
    else in_context spec more

abbrev is_single : List Str → Bool
is_single (w ∷ []) = true
is_single _ = false

by_basename : PlacementSpec → Str → List Str → Place
unfolding by_first starts_with
by_basename spec basename parts =
    if basename == str "conftest"
    then (if is_single parts then conftest_root else conftest)
    else if starts_with basename (str "test_")
    then test
    else if starts_with basename (str "eval_")
    then eval
    else by_first spec parts

abbrev or_else : Option Place → Place → Place
or_else none place = place
or_else (some stray_place) place = stray_place

unfoldable pub locate : PlacementSpec → Place
unfolding split last_part stray by_basename
locate spec =
    let parts = split b'.' spec.name in
    let basename = last_part parts in
    or_else (stray spec basename parts) (by_basename spec basename parts)

unfoldable pub placement : PlacementSpec → Placement
unfolding locate place_text
placement spec = record { value = place_text (locate spec) }
