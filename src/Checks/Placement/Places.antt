-- ===== src/Checks/Placement/Places.antt =====
-- The places that a module can have, and the ones that only packages have.
use tesser_build.Prelude.{
  Str, str, Bool, true, false, List, [], ◌∷◌, ◌≡◌, refl, contains, list_eq, nat_eq,
}

pub data Place : Type 0 where
  ports_stray : Place
  app_client_stray : Place
  conftest_root : Place
  conftest : Place
  test : Place
  eval : Place
  shell_init : Place
  shell_srv : Place
  shell_app : Place
  root_tests : Place
  protocol_init : Place
  protocol : Place
  kernel_init : Place
  kernel_file : Place
  kernel : Place
  root : Place
  context_init : Place
  context_tests_init : Place
  context_tests_stray : Place
  context_kernel_init : Place
  context_kernel_file : Place
  context_kernel : Place
  ports_init : Place
  ports_file : Place
  ports : Place
  app_client_init : Place
  app_client_file : Place
  app_client : Place
  orchestrators_init : Place
  orchestrators_file : Place
  orchestrators : Place
  relays_init : Place
  relays_file : Place
  relays : Place
  snapshots_init : Place
  snapshots_file : Place
  snapshots : Place
  role_init : Place
  role_file : Place
  role : Place
  context_stray : Place

unfoldable pub place_text : Place → Str
place_text ports_stray = str "ports-stray"
place_text app_client_stray = str "app-client-stray"
place_text conftest_root = str "conftest-root"
place_text conftest = str "conftest"
place_text test = str "test"
place_text eval = str "eval"
place_text shell_init = str "shell-init"
place_text shell_srv = str "shell-srv"
place_text shell_app = str "shell-app"
place_text root_tests = str "root-tests"
place_text protocol_init = str "protocol-init"
place_text protocol = str "protocol"
place_text kernel_init = str "kernel-init"
place_text kernel_file = str "kernel-file"
place_text kernel = str "kernel"
place_text root = str "root"
place_text context_init = str "context-init"
place_text context_tests_init = str "context-tests-init"
place_text context_tests_stray = str "context-tests-stray"
place_text context_kernel_init = str "context-kernel-init"
place_text context_kernel_file = str "context-kernel-file"
place_text context_kernel = str "context-kernel"
place_text ports_init = str "ports-init"
place_text ports_file = str "ports-file"
place_text ports = str "ports"
place_text app_client_init = str "app-client-init"
place_text app_client_file = str "app-client-file"
place_text app_client = str "app-client"
place_text orchestrators_init = str "orchestrators-init"
place_text orchestrators_file = str "orchestrators-file"
place_text orchestrators = str "orchestrators"
place_text relays_init = str "relays-init"
place_text relays_file = str "relays-file"
place_text relays = str "relays"
place_text snapshots_init = str "snapshots-init"
place_text snapshots_file = str "snapshots-file"
place_text snapshots = str "snapshots"
place_text role_init = str "role-init"
place_text role_file = str "role-file"
place_text role = str "role"
place_text context_stray = str "context-stray"

-- EXPORT_PACKAGE_PLACES
unfoldable pub export_package_places : List Str
export_package_places =
    str "role-init"
    ∷ str "ports-init"
    ∷ str "app-client-init"
    ∷ str "orchestrators-init"
    ∷ str "relays-init"
    ∷ str "snapshots-init"
    ∷ str "shell-init"
    ∷ str "protocol-init"
    ∷ str "context-kernel-init"
    ∷ []

abbrev pub exports_package : Place → Bool
exports_package role_init = true
exports_package ports_init = true
exports_package app_client_init = true
exports_package orchestrators_init = true
exports_package relays_init = true
exports_package snapshots_init = true
exports_package shell_init = true
exports_package protocol_init = true
exports_package context_kernel_init = true
exports_package _ = false

-- The places inside a context.
abbrev pub inside_context : Place → Bool
inside_context conftest_root = false
inside_context conftest = false
inside_context test = false
inside_context eval = false
inside_context shell_init = false
inside_context shell_srv = false
inside_context shell_app = false
inside_context root_tests = false
inside_context protocol_init = false
inside_context protocol = false
inside_context kernel_init = false
inside_context kernel_file = false
inside_context kernel = false
inside_context root = false
inside_context _ = true

-- The texts of the places are told apart.
pub contains-export_package_places :
    (p : Place) → contains export_package_places (place_text p) ≡ exports_package p
unfolding place_text export_package_places contains str list_eq nat_eq
contains-export_package_places ports_stray = refl
contains-export_package_places app_client_stray = refl
contains-export_package_places conftest_root = refl
contains-export_package_places conftest = refl
contains-export_package_places test = refl
contains-export_package_places eval = refl
contains-export_package_places shell_init = refl
contains-export_package_places shell_srv = refl
contains-export_package_places shell_app = refl
contains-export_package_places root_tests = refl
contains-export_package_places protocol_init = refl
contains-export_package_places protocol = refl
contains-export_package_places kernel_init = refl
contains-export_package_places kernel_file = refl
contains-export_package_places kernel = refl
contains-export_package_places root = refl
contains-export_package_places context_init = refl
contains-export_package_places context_tests_init = refl
contains-export_package_places context_tests_stray = refl
contains-export_package_places context_kernel_init = refl
contains-export_package_places context_kernel_file = refl
contains-export_package_places context_kernel = refl
contains-export_package_places ports_init = refl
contains-export_package_places ports_file = refl
contains-export_package_places ports = refl
contains-export_package_places app_client_init = refl
contains-export_package_places app_client_file = refl
contains-export_package_places app_client = refl
contains-export_package_places orchestrators_init = refl
contains-export_package_places orchestrators_file = refl
contains-export_package_places orchestrators = refl
contains-export_package_places relays_init = refl
contains-export_package_places relays_file = refl
contains-export_package_places relays = refl
contains-export_package_places snapshots_init = refl
contains-export_package_places snapshots_file = refl
contains-export_package_places snapshots = refl
contains-export_package_places role_init = refl
contains-export_package_places role_file = refl
contains-export_package_places role = refl
contains-export_package_places context_stray = refl
