-- ===== src/Checks/Declaration/Tops.antt =====
-- The names at the top of a tree, and those that are taken.
use tesser_build.Prelude.{
  Str, str, false, ◌||◌, split, Bool, not, ◌&&◌, ◌≡◌, refl, ◌∙◌, List, [], ◌∷◌, map, ◌==◌, contains,
  list_eq, nat_eq, list_ord, nat_ord, arith,
}
use tesser_build.Prelude.Lists.{keep, all, any, is_empty}
use tesser_build.Checks.Names.{names}
use tesser_build.Checks.Declaration.Spec.{
  Declaration, tesser, kernel_package, roles, shell_packages, distribution,
}
use tesser_build.Prelude.Sets.{difference, all-to_set, contains-to_set}
use tesser_build.Prelude.Sorting.{is_empty-sorted}
use tesser_build.Checks.Declaration.{head_of, tops, outsiders, is_reserved, is_role_of}

-- A name of the kernel package or of the app shell.
abbrev pub is_taken : Str → Bool
is_taken name =
    name == str "kernel"
    || (name == str "srv" || (name == str "app" || (name == str "protocol" || name == str "tests")))

-- A top-level name of the distribution itself.
abbrev pub is_of_tesser : Str → Bool
is_of_tesser name = name == str "tesser" || (name == str "tests" || name == str "conftest")

pub is_reserved-is_taken : (name : Str) → is_reserved name ≡ is_taken name
unfolding kernel_package shell_packages contains
is_reserved-is_taken name = ground arith

contains-distribution : (name : Str) → contains distribution name ≡ is_of_tesser name
unfolding distribution tesser contains
contains-distribution name = ground arith

is_empty-keep_outside :
    (q : Str → Bool) (xs : List Str)
    → ((x : Str) → contains distribution x ≡ q x)
    → is_empty (keep (λ x. not (contains distribution x)) xs) ≡ all q xs
is_empty-keep_outside q [] h = refl
is_empty-keep_outside q (x ∷ xs) h = ground (arith, h x, is_empty-keep_outside q xs h)

all-heads :
    (names : List Str)
    → all is_of_tesser (map head_of names) ≡ all (λ name. is_of_tesser (head_of name)) names
all-heads [] = refl
all-heads (n ∷ names) = ground (arith, all-heads names)

pub is_empty-outsiders :
    (d : Declaration)
    → is_empty (outsiders d) ≡ all (λ name. is_of_tesser (head_of name)) d.module_names.items
unfolding difference
is_empty-outsiders d =
    is_empty-sorted (difference (tops d) distribution)
    ∙ is_empty-keep_outside is_of_tesser (tops d) contains-distribution
    ∙ all-to_set is_of_tesser (map head_of d.module_names.items)
    ∙ all-heads d.module_names.items

any-heads :
    (names : List Str) (head : Str)
    → contains (map head_of names) head ≡ any (λ name. head == head_of name) names
unfolding contains
any-heads [] head = refl
any-heads (n ∷ names) head = ground (arith, any-heads names head)

pub contains-tops :
    (d : Declaration) (head : Str)
    → contains (tops d) head ≡ any (λ name. head == head_of name) d.module_names.items
contains-tops d head =
    contains-to_set (map head_of d.module_names.items) head ∙ any-heads d.module_names.items head

-- The names of a module in a role of a package that is shaped as a context.
abbrev pub is_in_role : Str → List Str → Bool
is_in_role export (p ∷ q ∷ ps) =
    p == export
    && (q == str "domain"
        || (q == str "application"
            || (q == str "client" || (q == str "adapters" || q == str "component"))))
is_in_role export _ = false

is_role_of-is_in_role :
    (export : Str) (parts : List Str) → is_role_of export parts ≡ is_in_role export parts
unfolding is_role_of roles contains
is_role_of-is_in_role export [] = refl
is_role_of-is_in_role export (p ∷ []) = refl
is_role_of-is_in_role export (p ∷ q ∷ ps) = ground arith

pub any-is_role_of :
    (export : Str) (names : List Str)
    → any (λ name. is_role_of export (split b'.' name)) names
      ≡ any (λ name. is_in_role export (split b'.' name)) names
any-is_role_of export [] = refl
any-is_role_of export (n ∷ names) =
    ground (arith, is_role_of-is_in_role export (split b'.' n), any-is_role_of export names)
