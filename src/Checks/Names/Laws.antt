-- ===== src/Checks/Names/Laws.antt =====
-- `Names` is a set of names in canonical form.
use tesser_build.Prelude.{
  Str, not, ◌&&◌, ◌||◌, ◌≡◌, ◌∙◌, ap, sym, ◌↔◌, List, contains, list_eq, nat_eq, list_ord, nat_ord,
}
use tesser_build.Prelude.Sets.{to_set, contains-keep, contains-append}
use tesser_build.Prelude.Sorting.{
  sorted, IsIncreasing-unique, sorted_set-IsIncreasing, contains-sorted_set,
}
use tesser_build.Checks.Names.{Names, names, meet, minus, join_names, holds}

holds-names : (items : List Str) (a : Str) → holds (names items) a ≡ contains items a
unfolding names holds
holds-names items a = contains-sorted_set items a

-- Two collections give equal `Names` exactly when they hold the same names.
pub names-canonical :
    (xs ys : List Str) → (names xs ≡ names ys) ↔ ((a : Str) → contains xs a ≡ contains ys a)
unfolding names
names-canonical xs ys = (
  λ e a.
      sym (contains-sorted_set xs a)
      ∙ (ap (λ (n : Names). contains n.items a) e ∙ contains-sorted_set ys a),
  λ same.
      ap (λ (l : List Str). record { items = l })
        (IsIncreasing-unique (sorted (to_set xs)) (sorted (to_set ys)) (sorted_set-IsIncreasing xs)
          (sorted_set-IsIncreasing ys)
          (λ a. cc (contains-sorted_set xs a, contains-sorted_set ys a, same a))),
)

-- Membership in `a & b`, `a - b` and `a | b` is that of the set operations.
pub holds-operations :
    (a b : Names) (item : Str)
    → (holds (meet a b) item ≡ (holds a item && holds b item))
      × (holds (minus a b) item ≡ (holds a item && not (holds b item)))
      × (holds (join_names a b) item ≡ (holds a item || holds b item))
unfolding meet minus join_names holds names
holds-operations a b item = (
  contains-sorted_set _ item ∙ contains-keep _ a.items item,
  contains-sorted_set _ item ∙ contains-keep _ a.items item,
  contains-sorted_set _ item ∙ contains-append a.items b.items item,
)
