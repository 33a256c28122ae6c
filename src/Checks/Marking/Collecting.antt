-- ===== src/Checks/Marking/Collecting.antt =====
-- What is held after all renames were taken in.
use tesser_build.Prelude.{
  Str, ◌||◌, ◌≡◌, refl, sym, ◌∙◌, ap, List, [], ◌∷◌, ◌++◌, map, append_assoc, append-nil, ◌==◌,
  contains, eq→≡, list_eq, nat_eq, arith, Bool-cases, inl, inr,
}
use tesser_build.Prelude.Dict.{Dict, lookup, keys, lookup-insert, contains-keys-insert}
use tesser_build.Prelude.Lists.{keep}
use tesser_build.Checks.Marking.{LineRename, or_empty, collect, collect_all}

-- The renames on a path, in their order.
abbrev pub renames_on : Str → List (Str × LineRename) → List LineRename
renames_on path rs =
    map (λ (r : Str × LineRename). r.1) (keep (λ (r : Str × LineRename). path == r.0) rs)

collect-lookup :
    (r : Str × LineRename) (held : Dict Str (List LineRename)) (path : Str)
    → or_empty (lookup path (collect r held))
      ≡ or_empty (lookup path held) ++ renames_on path (r ∷ [])
unfolding collect
collect-lookup r held path = elim (Bool-cases (path == r.0)) [
  | inl same ↦
      let e = eq→≡ path r.0 same in
      rw (lookup-insert path r.0 (or_empty (lookup r.0 held) ++ r.1 ∷ []) held, same) (rw e refl)
  | inr other ↦
      rw (lookup-insert path r.0 (or_empty (lookup r.0 held) ++ r.1 ∷ []) held, other)
        (sym (append-nil (or_empty (lookup path held))))
]

renames_on-cons :
    (r : Str × LineRename) (rs : List (Str × LineRename)) (path : Str)
    → renames_on path (r ∷ []) ++ renames_on path rs ≡ renames_on path (r ∷ rs)
renames_on-cons r rs path = ground arith

collect_all-lookup :
    (rs : List (Str × LineRename)) (held : Dict Str (List LineRename)) (path : Str)
    → or_empty (lookup path (collect_all rs held))
      ≡ or_empty (lookup path held) ++ renames_on path rs
unfolding collect_all
collect_all-lookup [] held path = sym (append-nil (or_empty (lookup path held)))
collect_all-lookup (r ∷ rs) held path =
    collect_all-lookup rs (collect r held) path
    ∙ ap (λ l. l ++ renames_on path rs) (collect-lookup r held path)
    ∙ append_assoc (or_empty (lookup path held)) (renames_on path (r ∷ [])) (renames_on path rs)
    ∙ ap (λ l. or_empty (lookup path held) ++ l) (renames_on-cons r rs path)

keys-collect :
    (r : Str × LineRename) (held : Dict Str (List LineRename)) (path : Str)
    → contains (keys (collect r held)) path ≡ (path == r.0 || contains (keys held) path)
unfolding collect
keys-collect r held path =
    contains-keys-insert r.0 (or_empty (lookup r.0 held) ++ r.1 ∷ []) held path

keys-collect_all :
    (rs : List (Str × LineRename)) (held : Dict Str (List LineRename)) (path : Str)
    → contains (keys (collect_all rs held)) path
      ≡ (contains (map (λ (r : Str × LineRename). r.0) rs) path || contains (keys held) path)
unfolding collect_all contains
keys-collect_all [] held path = refl
keys-collect_all (r ∷ rs) held path =
    ground (arith, keys-collect_all rs (collect r held) path, keys-collect r held path)

-- The renames that are held for a path are those on it, in their order.
pub collected_renames :
    (rs : List (Str × LineRename)) (path : Str)
    → or_empty (lookup path (collect_all rs [])) ≡ renames_on path rs
unfolding lookup
collected_renames rs path = collect_all-lookup rs [] path

-- The paths that are held are those of the renames.
pub collected_paths :
    (rs : List (Str × LineRename)) (path : Str)
    → contains (keys (collect_all rs [])) path
      ≡ contains (map (λ (r : Str × LineRename). r.0) rs) path
unfolding keys contains
collected_paths rs path = ground (arith, keys-collect_all rs [] path)
