-- ===== src/Checks/Registry/Bars.antt =====
-- The texts under which the rows of fields and attributes are searched name their parts.
use tesser_build.Prelude.{
  ℕ, Str, Bool, true, not, ◌&&◌, ◌≡◌, refl, List, [], ◌∷◌, ◌++◌, ◌==◌, list_eq, nat_eq, pair_eq,
  contains, eq→≡, eq_refl, arith, join,
}
use tesser_build.Prelude.Lists.{all}
use tesser_build.Checks.Values.{Text}
use tesser_build.Checks.Registry.Rows.{
  barred, Member, parts_of, Shaped, FieldRows, field_ref, first_row, shaped_if,
}

abbrev bar_free : Str → Bool
bar_free s = not (contains s b'|')

-- Up to its first bar a text is determined.
same_parts :
    (u u' v v' : Str)
    → bar_free u ≡ true
    → bar_free u' ≡ true
    → u ++ b'|' ∷ v ≡ u' ++ b'|' ∷ v'
    → (u ≡ u') × (v ≡ v')
unfolding contains
same_parts [] [] v v' h k e = (refl, cc)
same_parts [] (c ∷ u') v v' h k e = absurd (ground (arith, eq_refl {A = ℕ} b'|'))
same_parts (c ∷ u) [] v v' h k e = absurd (ground (arith, eq_refl {A = ℕ} b'|'))
same_parts (c ∷ u) (c' ∷ u') v v' h k e = ground (arith, same_parts u u' v v')

abbrev pub bar_free_member : Member → Bool
bar_free_member (m, (n, a)) = bar_free m && (bar_free n && bar_free a)

same_member :
    (x y : Member)
    → bar_free_member x ≡ true
    → bar_free_member y ≡ true
    → barred (parts_of x) ≡ barred (parts_of y)
    → x ≡ y
unfolding barred join
same_member (m, (n, a)) (m', (n', a')) h k e =
    let (em, rest) =
      same_parts m m' (n ++ b'|' ∷ a) (n' ++ b'|' ∷ a') (ground arith) (ground arith) e in
    let (en, ea) = same_parts n n' a a' (ground arith) (ground arith) rest in cc

member_eq :
    (x y : Member)
    → bar_free_member x ≡ true
    → bar_free_member y ≡ true
    → (barred (parts_of x) == barred (parts_of y)) ≡ (x == y)
member_eq x y h k = ground (
  arith,
  eq→≡ (barred (parts_of x)) (barred (parts_of y)),
  eq_refl (barred (parts_of x)),
  same_member x y h k,
  eq_refl x,
)

abbrev pub row_is_free : Member × Shaped → Bool
row_is_free row = bar_free_member row.0

first_row-barred :
    (m : Member) (rows : List (Member × Shaped))
    → bar_free_member m ≡ true
    → all row_is_free rows ≡ true
    → first_row (λ (row : Member × Shaped). barred (parts_of row.0) == barred (parts_of m)) rows
      ≡ first_row (λ (row : Member × Shaped). row.0 == m) rows
first_row-barred m [] h k = refl
first_row-barred m (row ∷ rows) h k =
    let same : (barred (parts_of row.0) == barred (parts_of m)) ≡ (row.0 == m) =
      member_eq row.0 m (ground arith) h in
    ground (arith, same, first_row-barred m rows h (ground arith))

-- If no name has a bar in it, the text of a module, a class and an attribute finds the first row of just these three.
pub field_ref-barred :
    (rows : FieldRows) (m : Member) (t : Text)
    → bar_free_member m ≡ true
    → all row_is_free rows.items ≡ true
    → t.value ≡ barred (parts_of m)
    → field_ref rows t ≡ shaped_if (first_row (λ (row : Member × Shaped). row.0 == m) rows.items)
unfolding field_ref
field_ref-barred rows m t h k e = rw (e, first_row-barred m rows.items h k) refl
