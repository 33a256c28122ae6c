-- ===== src/Checks/Marking/Grouping.antt =====
-- What is held after all marks were taken in.
use tesser_build.Prelude.{
  ℕ, Str, false, ◌&&◌, ◌||◌, ◌≡◌, refl, List, [], ◌∷◌, map, ◌==◌, contains, Eq, eq_refl, eq→≡,
  list_eq, nat_eq, pair_eq, arith, Bool-ext,
}
use tesser_build.Prelude.Dict.{Dict, lookup, insert, keys, lookup-insert, contains-keys-insert}
use tesser_build.Prelude.Sets.{contains-append, contains-cons}
use tesser_build.Checks.Marking.{Rows, MarkRow, or_empty, add, hold, hold_all}

pub pair_test {ℓ κ} :
    {A : Type ℓ} {B : Type κ} ⦃e : Eq A⦄ ⦃f : Eq B⦄ (p q : A × B)
    → (p == q) ≡ (p.0 == q.0 && p.1 == q.1)
pair_test p q =
    Bool-ext (p == q) _ (λ h. ground (arith, eq→≡ p q h, eq_refl q.0, eq_refl q.1))
      (λ h. ground (arith, eq→≡ p.0 q.0, eq→≡ p.1 q.1, eq_refl p))

pub contains-nil : (a : Str) → contains [] a ≡ false
unfolding contains
contains-nil a = refl

contains-add :
    (c : Str) (codes : List Str) (a : Str) → contains (add c codes) a ≡ (a == c || contains codes a)
unfolding add
contains-add c codes a =
    ground (arith, contains-append codes (c ∷ []) a, contains-cons c [] a, contains-nil a, eq→≡ a c)

abbrev pub codes_at : Dict Str Rows → Str → ℕ → List Str
codes_at held path line = or_empty (lookup line (or_empty (lookup path held)))

codes_at-hold :
    (m : MarkRow) (held : Dict Str Rows) (path : Str) (line : ℕ) (code : Str)
    → contains (codes_at (hold m held) path line) code ≡ (
        (path == m.0 && (line == m.1.0 && code == m.1.1))
        || contains (codes_at held path line) code)
unfolding hold
codes_at-hold m held path line code =
    let rows = or_empty (lookup m.0 held) in
    ground (
      arith,
      lookup-insert path m.0 (insert m.1.0 (add m.1.1 (or_empty (lookup m.1.0 rows))) rows) held,
      lookup-insert line m.1.0 (add m.1.1 (or_empty (lookup m.1.0 rows))) rows,
      contains-add m.1.1 (or_empty (lookup m.1.0 rows)) code,
      eq→≡ path m.0,
      eq→≡ line m.1.0,
    )

codes_at-hold_all :
    (ms : List MarkRow) (held : Dict Str Rows) (path : Str) (line : ℕ) (code : Str)
    → contains (codes_at (hold_all ms held) path line) code
      ≡ (contains ms (path, (line, code)) || contains (codes_at held path line) code)
unfolding hold_all contains
codes_at-hold_all [] held path line code = refl
codes_at-hold_all (m ∷ ms) held path line code = ground (
  arith,
  codes_at-hold_all ms (hold m held) path line code,
  codes_at-hold m held path line code,
  pair_test (path, (line, code)) m,
  pair_test (line, code) m.1,
)

-- The codes that are held for a line of a path are those of the marks on it.
pub held_codes :
    (ms : List MarkRow) (path : Str) (line : ℕ) (code : Str)
    → contains (codes_at (hold_all ms []) path line) code ≡ contains ms (path, (line, code))
unfolding lookup contains
held_codes ms path line code = ground (arith, codes_at-hold_all ms [] path line code)

keys-hold :
    (m : MarkRow) (held : Dict Str Rows) (path : Str)
    → contains (keys (hold m held)) path ≡ (path == m.0 || contains (keys held) path)
unfolding hold
keys-hold m held path =
    let rows = or_empty (lookup m.0 held) in
    contains-keys-insert m.0 (insert m.1.0 (add m.1.1 (or_empty (lookup m.1.0 rows))) rows) held
      path

keys-hold_all :
    (ms : List MarkRow) (held : Dict Str Rows) (path : Str)
    → contains (keys (hold_all ms held)) path
      ≡ (contains (map (λ (m : MarkRow). m.0) ms) path || contains (keys held) path)
unfolding hold_all contains
keys-hold_all [] held path = refl
keys-hold_all (m ∷ ms) held path =
    ground (arith, keys-hold_all ms (hold m held) path, keys-hold m held path)

-- The paths that are held are those of the marks.
pub held_paths :
    (ms : List MarkRow) (path : Str)
    → contains (keys (hold_all ms [])) path ≡ contains (map (λ (m : MarkRow). m.0) ms) path
unfolding keys contains
held_paths ms path = ground (arith, keys-hold_all ms [] path)
