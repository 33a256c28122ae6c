-- ===== src/Prelude/Regex.antt =====
-- The regular expressions that the program uses, matched as Python's `re` does: leftmost, greedy, with
-- backtracking. `\d` stands for the ASCII digits.
use tesser_build.Prelude.Tests.{if◌then◌else◌, leb, ltb, eqb}
use tesser_build.Prelude.Texts.{Str, is_space}
use tesser_build.Prelude.Lists.{length, take}
use Prim.Native.Nat.{ℕ, zero, suc, ◌-◌}
use mathlib.Core.Bool.{Bool, true, false, ◌&&◌, ◌||◌}
use mathlib.Core.Option.{Option, none, some}
use mathlib.Core.List.{List, [], ◌∷◌, ◌++◌}

pub data Re : Type 0 where
  -- nothing; one character of a class
  nil : Re
  one : (ℕ → Bool) → Re
  seq : Re → Re → Re
  -- `r*` and `r*?`
  star : Re → Re
  lazy_star : Re → Re
  -- `^` and `$` under `re.MULTILINE`
  line_start : Re
  line_end : Re
  -- `( … )`
  group : Re → Re

-- Where a match stands: the character before, the text that is left, and the groups so far.
pub record Cursor : Type 0 where
  pub before : Option ℕ
  pub rest : Str
  pub groups : List Str

abbrev Next : Type 0
Next = Cursor → Option Cursor

-- One character.
eat : (ℕ → Bool) → Cursor → Next → Option Cursor
eat p c k = elim c.rest [
  | [] ↦ none
  | x ∷ xs ↦ if p x then k (record c { before = some x; rest = xs }) else none
]

-- A round that took nothing is not repeated.
again : ℕ → (Cursor → Next → Option Cursor) → Bool → Cursor → Next → Option Cursor
again zero step lazy c k = k c
again (suc fuel) step lazy c k =
    let more = step c (λ c'. elim (ltb (length c'.rest) (length c.rest)) [
      | true ↦ again fuel step lazy c' k
      | false ↦ none
    ]) in
    elim lazy [
      | true ↦ elim (k c) [ some c' ↦ some c' | none ↦ more ]
      | false ↦ elim more [ some c' ↦ some c' | none ↦ k c ]
    ]

at_line_start : Option ℕ → Bool
at_line_start none = true
at_line_start (some x) = eqb x 10

at_line_end : Str → Bool
at_line_end [] = true
at_line_end (x ∷ xs) = eqb x 10

run : Re → Cursor → Next → Option Cursor
run nil c k = k c
run (one p) c k = eat p c k
run (seq r s) c k = run r c (λ c'. run s c' k)
run (star r) c k = again (length c.rest) (run r) false c k
run (lazy_star r) c k = again (length c.rest) (run r) true c k
run line_start c k = if at_line_start c.before then k c else none
run line_end c k = if at_line_end c.rest then k c else none
run (group r) c k = run r c (λ c'.
    k (record c' { groups = c'.groups ++ take (length c.rest - length c'.rest) c.rest ∷ [] }))

unfoldable pub match_at : Re → Option ℕ → Str → Option Cursor
unfolding eat again at_line_start at_line_end run
match_at r before text = run r (record { before = before; rest = text; groups = [] }) some

ends : Next
ends c = elim c.rest [ [] ↦ some c | x ∷ xs ↦ none ]

-- `r.fullmatch(text) is not None`
unfoldable pub fullmatch : Re → Str → Bool
unfolding eat again at_line_start at_line_end run ends
fullmatch r text = elim (run r (record { before = none; rest = text; groups = [] }) ends) [
  | none ↦ false
  | some c ↦ true
]

-- `re.search(r, text)`, the groups of the leftmost match.
unfoldable pub search_from : Re → Option ℕ → Str → Option (List Str)
unfolding match_at
search_from r before [] = elim (match_at r before []) [ none ↦ none | some c ↦ some c.groups ]
search_from r before (x ∷ xs) = elim (match_at r before (x ∷ xs)) [
  | none ↦ search_from r (some x) xs
  | some c ↦ some c.groups
]

-- `r.finditer(text)`, the groups of each match; the fuel is one more than the length of the text.
unfoldable pub find_from : ℕ → Re → Option ℕ → Str → List (List Str)
unfolding match_at
find_from zero r before text = []
find_from (suc fuel) r before [] = elim (match_at r before []) [
  | none ↦ []
  | some c ↦ c.groups ∷ []
]
find_from (suc fuel) r before (x ∷ xs) = elim (match_at r before (x ∷ xs)) [
  | none ↦ find_from fuel r (some x) xs
  | some c ↦ elim (ltb (length c.rest) (length (x ∷ xs))) [
    | true ↦ c.groups ∷ find_from fuel r c.before c.rest
    | false ↦ c.groups ∷ find_from fuel r (some x) xs
  ]
]

unfoldable pub find_all : Re → Str → List (List Str)
unfolding find_from
find_all r text = find_from (length text) r none text

-- Patterns.
infixr 45 ◌⨟◌
abbrev pub ◌⨟◌ : Re → Re → Re
r ⨟ s = seq r s

-- `r+`
abbrev pub plus : Re → Re
plus r = seq r (star r)

-- A text, character by character.
unfoldable pub literal : Str → Re
literal [] = nil
literal (c ∷ s) = seq (one (eqb c)) (literal s)

abbrev pub lower_digit : ℕ → Bool
lower_digit c = (leb b'a' c && leb c b'z') || (leb b'0' c && leb c b'9')

abbrev pub digit : ℕ → Bool
digit c = leb b'0' c && leb c b'9'

abbrev pub space : ℕ → Bool
space = is_space

-- `.`
abbrev pub not_newline : ℕ → Bool
not_newline c = if eqb c 10 then false else true

-- `.` under `re.DOTALL`
abbrev pub anything : ℕ → Bool
anything c = true
