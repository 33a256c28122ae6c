-- ===== src/Checks/Values.antt =====
-- The value objects over one string or number of tessercheck-py/tessercheck/domain/checks.py. A
-- constructor that raises `ValueError` returns its message.
use tesser_build.Prelude.{
  ℕ, zero, suc, Str, str, ends_with, leb, eqb, Bool, false, not, ◌&&◌, List, [], ◌∷◌, ◌==◌, list_eq,
  nat_eq, contains, ℤ, pos, negsuc, Result, ok, raise, guard, ◌>>=◌, ◌>>◌, Option, none, some,
}
use tesser_build.Prelude.Lists.{is_empty}

pub record TreeRoot : Type 0 where
  pub value : Str

unfoldable pub tree_root : Str → Result TreeRoot
unfolding ends_with
tree_root value = do
  guard (not (is_empty value)) (str "tree root must be non-empty")
  guard (not (ends_with value (b'/' ∷ []) && not (value == b'/' ∷ [])))
      (str "tree root carries no trailing separator")
  ok (record { value = value })

pub record FilePath : Type 0 where
  pub value : Str

unfoldable pub file_path : Str → Result FilePath
file_path value = do
  guard (not (is_empty value)) (str "path must be non-empty")
  ok (record { value = value })

-- A line number that was accepted is positive, and is held as a natural number.
pub record Line : Type 0 where
  pub value : ℕ

unfoldable pub line : ℤ → Result Line
line (negsuc n) = raise (str "line must be positive")
line (pos zero) = raise (str "line must be positive")
line (pos (suc n)) = ok (record { value = suc n })

pub record Code : Type 0 where
  pub value : Str

abbrev is_digit : ℕ → Bool
is_digit c = leb b'0' c && leb c b'9'

-- CODE_SHAPE: `TB`, three digits and the end of the text.
unfoldable pub code_shape : Str → Bool
code_shape (t ∷ b ∷ x ∷ y ∷ z ∷ []) =
    eqb t b'T' && eqb b b'B' && is_digit x && is_digit y && is_digit z
code_shape _ = false

unfoldable pub code : Str → Result Code
code value = do
  guard (code_shape value) (str "code must be a TB0xx family code")
  ok (record { value = value })

pub record Text : Type 0 where
  pub value : Str

unfoldable pub text : Str → Result Text
text value = do
  guard (not (is_empty value)) (str "text must be non-empty")
  ok (record { value = value })

-- `Text(value) if value else None`
unfoldable pub optional_text : Option Str → Result (Option Text)
unfolding text
optional_text none = ok none
optional_text (some []) = ok none
optional_text (some (c ∷ s)) = do t ← text (c ∷ s); ok (some t)

pub record Target : Type 0 where
  pub value : Str

unfoldable pub target : Str → Result Target
target value = do
  guard (not (is_empty value)) (str "target must be non-empty")
  ok (record { value = value })

-- A value object over a closed set of words holds one of them.
pub record Word : Type 0 where
  pub value : Str

abbrev one_of : List Str → Str → Str → Result Word
one_of words message value = do guard (contains words value) message; ok (record { value = value })

unfoldable pub edge_form : Str → Result Word
unfolding contains
edge_form =
    one_of (str "member" ∷ str "aliased" ∷ str "bare" ∷ [])
      (str "edge form must be member, aliased, or bare")

unfoldable pub import_form : Str → Result Word
unfolding contains
import_form =
    one_of (str "from" ∷ str "ts" ∷ str "alias" ∷ str "bare" ∷ [])
      (str "import form must be from, ts, alias, or bare")

unfoldable pub debt_scope : Str → Result Word
unfolding contains
debt_scope = one_of (str "line" ∷ str "file" ∷ []) (str "debt scope must be line or file")

unfoldable pub debt_form : Str → Result Word
unfolding contains
debt_form =
    one_of (str "parsed" ∷ str "malformed" ∷ []) (str "debt form must be parsed or malformed")

unfoldable pub spec_shape : Str → Result Word
unfolding contains
spec_shape = one_of (str "one" ∷ str "many" ∷ []) (str "spec shape must be one or many")

pub record SymbolSpec : Type 0 where
  pub module_name : Str
  pub name : Str

pub record Symbol : Type 0 where
  pub module_name : Text
  pub name : Text

unfoldable pub symbol : SymbolSpec → Result Symbol
unfolding text
symbol spec = do
  module_name ← text spec.module_name
  name ← text spec.name
  ok (record { module_name = module_name; name = name })

pub record SpecRef : Type 0 where
  pub symbol : Symbol
  pub shape : Word

unfoldable pub spec_ref : SymbolSpec → Str → Result SpecRef
unfolding symbol spec_shape
spec_ref spec shape = do
  s ← symbol spec
  w ← spec_shape shape
  ok (record { symbol = s; shape = w })

abbrev pub spec_of : Symbol → SymbolSpec
spec_of s = record { module_name = s.module_name.value; name = s.name.value }

unfoldable pub one : SpecRef → Result SpecRef
unfolding spec_ref
one r = spec_ref (spec_of r.symbol) (str "one")

unfoldable pub many : SpecRef → Result SpecRef
unfolding spec_ref
many r = spec_ref (spec_of r.symbol) (str "many")

pub record Rename : Type 0 where
  pub actual : Text
  pub derived : Text

unfoldable pub rename : Str × Str → Result Rename
unfolding text
rename (actual, derived) = do
  a ← text actual
  d ← text derived
  ok (record { actual = a; derived = d })

pub record Mark : Type 0 where
  pub code : Code

unfoldable pub mark : Str → Result Mark
unfolding code
mark value = do c ← code value; ok (record { code = c })
