-- ===== src/Generator/Tree/Shapes.antt =====
-- The constants of generator/trees/domain/tree.py, and the shapes of names and texts in a specification.
use tesser_build.Prelude.{ℕ, Str, str, eqb, leb, Bool, ◌&&◌, ◌||◌, List, [], ◌∷◌, list_eq, nat_eq}
use tesser_build.Prelude.Dict.{Dict}
use tesser_build.Prelude.Regex.{Re, one, star, plus, literal, ◌⨟◌, lower_digit, digit}

unfoldable pub read : Str
read = str "read"

unfoldable pub missing : Str
missing = str "missing"

unfoldable pub unreadable : Str
unreadable = str "unreadable"

unfoldable pub malformed : Str
malformed = str "malformed"

unfoldable pub occupied : Str
occupied = str "occupied"

unfoldable pub engine : Str
engine = str "restate"

unfoldable pub database : Str
database = str "postgres"

unfoldable pub identity_type : Str
identity_type = str "str"

-- A type of fields: its type in SQL, and the functions for its values.
pub record FieldType : Type 0 where
  pub sql_type : Str
  pub canonical : Str
  pub dunder : Str

-- TYPES
unfoldable pub field_types : Dict Str FieldType
field_types =
    (
      str "str",
      record { sql_type = str "text"; canonical = str "canonical_str"; dunder = str "__str__" },
    )
    ∷ (
      str "int",
      record { sql_type = str "bigint"; canonical = str "canonical_int"; dunder = str "__int__" },
    )
    ∷ []

unfoldable pub reserved : List Str
reserved =
    str "adapters"
    ∷ str "app"
    ∷ str "application"
    ∷ str "client"
    ∷ str "component"
    ∷ str "config"
    ∷ str "conftest"
    ∷ str "domain"
    ∷ str "identity"
    ∷ str "pgdatabase"
    ∷ str "protocol"
    ∷ str "spec"
    ∷ str "srv"
    ∷ str "tests"
    ∷ []

abbrev lower : ℕ → Bool
lower c = leb b'a' c && leb c b'z'

abbrev upper : ℕ → Bool
upper c = leb b'A' c && leb c b'Z'

-- `_[a-z0-9]+`
unfoldable pub tail_word : Re
tail_word = one (eqb b'_') ⨟ plus (one lower_digit)

-- `[A-Z][a-z0-9]+`
unfoldable pub pascal_word : Re
pascal_word = one upper ⨟ plus (one lower_digit)

unfoldable pub snake : Re
unfolding tail_word
snake = one lower ⨟ star (one lower_digit) ⨟ star tail_word

unfoldable pub operation : Re
unfolding tail_word
operation = one lower ⨟ star (one lower_digit) ⨟ plus tail_word

unfoldable pub pascal : Re
unfolding pascal_word
pascal = plus pascal_word

unfoldable pub environment : Re
environment = one upper ⨟ star (one (λ c. upper c || (digit c || eqb c b'_')))

unfoldable pub test_class : Re
unfolding literal pascal_word
test_class = literal (str "Test") ⨟ plus pascal_word

unfoldable pub test_method : Re
unfolding literal tail_word
test_method = literal (str "test") ⨟ plus tail_word

-- Printable ASCII without quotes and backslashes.
unfoldable pub sample_text : Re
sample_text = plus (
    one (λ c.
      eqb c b' '
      || (eqb c b'!'
          || ((leb b'#' c && leb c b'&')
              || ((leb b'(' c && leb c b'[') || (leb b']' c && leb c b'~'))))))

unfoldable pub identity_text : Re
identity_text = plus (
    one (λ c.
      upper c
      || (lower c || (digit c || (eqb c b'.' || (eqb c b'_' || (eqb c b'~' || eqb c b'-')))))))
