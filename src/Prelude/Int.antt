-- ===== src/Prelude/Int.antt =====
-- Python's `int` where the program takes a negative one into account.
use Prim.Native.Nat.{ℕ, suc}
use tesser_build.Prelude.Texts.{Str, str_of_nat}
use mathlib.Core.List.{◌∷◌}

-- `negsuc n` is -(n + 1).
pub data ℤ : Type 0 where
  pos : ℕ → ℤ
  negsuc : ℕ → ℤ

-- `str(i)`
unfoldable pub str_of_int : ℤ → Str
unfolding str_of_nat
str_of_int (pos n) = str_of_nat n
str_of_int (negsuc n) = b'-' ∷ str_of_nat (suc n)
