-- ===== src/Prelude/Texts.antt =====
-- Python's `str` as its list of code points, and the methods of `str` that the program calls.
use tesser_build.Prelude.Tests.{if◌then◌else◌, leb, ltb, eqb}
use tesser_build.Prelude.Equality.{◌==◌, nat_eq, list_eq}
use Prim.Native.Nat.{ℕ, zero, suc, ◌+◌, ◌/◌, ◌%◌}
use Prim.Native.Char.{code}
use Prim.Native.String.{String}
use mathlib.Core.Bool.{Bool, true, false, ◌&&◌, ◌||◌}
use mathlib.Core.Option.{Option, none, some}
use mathlib.Core.List.{List, [], ◌∷◌, ◌++◌}

abbrev pub Str : Type 0
Str = List ℕ

-- A text literal.
unfoldable pub str : String → Str
str String.[] = []
str (String.◌∷◌ c s) = code c ∷ str s

-- The characters that `str.strip` and `str.split` take for white space.
unfoldable pub is_space : ℕ → Bool
is_space c =
    (leb 9 c && leb c 13)
    || (leb 28 c && leb c 32)
    || eqb c 0x85
    || eqb c 0xa0
    || eqb c 0x1680
    || (leb 0x2000 c && leb c 0x200a)
    || eqb c 0x2028
    || eqb c 0x2029
    || eqb c 0x202f
    || eqb c 0x205f
    || eqb c 0x3000

-- The characters at which `str.splitlines` ends a line.
unfoldable pub is_line_end : ℕ → Bool
is_line_end c =
    (leb 10 c && leb c 13) || (leb 28 c && leb c 30) || eqb c 0x85 || eqb c 0x2028 || eqb c 0x2029

unfoldable pub lstrip : Str → Str
lstrip [] = []
lstrip (c ∷ s) = let rest = lstrip s in if is_space c then rest else c ∷ s

abbrev pub drop_blank : ℕ → Str → Str
drop_blank c [] = if is_space c then [] else c ∷ []
drop_blank c (d ∷ s) = c ∷ d ∷ s

unfoldable pub rstrip : Str → Str
rstrip [] = []
rstrip (c ∷ s) = drop_blank c (rstrip s)

-- `s.strip()`
unfoldable pub strip : Str → Str
unfolding lstrip rstrip is_space
strip s = rstrip (lstrip s)

abbrev pub begins_with_newline : Str → Bool
begins_with_newline [] = false
begins_with_newline (c ∷ s) = eqb c 10

abbrev pub push : ℕ → List Str → List Str
push c [] = (c ∷ []) ∷ []
push c (w ∷ ws) = (c ∷ w) ∷ ws

-- `s.split(c)` for a separator of one character
unfoldable pub split : ℕ → Str → List Str
split c [] = [] ∷ []
split c (x ∷ s) = let rest = split c s in if eqb x c then [] ∷ rest else push x rest

-- The lines of `c ∷ s`, from those of `s`. A line end after a `\r` is part of it if it is `\n`.
abbrev pub lines_after : ℕ → Str → List Str → List Str
lines_after c s lines =
    if is_line_end c
    then (if eqb c 13 && begins_with_newline s then lines else [] ∷ lines)
    else push c lines

-- `s.splitlines()`; a `\r\n` is one line end.
unfoldable pub splitlines : Str → List Str
unfolding is_line_end
splitlines [] = []
splitlines (c ∷ s) = lines_after c s (splitlines s)

-- `s.partition(c)` for a separator of one character: what stands before it.
unfoldable pub before : ℕ → Str → Str
before c [] = []
before c (x ∷ s) = let rest = before c s in if eqb x c then [] else x ∷ rest

-- `s.partition(c)`: what stands after it.
unfoldable pub after : ℕ → Str → Str
after c [] = []
after c (x ∷ s) = let rest = after c s in if eqb x c then s else rest

-- `s.rsplit(c, 1)` for a separator of one character that is in `s`
unfoldable pub rsplit : ℕ → Str → Option (Str × Str)
rsplit c [] = none
rsplit c (x ∷ s) = elim (rsplit c s) [
  | some (first, last) ↦ some (x ∷ first, last)
  | none ↦ if eqb x c then some ([], s) else none
]

-- `s.startswith(p)`
unfoldable pub starts_with : Str → Str → Bool
starts_with s [] = true
starts_with [] (c ∷ p) = false
starts_with (d ∷ s) (c ∷ p) = eqb d c && starts_with s p

-- `s.endswith(p)`
unfoldable pub ends_with : Str → Str → Bool
unfolding list_eq nat_eq
ends_with [] p = [] == p
ends_with (c ∷ s) p = (c ∷ s) == p || ends_with s p

-- `sep.join(parts)`
unfoldable pub join : Str → List Str → Str
join sep [] = []
join sep (w ∷ []) = w
join sep (w ∷ v ∷ ws) = w ++ (sep ++ join sep (v ∷ ws))

-- `parts[-1]`
unfoldable pub last_part : List Str → Str
last_part [] = []
last_part (w ∷ []) = w
last_part (w ∷ v ∷ ws) = last_part (v ∷ ws)

-- `s.removesuffix(p)`
unfoldable pub remove_suffix : Str → Str → Str
unfolding list_eq nat_eq
remove_suffix [] p = []
remove_suffix (c ∷ s) p = let rest = remove_suffix s p in if (c ∷ s) == p then [] else c ∷ rest

-- `str(n)` for a natural number, most significant digit first.
digits_onto : ℕ → ℕ → Str → Str
digits_onto zero n acc = acc
digits_onto (suc fuel) n acc =
    let rest = digits_onto fuel (n / 10) ((48 + n % 10) ∷ acc) in
    if ltb n 10 then (48 + n) ∷ acc else rest

unfoldable pub str_of_nat : ℕ → Str
unfolding digits_onto
str_of_nat n = digits_onto (suc n) n []
