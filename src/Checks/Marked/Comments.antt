-- ===== src/Checks/Marked/Comments.antt =====
-- A debt comment that is written is read back.
use tesser_build.Prelude.{
  ℕ, Str, str, rstrip, drop_blank, join, is_space, leb, eqb, Bool, true, false, not, ◌&&◌, ◌≡◌,
  refl, ◌∙◌, ap, List, [], ◌∷◌, ◌++◌, map, Option, none, some, arith, if◌then◌else◌,
}
use tesser_build.Prelude.Lists.{all, any, keep, is_empty}
use tesser_build.Checks.Values.{code_shape}
use tesser_build.Checks.Marked.{
  carried, codes_in, comment_of, words, split_spaces, comma_to_blank, debt_marker,
}

-- Neither white space nor a comma.
abbrev is_inner : ℕ → Bool
is_inner c = not (is_space c) && not (eqb c b',')

inner_between : (c : ℕ) → leb b'0' c ≡ true → leb c b'Z' ≡ true → is_inner c ≡ true
unfolding is_space
inner_between c low high = ground arith

code_shape-is_inner :
    (c : Str) → code_shape c ≡ true → (all is_inner c ≡ true) × (is_empty c ≡ false)
unfolding code_shape
code_shape-is_inner [] h = cc
code_shape-is_inner (a ∷ []) h = cc
code_shape-is_inner (a ∷ b ∷ []) h = cc
code_shape-is_inner (a ∷ b ∷ c ∷ []) h = cc
code_shape-is_inner (a ∷ b ∷ c ∷ d ∷ []) h = cc
code_shape-is_inner (a ∷ b ∷ c ∷ d ∷ e ∷ []) h =
    ground
      (arith, inner_between a, inner_between b, inner_between c, inner_between d, inner_between e)
code_shape-is_inner (a ∷ b ∷ c ∷ d ∷ e ∷ f ∷ g) h = cc

drop_blank-nonempty : (c : ℕ) (s : Str) → is_empty s ≡ false → drop_blank c s ≡ c ∷ s
drop_blank-nonempty c [] h = cc
drop_blank-nonempty c (d ∷ s) h = refl

is_empty-behind : (s t : Str) → is_empty t ≡ false → is_empty (s ++ t) ≡ false
is_empty-behind [] t h = h
is_empty-behind (c ∷ s) t h = refl

rstrip-append : (s t : Str) → rstrip t ≡ t → is_empty t ≡ false → rstrip (s ++ t) ≡ s ++ t
unfolding rstrip
rstrip-append [] t h n = h
rstrip-append (c ∷ s) t h n =
    ap (drop_blank c) (rstrip-append s t h n)
    ∙ drop_blank-nonempty c (s ++ t) (is_empty-behind s t n)

rstrip-inner : (s : Str) → all is_inner s ≡ true → rstrip s ≡ s
unfolding rstrip
rstrip-inner [] h = refl
rstrip-inner (c ∷ s) h = ground (arith, rstrip-inner s)

split_spaces-inner : (s : Str) → all is_inner s ≡ true → split_spaces s ≡ s ∷ []
unfolding split_spaces
split_spaces-inner [] h = refl
split_spaces-inner (c ∷ s) h = ground (arith, split_spaces-inner s)

split_spaces-append :
    (s t : Str) → all is_inner s ≡ true → split_spaces (s ++ b' ' ∷ t) ≡ s ∷ split_spaces t
unfolding split_spaces is_space
split_spaces-append [] t h = refl
split_spaces-append (c ∷ s) t h = ground (arith, split_spaces-append s t)

map-comma : (s : Str) → all is_inner s ≡ true → map comma_to_blank s ≡ s
map-comma [] h = refl
map-comma (c ∷ s) h = ground (arith, map-comma s)

map-comma-inner :
    (s t : Str) → all is_inner s ≡ true → map comma_to_blank (s ++ t) ≡ s ++ map comma_to_blank t
map-comma-inner [] t h = refl
map-comma-inner (c ∷ s) t h = ground (arith, map-comma-inner s t)

abbrev joined : List Str → Str
joined = join (b' ' ∷ [])

joined-code :
    (c : Str) (cs : List Str)
    → all code_shape (c ∷ cs) ≡ true
    → (rstrip (joined (c ∷ cs)) ≡ joined (c ∷ cs)) × (is_empty (joined (c ∷ cs)) ≡ false)
unfolding join
joined-code c [] h =
    let (inner, some_char) = code_shape-is_inner c (ground arith) in
    (rstrip-inner c inner, some_char)
joined-code c (d ∷ cs) h =
    let (trimmed, some_char) = joined-code d cs (ground arith) in
    let (inner, first_char) = code_shape-is_inner c (ground arith) in
    (
      rstrip-append c (b' ' ∷ joined (d ∷ cs))
          (rstrip-append (b' ' ∷ []) (joined (d ∷ cs)) trimmed some_char) refl,
      is_empty-behind c (b' ' ∷ joined (d ∷ cs)) refl,
    )

words_of_joined :
    (c : Str) (cs : List Str)
    → all code_shape (c ∷ cs) ≡ true
    → split_spaces (map comma_to_blank (joined (c ∷ cs))) ≡ c ∷ cs
unfolding join
words_of_joined c [] h =
    let inner = (code_shape-is_inner c (ground arith)).0 in
    ap split_spaces (map-comma c inner) ∙ split_spaces-inner c inner
words_of_joined c (d ∷ cs) h =
    let inner = (code_shape-is_inner c (ground arith)).0 in
    ap split_spaces (map-comma-inner c (b' ' ∷ joined (d ∷ cs)) inner)
    ∙ split_spaces-append c (map comma_to_blank (joined (d ∷ cs))) inner
    ∙ ap (λ ws. c ∷ ws) (words_of_joined d cs (ground arith))

keep-codes : (cs : List Str) → all code_shape cs ≡ true → keep (λ w. not (is_empty w)) cs ≡ cs
keep-codes [] h = refl
keep-codes (c ∷ cs) h = ground (arith, code_shape-is_inner c, keep-codes cs)

any-misshapen :
    (cs : List Str) → all code_shape cs ≡ true → any (λ c. not (code_shape c)) cs ≡ false
any-misshapen [] h = refl
any-misshapen (c ∷ cs) h = ground (arith, any-misshapen cs)

words-joined :
    (c : Str) (cs : List Str)
    → all code_shape (c ∷ cs) ≡ true
    → words (map comma_to_blank (b' ' ∷ joined (c ∷ cs))) ≡ c ∷ cs
unfolding words split_spaces is_space
words-joined c cs h =
    ap (λ ws. keep (λ w. not (is_empty w)) ([] ∷ ws)) (words_of_joined c cs h)
    ∙ keep-codes (c ∷ cs) h

abbrev checked : List Str → Option (List Str)
checked parts = if any (λ part. not (code_shape part)) parts then none else some parts

codes_in-joined :
    (c : Str) (cs : List Str)
    → all code_shape (c ∷ cs) ≡ true
    → codes_in (debt_marker ++ (b' ' ∷ joined (c ∷ cs))) ≡ some (c ∷ cs)
unfolding codes_in str
codes_in-joined c cs h =
    ap checked (words-joined c cs h)
    ∙ ap (λ bad. if bad then none else some (c ∷ cs)) (any-misshapen (c ∷ cs) h)

-- The comment that is written for codes carries these codes, in their order.
pub carried-comment_of :
    (c : Str) (cs : List Str)
    → all code_shape (c ∷ cs) ≡ true
    → carried (comment_of (c ∷ cs)) ≡ some (c ∷ cs)
unfolding carried comment_of is_space str
carried-comment_of c cs h =
    let (trimmed, some_char) = joined-code c cs h in
    let stripped = rstrip-append (debt_marker ++ b' ' ∷ []) (joined (c ∷ cs)) trimmed some_char in
    ap codes_in stripped ∙ codes_in-joined c cs h
