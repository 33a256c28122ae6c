-- ===== src/Generator/Template/Laws.antt =====
-- The rendering of a template ends.
use tesser_build.Prelude.{
  ℕ, zero, suc, ◌-◌, ◌≤◌, ◌<◌, Str, ◌≡◌, refl, fun_ext, List, [], ◌∷◌, list_eq, nat_eq, Result,
  raise, Option, none, some, arith,
}
use tesser_build.Prelude.Lists.{All, length, take, drop}
use tesser_build.Generator.Scope.{Scope}
use tesser_build.Generator.Tags.{
  Tag, Sigil, bind, open_section, open_inverted, close_section, tags_at,
}
use tesser_build.Generator.Tags.Bounds.{Between, tags_at-Between, length-drop}
use tesser_build.Generator.Template.{
  Renderer, slice, line_stop, newline_from, closing, inner, inner_start, inner_stop, behind,
  section, section_of, bound, by_sigil, on_tag, on_first, step, render_from, render_or, render,
}

newline_from-ge : (at : ℕ) (s : Str) → at ≤ newline_from at s
unfolding newline_from
newline_from-ge at [] = omega arith
newline_from-ge at (c ∷ s) = ground (arith, newline_from-ge (suc at) s)

line_stop-ge : (text : Str) (i : ℕ) → i ≤ line_stop text i
unfolding line_stop
line_stop-ge text i = newline_from-ge i (drop i text)

length-slice : (text : Str) (a b : ℕ) → length (slice text a b) ≤ length text - a
length-slice text a b = ground (arith, length-drop a text, length-take (b - a) (drop a text))
  where
    length-take : (n : ℕ) (s : Str) → length (take n s) ≤ length s
    length-take zero s = omega arith
    length-take (suc n) [] = omega arith
    length-take (suc n) (c ∷ s) = ground (arith, length-take n s)

-- A predicate on tags holds of the closing tag.
abbrev OnTag : ℕ → ℕ → Option Tag → Type 0
OnTag low high none = Unit
OnTag low high (some t) = Between low high t

closing-Between :
    (low high : ℕ) (name : Str) (depth : ℕ) (ts : List Tag)
    → All (Between low high) ts
    → OnTag low high (closing name depth ts)
unfolding closing
closing-Between low high name depth [] b = tt
closing-Between low high name depth (t ∷ ts) b = ground (
  arith,
  closing-Between low high name (suc depth) ts b.1,
  closing-Between low high name depth ts b.1,
  closing-Between low high name (depth - 1) ts b.1,
)

-- Two renderers that agree on everything that is shorter than `n`.
abbrev Agree : ℕ → Renderer → Renderer → Type 0
Agree n again again' =
    (s : Scope) (text : Str) (position : ℕ)
    → length text - position < n
    → again s text position ≡ again' s text position

module _ (again again' : Renderer) (s : Scope) (text : Str) (position : ℕ)
    (agree : Agree (length text - position) again again') where
  behind-gt :
      (t close : Tag)
      → Between t.stop (length text) close
      → t.stop < behind again s text position t close
  behind-gt t close b = ground (arith, line_stop-ge text close.stop)

  length-inner :
      (t close : Tag) → length (inner again s text position t close) ≤ length text - t.stop
  length-inner t close = ground (
    arith,
    length-slice text (inner_start again s text position t)
        (inner_stop again s text position t close),
    line_stop-ge text t.stop,
  )

  section_congr :
      (scopes : Result (List Scope)) (t close : Tag)
      → Between position (length text) t
      → Between t.stop (length text) close
      → section again s text position scopes t close ≡ section again' s text position scopes t close
  unfolding section
  section_congr scopes t close b b' =
      let part = inner again s text position t close in
      let same_inner : (λ (each : Scope). again each part 0)
          ≡ (λ (each : Scope). again' each part 0) =
        fun_ext (λ (each : Scope). agree each part 0 (omega (arith, length-inner t close))) in
      let same_rest : again s text (behind again s text position t close)
          ≡ again' s text (behind again s text position t close) =
        agree s text (behind again s text position t close) (omega (arith, behind-gt t close b')) in
      rw (same_inner, same_rest) refl

  section_of_congr :
      (scopes : Result (List Scope)) (t : Tag) (close : Option Tag)
      → Between position (length text) t
      → OnTag t.stop (length text) close
      → section_of again s text position scopes t close
        ≡ section_of again' s text position scopes t close
  unfolding section_of
  section_of_congr scopes t none b b' = refl
  section_of_congr scopes t (some close) b b' = section_congr scopes t close b b'

  bound_congr :
      (t : Tag)
      → Between position (length text) t
      → bound again s text position t ≡ bound again' s text position t
  unfolding bound
  bound_congr t b = rw (agree s text t.stop (omega arith)) refl

  by_sigil_congr :
      (sigil : Sigil) (t : Tag) (close : Option Tag)
      → Between position (length text) t
      → OnTag t.stop (length text) close
      → by_sigil again s text position sigil t close ≡ by_sigil again' s text position sigil t close
  unfolding by_sigil
  by_sigil_congr bind t close b b' = bound_congr t b
  by_sigil_congr open_section t close b b' = section_of_congr _ t close b b'
  by_sigil_congr open_inverted t close b b' = section_of_congr _ t close b b'
  by_sigil_congr close_section t close b b' = refl

  on_first_congr :
      (ts : List Tag)
      → All (Between position (length text)) ts
      → on_first again s text position ts ≡ on_first again' s text position ts
  unfolding on_tag
  on_first_congr [] b = refl
  on_first_congr (t ∷ ts) b =
      by_sigil_congr t.sigil t (closing t.name 1 (tags_at text t.stop)) b.0 (
        closing-Between t.stop (length text) t.name 1 (tags_at text t.stop)
          (tags_at-Between text t.stop))

  step_congr : step again s text position ≡ step again' s text position
  unfolding step
  step_congr = on_first_congr (tags_at text position) (tags_at-Between text position)

render_from_congr :
    (stuck stuck' : Result Str) (fuel fuel' : ℕ) (s : Scope) (text : Str) (position : ℕ)
    → length text - position < fuel
    → length text - position < fuel'
    → render_from stuck fuel s text position ≡ render_from stuck' fuel' s text position
unfolding render_from
render_from_congr stuck stuck' zero fuel' s text position h h' = absurd (omega arith)
render_from_congr stuck stuck' (suc fuel) zero s text position h h' = absurd (omega arith)
render_from_congr stuck stuck' (suc fuel) (suc fuel') s text position h h' =
    step_congr (render_from stuck fuel) (render_from stuck' fuel') s text position
      (λ s' text' position' l.
        render_from_congr stuck stuck' fuel fuel' s' text' position' (omega arith) (omega arith))

-- A rendering never runs out of its fuel: with any more of it, and whatever a run without fuel answers, the result
-- is the same.
pub render_lem :
    (stuck : Result Str) (fuel : ℕ) (s : Scope) (text : Str)
    → length text < fuel
    → render_from stuck fuel s text 0 ≡ render s text
unfolding render render_or
render_lem stuck fuel s text h =
    render_from_congr stuck (raise []) fuel (suc (length text)) s text 0 (omega arith) (omega arith)
