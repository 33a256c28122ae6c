-- ===== src/Generator/Template.antt =====
-- `Template.render` of generator/trees/domain/tree.py. A section that stands alone on its line takes the whole
-- line with it.
pub mod Laws
use tesser_build.Prelude.{
  ℕ, zero, suc, ◌+◌, ◌-◌, Str, str, strip, join, eqb, leb, ltb, Bool, true, false, ◌&&◌, List, [],
  ◌∷◌, ◌++◌, ◌==◌, list_eq, nat_eq, Result, ok, raise, traverse, ◌>>=◌, Option, none, some,
  if◌then◌else◌,
}
use tesser_build.Prelude.Lists.{length, take, drop, is_empty}
use tesser_build.Generator.Scope.{Scope, value, enter, skip, tagged}
use tesser_build.Generator.Tags.{
  Tag, Sigil, bind, open_section, open_inverted, close_section, tags_at,
}

-- `text[a:b]`
abbrev pub slice : Str → ℕ → ℕ → Str
slice text a b = take (b - a) (drop a text)

line_start_from : ℕ → ℕ → Str → ℕ
line_start_from at best [] = best
line_start_from at best (c ∷ s) = line_start_from (suc at) (if eqb c 10 then suc at else best) s

-- `text.rfind("\n", 0, i) + 1`
unfoldable pub line_start : Str → ℕ → ℕ
unfolding line_start_from
line_start text i = line_start_from 0 0 (take i text)

newline_from : ℕ → Str → ℕ
newline_from at [] = at
newline_from at (c ∷ s) = let rest = newline_from (suc at) s in if eqb c 10 then at else rest

-- `text.find("\n", i)`, or the length of the text
unfoldable pub line_stop : Str → ℕ → ℕ
unfolding newline_from
line_stop text i = newline_from i (drop i text)

-- The tag that closes a section, `depth` sections of the same name being open.
unfoldable pub closing : Str → ℕ → List Tag → Option Tag
closing name depth [] = none
closing name depth (t ∷ ts) =
    let deeper = closing name (suc depth) ts in
    let same = closing name depth ts in
    let shallower = closing name (depth - 1) ts in
    if t.name == name
    then elim t.sigil [
      | bind ↦ same
      | open_section ↦ deeper
      | open_inverted ↦ deeper
      | close_section ↦ if eqb depth 1 then some t else shallower
    ]
    else same

-- Whether a tag that stands behind `first` has only white space beside it on its line.
abbrev pub alone : Str → ℕ → Tag → Bool
alone text first t =
    leb first (line_start text t.start)
    && is_empty (strip (slice text (line_start text t.start) t.start))
    && is_empty (strip (slice text t.stop (line_stop text t.stop)))

abbrev sigil_text : Sigil → Str
sigil_text bind = []
sigil_text open_section = str "#"
sigil_text open_inverted = str "^"
sigil_text close_section = str "/"

-- What `render` does on a scope, a text and a position in it.
abbrev pub Renderer : Type 0
Renderer = Scope → Str → ℕ → Result Str

module _ (again : Renderer) (s : Scope) (text : Str) (position : ℕ) where
  -- `inner_start`, `inner_stop` and the position behind the section
  abbrev pub inner_start : Tag → ℕ
  inner_start t = if alone text position t then suc (line_stop text t.stop) else t.stop

  abbrev pub inner_stop : Tag → Tag → ℕ
  inner_stop t close = if alone text t.stop close then line_start text close.start else close.start

  abbrev pub behind : Tag → Tag → ℕ
  behind t close = if alone text t.stop close then suc (line_stop text close.stop) else close.stop

  abbrev pub inner : Tag → Tag → Str
  inner t close = slice text (inner_start t) (inner_stop t close)

  abbrev lead : Tag → Str
  lead t =
      if alone text position t
      then slice text position (line_start text t.start)
      else slice text position t.start

  -- A section whose tags are `t` and `close`, and the rest of the text.
  unfoldable pub section : Result (List Scope) → Tag → Tag → Result Str
  unfolding strip line_start line_stop traverse join
  section scopes t close = do
    entered ← scopes
    parts ← traverse (λ each. again each (inner t close) 0) entered
    rest ← again s text (behind t close)
    ok (lead t ++ (join [] parts ++ rest))

  abbrev unclosed : Tag → Result Str
  unclosed t = raise (str "a template never closes " ++ tagged (sigil_text t.sigil) t.name)

  unfoldable pub section_of : Result (List Scope) → Tag → Option Tag → Result Str
  unfolding section
  section_of scopes t none = unclosed t
  section_of scopes t (some close) = section scopes t close

  unfoldable pub bound : Tag → Result Str
  unfolding value
  bound t = do
    v ← value s t.name
    rest ← again s text t.stop
    ok (slice text position t.start ++ (v ++ rest))

  -- What a tag asks for, by its sigil.
  unfoldable pub by_sigil : Sigil → Tag → Option Tag → Result Str
  unfolding bound section_of enter skip
  by_sigil bind t close = bound t
  by_sigil open_section t close = section_of (enter s t.name) t close
  by_sigil open_inverted t close = section_of (skip s t.name) t close
  by_sigil close_section t close =
      raise (str "a template closes " ++ (tagged (str "/") t.name ++ str " before it opens it"))

  unfoldable pub on_tag : Tag → Result Str
  unfolding by_sigil closing tags_at
  on_tag t = by_sigil t.sigil t (closing t.name 1 (tags_at text t.stop))

  abbrev pub on_first : List Tag → Result Str
  on_first [] = ok (drop position text)
  on_first (t ∷ ts) = on_tag t

  -- One round of the loop, with what comes after it and the sections inside it given by `again`.
  unfoldable pub step : Result Str
  unfolding on_tag tags_at
  step = on_first (tags_at text position)

-- The loop and the recursion of `render`, on fuel; `stuck` is what a run without fuel answers.
unfoldable pub render_from : Result Str → ℕ → Renderer
unfolding step
render_from stuck zero s text position = stuck
render_from stuck (suc fuel) s text position = step (render_from stuck fuel) s text position

-- The fuel is one more than the length of the text.
unfoldable pub render_or : Result Str → Scope → Str → Result Str
unfolding render_from
render_or stuck s text = render_from stuck (suc (length text)) s text 0

unfoldable pub render : Scope → Str → Result Str
unfolding render_or
render s text = render_or (raise []) s text
