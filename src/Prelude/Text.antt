-- ===== src/Prelude/Text.antt =====
-- The functions of Go's `strings` package that the program calls, over the native `String`.
use Prim.Native.String
use mathlib.Core.Path.{◌≡◌, sym, ◌∙◌}
use mathlib.Core.Bool.{false≢true, false}
use mathlib.Core.Logic.{inl, inr}
use text.Mathlib.Text.{◌==◌}
use text.Mathlib.TextEquality.{eq_iff}
use text.Mathlib.TextLemmas.{append-eq-nil_iff}
use aoa_conformance.Prelude.Lists.{Bool-cases}
use Prim.Native.String.{String}
use mathlib.Core.List.{List, [], ◌∷◌}

infixr 65 ◌&◌
abbrev pub ◌&◌ : String → String → String
a & b = String.◌++◌ a b

-- strings.Join
unfoldable pub join : String → List String → String
join sep [] = ""
join sep (x ∷ []) = x
join sep (x ∷ y ∷ ys) = x & sep & join sep (y ∷ ys)

-- A text that begins with a non-empty text is not empty.
pub eq-empty_append : (s t : String) → (s == "") ≡ false → (s & t == "") ≡ false
eq-empty_append s t h = elim (Bool-cases (s & t == "")) [
  | inr other ↦ other
  | inl empty ↦
      let both : s & t ≡ "" = (eq_iff (s & t) "").0 empty in
      let (s_empty, _) = append-eq-nil_iff.0 both in
      absurd (false≢true (sym h ∙ (eq_iff s "").1 s_empty))
]

-- And so is a text that ends with one.
pub eq-empty_append_right : (s t : String) → (t == "") ≡ false → (s & t == "") ≡ false
eq-empty_append_right s t h = elim (Bool-cases (s & t == "")) [
  | inr other ↦ other
  | inl empty ↦
      let both : s & t ≡ "" = (eq_iff (s & t) "").0 empty in
      let (_, t_empty) = append-eq-nil_iff.0 both in
      absurd (false≢true (sym h ∙ (eq_iff t "").1 t_empty))
]
