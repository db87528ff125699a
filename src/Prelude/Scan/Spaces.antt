-- ===== src/Prelude/Scan/Spaces.antt =====
-- Where `cut` splits a text at its first space.
use Prim.Native.String.{String}
use Prim.Native.Char.{Char}
use mathlib.Core.Bool.{Bool, true, false}
use mathlib.Core.Option.{Option, none, some}
use mathlib.Core.Path.{◌≡◌, refl, ap, sym, ◌∙◌}
use mathlib.Core.Logic.{◌≢◌, ◌⊎◌, inl, inr}
use native.Mathlib.Omega.{arith}
use text.Mathlib.TextLemmas.{cons-append, nil-append, append_assoc}
use aoa_conformance.Prelude.{Bool-cases, Option-cases}
use aoa_conformance.Prelude.Text.{◌&◌}
use aoa_conformance.Prelude.Scan.{after_prefix, cut, is_code, push_first, cut_off}
use aoa_conformance.Prelude.Scan.Laws.{same_code}

-- No place of the text is a space.
abbrev pub HasNoSpace : String → Type 0
HasNoSpace s = (a b : String) → s ≢ a & " " & b

abbrev hit : Char → String → Option String
hit c s = cut_off (is_code 32 c) (some s)

after_prefix-space : (c : Char) (s : String) → after_prefix " " (String.◌∷◌ c s) ≡ hit c s
unfolding after_prefix
after_prefix-space c s = refl

-- One step of the scan.
abbrev step : Bool → Char → String → Option (String × String) → Option (String × String)
step true c s later = some ("", s)
step false c s later = push_first c later

cut-step : (c : Char) (s : String) → cut " " (String.◌∷◌ c s) ≡ step (is_code 32 c) c s (cut " " s)
unfolding cut after_prefix
cut-step c s = elim (Bool-cases (is_code 32 c)) [ inl e ↦ rw e refl | inr e ↦ rw e refl ]

cut-empty : cut " " "" ≡ none
unfolding cut after_prefix
cut-empty = refl

space_first : (b : String) → cut " " (" " & b) ≡ some ("", b)
space_first b = rw (cons-append " " "" b, nil-append b) (cut-step " " b)

step-none :
    (x : Bool) (c : Char) (s : String) (later : Option (String × String))
    → step x c s later ≡ none
    → (x ≡ false) × (later ≡ none)
step-none true c s later h = absurd (ground arith)
step-none false c s none h = (refl, refl)
step-none false c s (some (a, b)) h = absurd (ground arith)

step-some :
    (x : Bool) (c : Char) (s : String) (later : Option (String × String)) (a b : String)
    → step x c s later ≡ some (a, b)
    → ((x ≡ true) × ("" ≡ a) × (s ≡ b))
      ⊎ ((rest : String) × (x ≡ false) × (later ≡ some (rest, b)) × (String.◌∷◌ c rest ≡ a))
step-some true c s later a b h = inl (refl, ground arith, ground arith)
step-some false c s none a b h = absurd (ground arith)
step-some false c s (some (rest, end)) a b h =
    let same : end ≡ b = ground arith in
    inr (rest, refl, ap (λ (e : String). some (rest, e)) same, ground arith)

-- A text with a space after one without is split there.
pub cut-append : (a b : String) → cut " " a ≡ none → cut " " (a & " " & b) ≡ some (a, b)
cut-append String.[] b h = rw (nil-append (" " & b)) (space_first b)
cut-append (String.◌∷◌ c a) b h =
    let (other, later) = step-none (is_code 32 c) c a (cut " " a) (sym (cut-step c a) ∙ h) in
    rw (cons-append c a (" " & b)) (
      cut-step c (a & " " & b)
      ∙ ap (λ (x : Bool). step x c (a & " " & b) (cut " " (a & " " & b))) other
      ∙ ap (push_first c) (cut-append a b later))

-- A split text is its parts around a space, of which the first has none.
pub append-cut : (s a b : String) → cut " " s ≡ some (a, b) → (s ≡ a & " " & b) × (cut " " a ≡ none)
append-cut String.[] a b h = let wrong = sym cut-empty ∙ h in cc
append-cut (String.◌∷◌ c s) a b h =
    elim (step-some (is_code 32 c) c s (cut " " s) a b (sym (cut-step c s) ∙ h)) [
      | inl (space, first, rest) ↦
          let same : " " ≡ c = same_code " " c space in
          let whole : String.◌∷◌ c s ≡ "" & " " & s =
            rw (nil-append (" " & s), cons-append " " "" s, nil-append s)
              (ap (λ (x : Char). String.◌∷◌ x s) (sym same)) in
          (
            whole ∙ ap (λ (x : String). x & " " & s) first ∙ ap (λ (x : String). a & " " & x) rest,
            ap (cut " ") (sym first) ∙ cut-empty,
          )
      | inr (before, other, later, first) ↦
          let (joined, free) = append-cut s before b later in
          (
            ap (String.◌∷◌ c) joined
                ∙ sym (cons-append c before (" " & b))
                ∙ ap (λ (x : String). x & " " & b) first,
            ap (cut " ") (sym first)
                ∙ cut-step c before
                ∙ ap (λ (x : Bool). step x c before (cut " " before)) other
                ∙ ap (push_first c) free,
          )
    ]

never_none : (a b : String) → cut " " (a & " " & b) ≢ none
never_none a b h = elim (Option-cases (cut " " a)) [
  | inl free ↦ let found = sym (cut-append a b free) ∙ h in cc
  | inr ((before, after), split) ↦
      let (joined, free) = append-cut a before after split in
      let moved : a & " " & b ≡ before & " " & (after & " " & b) =
        ap (λ (x : String). x & " " & b) joined
        ∙ append_assoc before (" " & after) (" " & b)
        ∙ ap (λ (x : String). before & x) (append_assoc " " after (" " & b)) in
      let found = sym (cut-append before (after & " " & b) free) ∙ ap (cut " ") (sym moved) ∙ h in
      cc
]

pub cut-HasNoSpace : (s : String) → cut " " s ≡ none → HasNoSpace s
cut-HasNoSpace s h a b e = never_none a b (ap (cut " ") (sym e) ∙ h)

pub HasNoSpace-cut : (s : String) → HasNoSpace s → cut " " s ≡ none
HasNoSpace-cut s free = elim (Option-cases (cut " " s)) [
  | inl h ↦ h
  | inr ((a, b), split) ↦ absurd (free a b (append-cut s a b split).0)
]
