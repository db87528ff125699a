-- ===== src/Prelude/Scan/Laws.antt =====
-- What the scans of texts find.

use Prim.Native.String.{String}
use Prim.Native.Char.{Char, code}
use mathlib.Core.Bool.{Bool, true, false}
use mathlib.Core.Option.{Option, some}
use mathlib.Core.Path.{◌≡◌, refl, ap, sym, ◌∙◌}
use native.Mathlib.Omega.{arith}
use text.Mathlib.TextEquality.{Char-path}
use text.Mathlib.TextLemmas.{cons-append, nil-append}
use aoa_conformance.Prelude.Text.{◌&◌}
use aoa_conformance.Prelude.Scan.{after_prefix, is_code, cut_off}

is_code_refl : (c : Char) → is_code (code c) c ≡ true
is_code_refl c = ground arith

-- A text that was put in front is a prefix.
pub after_prefix-append : (p s : String) → after_prefix p (p & s) ≡ some s
unfolding after_prefix
after_prefix-append String.[] s = ap some (nil-append s)
after_prefix-append (String.◌∷◌ c p) s =
    rw (cons-append c p s) (ground (arith, is_code_refl c, after_prefix-append p s))

cut_off-some :
    (b : Bool) (o : Option String) (rest : String)
    → cut_off b o ≡ some rest
    → (b ≡ true) × (o ≡ some rest)
cut_off-some true o rest h = (refl, h)
cut_off-some false o rest h = absurd (ground arith)

pub same_code : (p c : Char) → is_code (code p) c ≡ true → p ≡ c
same_code p c h = Char-path p c (ground arith)

-- What follows a prefix is the rest of the text.
pub append-after_prefix : (p s rest : String) → after_prefix p s ≡ some rest → s ≡ p & rest
unfolding after_prefix
append-after_prefix String.[] s rest h =
    let same : s ≡ rest = ground arith in same ∙ sym (nil-append rest)
append-after_prefix (String.◌∷◌ p ps) String.[] rest h = cc
append-after_prefix (String.◌∷◌ p ps) (String.◌∷◌ c s) rest h =
    let (here, later) = cut_off-some (is_code (code p) c) (after_prefix ps s) rest h in
    let tail : s ≡ ps & rest = append-after_prefix ps s rest later in
    let first : p ≡ c = same_code p c here in
    ap (λ (x : Char). String.◌∷◌ x s) (sym first)
    ∙ ap (String.◌∷◌ p) tail
    ∙ sym (cons-append p ps rest)
