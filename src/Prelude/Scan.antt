-- ===== src/Prelude/Scan.antt =====
-- Scans of texts that the program does with Go's `strings`, character by character.
pub mod Laws
pub mod Spaces
use Prim.Native.String.{String}
use Prim.Native.Char.{Char, code}
use Prim.Native.Nat.{ℕ}
use mathlib.Core.Bool.{Bool, true, false, ◌||◌}
use mathlib.Core.List.{List, [], ◌∷◌}
use mathlib.Core.Option.{Option, none, some}
use aoa_conformance.Prelude.Lists.{select}
use mathlib.Core.Path.{◌≡◌, refl}
use Prim.Native.Nat.{compare, Ordering}

abbrev pub is_code : ℕ → Char → Bool
is_code n c = elim (compare (code c) n) [ Ordering.eq ↦ true | _ ↦ false ]

abbrev pub cut_off : Bool → Option String → Option String
cut_off true o = o
cut_off false o = none

-- The rest of a text after a prefix of it.
unfoldable pub after_prefix : String → String → Option String
after_prefix String.[] s = some s
after_prefix (String.◌∷◌ p ps) String.[] = none
after_prefix (String.◌∷◌ p ps) (String.◌∷◌ c s) = cut_off (is_code (code p) c) (after_prefix ps s)

abbrev pub push_first : Char → Option (String × String) → Option (String × String)
push_first c none = none
push_first c (some (before, after)) = some (String.◌∷◌ c before, after)

abbrev pub or_scan : Option String → Option (String × String) → Option (String × String)
or_scan (some rest) later = some ("", rest)
or_scan none later = later

-- strings.Cut, at the first place where `sep` stands.
unfoldable pub cut : String → String → Option (String × String)
unfolding after_prefix
cut sep String.[] = or_scan (after_prefix sep "") none
cut sep (String.◌∷◌ c s) = or_scan (after_prefix sep (String.◌∷◌ c s)) (push_first c (cut sep s))

-- unicode.IsSpace
abbrev is_space : Char → Bool
is_space c =
    is_code 32 c
    || is_code 9 c
    || is_code 10 c
    || is_code 11 c
    || is_code 12 c
    || is_code 13 c
    || is_code 133 c
    || is_code 160 c
    || is_code 5760 c
    || is_code 8192 c
    || is_code 8193 c
    || is_code 8194 c
    || is_code 8195 c
    || is_code 8196 c
    || is_code 8197 c
    || is_code 8198 c
    || is_code 8199 c
    || is_code 8200 c
    || is_code 8201 c
    || is_code 8202 c
    || is_code 8232 c
    || is_code 8233 c
    || is_code 8239 c
    || is_code 8287 c
    || is_code 12288 c

abbrev push_or_drop : Bool → Char → String → String
push_or_drop true c String.[] = ""
push_or_drop true c (String.◌∷◌ d s) = String.◌∷◌ c (String.◌∷◌ d s)
push_or_drop false c s = String.◌∷◌ c s

-- strings.TrimRight and the two halves of strings.TrimSpace, on a test for what is trimmed.
trim_right_by : (Char → Bool) → String → String
trim_right_by p String.[] = ""
trim_right_by p (String.◌∷◌ c s) = push_or_drop (p c) c (trim_right_by p s)

abbrev keep_or : Bool → String → String → String
keep_or true rest whole = rest
keep_or false rest whole = whole

trim_left_by : (Char → Bool) → String → String
trim_left_by p String.[] = ""
trim_left_by p (String.◌∷◌ c s) = keep_or (p c) (trim_left_by p s) (String.◌∷◌ c s)

-- strings.TrimRight(s, "/")
unfoldable pub trim_slashes : String → String
unfolding trim_right_by
trim_slashes s = trim_right_by (is_code 47) s

-- strings.TrimSpace
unfoldable pub trim_space : String → String
unfolding trim_left_by trim_right_by
trim_space s = trim_left_by is_space (trim_right_by is_space s)

abbrev extend_split : Bool → Char → List String → List String
extend_split true c pieces = "" ∷ pieces
extend_split false c [] = String.◌∷◌ c "" ∷ []
extend_split false c (p ∷ ps) = String.◌∷◌ c p ∷ ps

split_by : (Char → Bool) → String → List String
split_by p String.[] = "" ∷ []
split_by p (String.◌∷◌ c s) = extend_split (p c) c (split_by p s)

-- strings.Split(s, ",")
unfoldable pub split_commas : String → List String
unfolding split_by
split_commas s = split_by (is_code 44) s

abbrev is_text : String → Bool
is_text String.[] = false
is_text (String.◌∷◌ c s) = true

-- strings.Fields
unfoldable pub fields : String → List String
unfolding split_by
fields s = select is_text (split_by is_space s)

split_test : split_commas "core, extended,," ≡ ("core" ∷ " extended" ∷ "" ∷ "" ∷ [])
unfolding split_commas split_by
split_test = refl

trim_test : trim_space "  a b " ≡ "a b"
unfolding trim_space trim_left_by trim_right_by
trim_test = refl

slash_test : trim_slashes "https://as.example//" ≡ "https://as.example"
unfolding trim_slashes trim_right_by
slash_test = refl

fields_test : fields " a  b c" ≡ ("a" ∷ "b" ∷ "c" ∷ [])
unfolding fields split_by
fields_test = refl

cut_test : cut "://" "https://as.example" ≡ some ("https", "as.example")
unfolding cut after_prefix
cut_test = refl
