-- ===== src/Profiles/Selection.antt =====
-- What `SelectSurfaces` returns for names, and for which names it refuses.
use mathlib.Core.List.{Memᴰ}
use aoa_conformance.Prelude.{
  ◌≡◌, refl, sym, String, true, false, ◌⊎◌, inl, inr, none, some, List, [], ◌∷◌, eq_iff, arith,
  Option-cases, Bool-cases,
}
use aoa_conformance.Prelude.Result.{ok, err}
use aoa_conformance.Model.{contains}
use aoa_conformance.Profiles.{
  ModelSurface, Profiles, unknown_surface, by_name, pick, is_all, select_surfaces,
}
use aoa_conformance.Profiles.Loading.{names}

by_name_sound :
    (ss : List ModelSurface) (n : String) {s : ModelSurface}
    → by_name ss n ≡ some s
    → Memᴰ s ss × (s.name ≡ n)
unfolding by_name
by_name_sound [] n h = cc
by_name_sound (t ∷ ss) n {s} h = elim (Option-cases (by_name ss n)) [
  | inr (u, found) ↦ let (m, e) = by_name_sound ss n {s = s} (ground arith) in (Memᴰ.tail m, e)
  | inl missing ↦
      let same : t ≡ s = ground arith in
      (Memᴰ.head (sym same), ground (arith, same, eq_iff t.name n))
]

by_name-none :
    (ss : List ModelSurface) (n : String) → by_name ss n ≡ none → contains (names ss) n ≡ false
unfolding by_name
by_name-none [] n h = refl
by_name-none (t ∷ ss) n h = elim (Option-cases (by_name ss n)) [
  | inr (u, found) ↦ ground arith
  | inl missing ↦ ground (arith, by_name-none ss n)
]

-- One surface of the corpus for each name, in the order of the names.
abbrev pub Chosen : List ModelSurface → List String → List ModelSurface → Type 0
Chosen ss [] [] = Unit
Chosen ss (n ∷ ns) (s ∷ out) = Memᴰ s ss × (s.name ≡ n) × Chosen ss ns out
Chosen ss _ _ = ⊥

-- The first name that no surface has.
abbrev pub Unknown : Profiles → List String → Type 0
Unknown p ns =
    (n : String) × Memᴰ n ns
    × (contains (names p.surfaces) n ≡ false)
    × (select_surfaces p ns ≡ err (unknown_surface n (names p.surfaces)))

abbrev pub Found : Profiles → List String → Type 0
Found p ns = (out : List ModelSurface) × (select_surfaces p ns ≡ ok out) × Chosen p.surfaces ns out

abbrev Picked : List ModelSurface → List String → Type 0
Picked ss ns = (out : List ModelSurface) × (pick ss ns ≡ ok out) × Chosen ss ns out

abbrev Refused : List ModelSurface → List String → Type 0
Refused ss ns =
    (n : String) × Memᴰ n ns
    × (contains (names ss) n ≡ false)
    × (pick ss ns ≡ err (unknown_surface n (names ss)))

pick_complete : (ss : List ModelSurface) (ns : List String) → Picked ss ns ⊎ Refused ss ns
unfolding pick
pick_complete ss [] = inl ([], refl, tt)
pick_complete ss (n ∷ ns) = elim (Option-cases (by_name ss n)) [
  | inl missing ↦ inr (n, Memᴰ.head refl, by_name-none ss n missing, ground arith)
  | inr (s, found) ↦ elim (pick_complete ss ns) [
    | inl (out, picked, chosen) ↦
        let (m, e) = by_name_sound ss n found in inl (s ∷ out, ground arith, (m, e, chosen))
    | inr (x, m, unknown, refused) ↦ inr (x, Memᴰ.tail m, unknown, ground arith)
  ]
]

-- The one name "all" selects the whole corpus. For other names the result is one surface of the
-- corpus for each name, in their order, or an error that gives a requested name that no surface
-- has and lists the names there are.
pub select_surfaces_complete :
    (p : Profiles) (ns : List String)
    → ((is_all ns ≡ true) × (select_surfaces p ns ≡ ok p.surfaces))
      ⊎ ((is_all ns ≡ false) × (Found p ns ⊎ Unknown p ns))
unfolding select_surfaces
select_surfaces_complete p ns = elim (Bool-cases (is_all ns)) [
  | inl h ↦ inl (h, ground arith)
  | inr h ↦ elim (pick_complete p.surfaces ns) [
    | inl (out, picked, chosen) ↦ inr (h, inl (out, ground arith, chosen))
    | inr (n, m, unknown, refused) ↦ inr (h, inr (n, m, unknown, ground arith))
  ]
]

pub select_surfaces-all : (p : Profiles) → select_surfaces p ("all" ∷ []) ≡ ok p.surfaces
unfolding select_surfaces
select_surfaces-all p = refl
