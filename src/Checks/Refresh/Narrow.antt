-- ===== src/Checks/Refresh/Narrow.antt =====
-- conformance/checks_sep2207.go: what a verdict of the refresh check says of the answer.
use aoa_conformance.Prelude.{
  String, ◌≤◌, ◌≡◌, ◌↔◌, refl, sym, ap, ◌∙◌, true, false, List, [], ◌∷◌, ◌++◌, ltb, ◌==◌, inl, inr,
  arith, eq_iff, Bool-cases,
}
use mathlib.Core.List.{Memᴰ}
use aoa_conformance.Prelude.Lists.{length, length-append}
use aoa_conformance.Prelude.Result.{Result, ok, err}
use aoa_conformance.Prelude.Scan.{fields}
use aoa_conformance.Model.{pass, Target, hint, contains}
use aoa_conformance.Http.{Response}
use aoa_conformance.Http.Form.{form_string, set_value}
use aoa_conformance.Prelude.Text.{join}
use mathlib.Core.Path.{subst}
use aoa_conformance.Checks.{Kit, post, client_auth_of}
use aoa_conformance.Checks.Refresh.{
  all_but_last, narrowed_scope, stays_within, returned_scope, judge_refresh, send_refresh,
  refresh_form, run_refresh_scope,
}

-- One scope was left out, the last one.
abbrev pub IsNarrowed : List String → List String → Type 0
IsNarrowed narrowed granted = (s : String) × (granted ≡ narrowed ++ s ∷ [])

all_but_last-IsNarrowed :
    (s : String) (rest : List String) → IsNarrowed (all_but_last (s ∷ rest)) (s ∷ rest)
all_but_last-IsNarrowed s [] = (s, refl)
all_but_last-IsNarrowed s (u ∷ more) =
    let (dropped, e) = all_but_last-IsNarrowed u more in (dropped, ap (◌∷◌ s) e)

contains-Mem : (xs : List String) (want : String) → contains xs want ≡ true → Memᴰ want xs
contains-Mem [] want h = cc
contains-Mem (x ∷ xs) want h = elim (Bool-cases (x == want)) [
  | inl hit ↦ Memᴰ.head (sym ((eq_iff x want).0 hit))
  | inr miss ↦ Memᴰ.tail (contains-Mem xs want (ground arith))
]

Mem-contains : (xs : List String) (want : String) → Memᴰ want xs → contains xs want ≡ true
Mem-contains [] want m = elim m [ ]
Mem-contains (x ∷ xs) want (Memᴰ.head e) = ground (arith, eq_iff x want, e)
Mem-contains (x ∷ xs) want (Memᴰ.tail m) = ground (arith, Mem-contains xs want m)

-- Every scope of the second list is one of the first.
abbrev pub Covers : List String → List String → Type 0
Covers allowed returned = (s : String) → Memᴰ s returned → Memᴰ s allowed

stays_within-Covers :
    (allowed returned : List String)
    → stays_within allowed returned ≡ true
    → Covers allowed returned
stays_within-Covers allowed [] h s m = elim m [ ]
stays_within-Covers allowed (r ∷ rs) h s (Memᴰ.head e) =
    contains-Mem allowed s (ap (contains allowed) e ∙ ground arith)
stays_within-Covers allowed (r ∷ rs) h s (Memᴰ.tail m) =
    stays_within-Covers allowed rs (ground arith) s m

Covers-stays_within :
    (allowed returned : List String)
    → Covers allowed returned
    → stays_within allowed returned ≡ true
Covers-stays_within allowed [] c = refl
Covers-stays_within allowed (r ∷ rs) c = ground (
  arith,
  Mem-contains allowed r (c r (Memᴰ.head refl)),
  Covers-stays_within allowed rs (λ s m. c s (Memᴰ.tail m)),
)

-- What is left of a list without its last element is unique.
all_but_last-append : (xs : List String) (s : String) → all_but_last (xs ++ s ∷ []) ≡ xs
all_but_last-append [] s = refl
all_but_last-append (x ∷ []) s = refl
all_but_last-append (x ∷ y ∷ more) s = ap (◌∷◌ x) (all_but_last-append (y ∷ more) s)

abbrev granted_scopes : Target → List String
granted_scopes t = fields (hint "granted_scope" t.hints)

-- A refresh request for the scopes, with the client's authentication.
abbrev pub refresh_for :
    {W : Type 0} → Kit W → Target → List String → W → Result String Response × W
refresh_for kit t scopes w =
    post kit t.discovered.token_endpoint
      (client_auth_of kit t (
        form_string
          (("grant_type", "refresh_token")
            ∷ ("refresh_token", t.creds.refresh_token)
            ∷ ("scope", join " " scopes)
            ∷ [])
          []))
      w

-- A refresh for all granted scopes but the last one was answered, and given none outside these.
pub record IsHonored {W : Type 0} (kit : Kit W) (t : Target) (w : W) : Type 0 where
  pub narrowed : List String
  pub split : IsNarrowed narrowed (granted_scopes t)
  pub some_left : 1 ≤ length narrowed
  pub response : Response
  pub answered : (refresh_for kit t narrowed w).0 ≡ ok response
  pub within : Covers narrowed (fields (returned_scope kit response))

module _ {W : Type 0} (kit : Kit W) (t : Target) where
  send_refresh_lem : (w : W) → send_refresh kit t w ≡ refresh_for kit t (narrowed_scope t) w
  unfolding send_refresh refresh_form form_string set_value narrowed_scope
  send_refresh_lem w = refl

  judge_refresh-pass :
      (answer : Result String Response)
      → (judge_refresh kit t answer).status ≡ pass
      → (r : Response) × (answer ≡ ok r) × Covers (narrowed_scope t) (fields (returned_scope kit r))
  unfolding judge_refresh
  judge_refresh-pass (err e) h = absurd (ground arith)
  judge_refresh-pass (ok r) h = (
    r,
    refl,
    stays_within-Covers (narrowed_scope t) (fields (returned_scope kit r)) (ground arith),
  )

  Covers-judge_refresh :
      (answer : Result String Response) (r : Response)
      → answer ≡ ok r
      → Covers (narrowed_scope t) (fields (returned_scope kit r))
      → (judge_refresh kit t answer).status ≡ pass
  unfolding judge_refresh
  Covers-judge_refresh answer r e c =
      rw e
        (ground (arith, Covers-stays_within (narrowed_scope t) (fields (returned_scope kit r)) c))

  all_but_last_enough :
      (granted : List String)
      → ltb (length granted) 2 ≡ false
      → IsNarrowed (all_but_last granted) granted × (1 ≤ length (all_but_last granted))
  all_but_last_enough [] h = absurd (ground arith)
  all_but_last_enough (s ∷ []) h = absurd (ground arith)
  all_but_last_enough (s ∷ u ∷ more) h = (all_but_last-IsNarrowed s (u ∷ more), omega arith)

  -- The check of a refresh passes exactly when at least two scopes were granted, so that at least one
  -- is left without the last one, and the refresh request for those that are left got a response, of any
  -- status, whose scope, if any, names none but these.
  pub run_refresh_scope-pass_iff :
      (w : W) → ((run_refresh_scope kit t w).0.status ≡ pass) ↔ IsHonored kit t w
  unfolding run_refresh_scope narrowed_scope
  run_refresh_scope-pass_iff w = (
    (λ h.
        let enough : ltb (length (granted_scopes t)) 2 ≡ false = ground arith in
        let (split, some_left) = all_but_last_enough (granted_scopes t) enough in
        let (r, answered, within) = judge_refresh-pass (send_refresh kit t w).0 (ground arith) in
        record {
          narrowed = narrowed_scope t;
          split = split;
          some_left = some_left;
          response = r;
          answered = ap (λ x. x.0) (sym (send_refresh_lem w)) ∙ answered;
          within = within;
        }),
    λ honored.
        let (dropped, split) = honored.split in
        let enough : ltb (length (granted_scopes t)) 2 ≡ false = ground (
          arith,
          ap length split,
          length-append honored.narrowed (dropped ∷ []),
          honored.some_left,
        ) in
        let same : honored.narrowed ≡ narrowed_scope t =
          sym (ap all_but_last split ∙ all_but_last-append honored.narrowed dropped) in
        let answered : (send_refresh kit t w).0 ≡ ok honored.response =
          ap (λ x. x.0) (send_refresh_lem w)
          ∙ ap (λ scopes. (refresh_for kit t scopes w).0) (sym same)
          ∙ honored.answered in
        let within : Covers (narrowed_scope t) (fields (returned_scope kit honored.response)) =
          subst (λ scopes. Covers scopes (fields (returned_scope kit honored.response))) same
            honored.within in
        rw enough (Covers-judge_refresh (send_refresh kit t w).0 honored.response answered within),
  )
