-- ===== src/FakeRs/Presenting.antt =====
-- internal/fakeas/rs.go: by which method a request presents its token (`extractToken`).
use aoa_conformance.Prelude.Text.{◌&◌}
use aoa_conformance.Prelude.Scan.{cut}
use aoa_conformance.Prelude.Scan.Spaces.{
  HasNoSpace, cut-append, append-cut, cut-HasNoSpace, HasNoSpace-cut,
}
use aoa_conformance.Prelude.{
  Option-cases, String, ◌≡◌, ◌≢◌, ap, sym, ◌∙◌, ◌==◌, is_empty, ◌⊎◌, inl, inr, false, Option, some,
  arith, eq_iff, Bool-cases,
}
use aoa_conformance.Http.Form.{get_value}
use aoa_conformance.FakeRs.{present_or_none, or_else, header_token, Rs, Presented, extract_token}

abbrev pub IsOpen : Rs → Type 0
IsOpen rs =
    (rs.require_bearer_method ≢ "header")
    × (rs.require_bearer_method ≢ "body")
    × (rs.require_bearer_method ≢ "query")

-- The credential of an authorization header: what follows its first space, or the whole header if it
-- has none.
abbrev pub IsCredential : String → String → Type 0
IsCredential header token =
    (HasNoSpace header × (header ≡ token))
    ⊎ ((scheme : String) × HasNoSpace scheme × (header ≡ scheme & " " & token))

-- How a request presents a token: by the method that the server requires, or, where it requires none
-- of the three, by the first of them that has one.
pub data IsPresented (rs : Rs) (r : Presented) (token : String) : Type 0 where
  in_header :
      (rs.require_bearer_method ≡ "header") ⊎ IsOpen rs
      → IsCredential r.authorization token
      → IsPresented rs r token
  in_body :
      (rs.require_bearer_method ≡ "body") ⊎ (IsOpen rs × IsCredential r.authorization "")
      → get_value "access_token" r.posted_form ≡ token
      → IsPresented rs r token
  in_query :
      (rs.require_bearer_method ≡ "query")
        ⊎ (IsOpen rs
            × IsCredential r.authorization ""
            × (get_value "access_token" r.posted_form ≡ ""))
      → get_value "access_token" r.query ≡ token
      → IsPresented rs r token

present_or_none-some :
    (s token : String) → present_or_none s ≡ some token → (s ≡ token) × (is_empty token ≡ false)
present_or_none-some s token h = elim (Bool-cases (is_empty s)) [
  | inl empty ↦ absurd (ground arith)
  | inr held ↦ let same : s ≡ token = ground arith in (same, ap is_empty (sym same) ∙ held)
]

some-present_or_none :
    (s token : String) → s ≡ token → is_empty token ≡ false → present_or_none s ≡ some token
some-present_or_none s token same held = rw same (ground (arith, held))

or_else-some :
    (s token : String) (later : Option String)
    → or_else (present_or_none s) later ≡ some token
    → ((s ≡ token) × (is_empty token ≡ false)) ⊎ ((s ≡ "") × (later ≡ some token))
or_else-some s token later h = elim (Bool-cases (is_empty s)) [
  | inl empty ↦ inr ((eq_iff s "").0 empty, ground arith)
  | inr held ↦ inl (present_or_none-some s token (ground arith))
]

header_token-IsCredential :
    (r : Presented) (token : String) → header_token r ≡ token → IsCredential r.authorization token
unfolding header_token
header_token-IsCredential r token h = elim (Option-cases (cut " " r.authorization)) [
  | inl whole ↦ inl (cut-HasNoSpace r.authorization whole, ground arith)
  | inr ((scheme, rest), split) ↦
      let (joined, free) = append-cut r.authorization scheme rest split in
      let same : rest ≡ token = ground arith in
      inr (scheme, cut-HasNoSpace scheme free, joined ∙ ap (λ (x : String). scheme & " " & x) same)
]

IsCredential-header_token :
    (r : Presented) (token : String) → IsCredential r.authorization token → header_token r ≡ token
unfolding header_token
IsCredential-header_token r token (inl (free, same)) =
    let whole = HasNoSpace-cut r.authorization free in ground arith
IsCredential-header_token r token (inr (scheme, free, joined)) =
    let split : cut " " r.authorization ≡ some (scheme, token) =
      ap (cut " ") joined ∙ cut-append scheme token (HasNoSpace-cut scheme free) in
    ground arith

module _ (rs : Rs) (r : Presented) where
  abbrev method : String
  method = rs.require_bearer_method

  abbrev body_token : String
  body_token = get_value "access_token" r.posted_form

  abbrev query_token : String
  query_token = get_value "access_token" r.query

  differs : (name : String) → (method == name) ≡ false → method ≢ name
  differs name h e = let same = (eq_iff method name).1 e in ground arith

  not_equal : (name : String) → method ≢ name → (method == name) ≡ false
  not_equal name d = elim (Bool-cases (method == name)) [
    | inl e ↦ absurd (d ((eq_iff method name).0 e))
    | inr h ↦ h
  ]

  any-IsPresented :
      (token : String)
      → IsOpen rs
      → or_else
          (present_or_none (header_token r))
          (or_else (present_or_none body_token) (present_or_none query_token))
        ≡ some token
      → IsPresented rs r token × (is_empty token ≡ false)
  any-IsPresented token free h = elim (or_else-some (header_token r) token _ h) [
    | inl (same, held) ↦ (in_header (inr free) (header_token-IsCredential r token same), held)
    | inr (no_header, rest) ↦ elim (or_else-some body_token token _ rest) [
      | inl (same, held) ↦
          (in_body (inr (free, header_token-IsCredential r "" no_header)) same, held)
      | inr (no_body, last) ↦
          let (same, held) = present_or_none-some query_token token last in
          (in_query (inr (free, header_token-IsCredential r "" no_header, no_body)) same, held)
    ]
  ]

  pub extract_token-IsPresented :
      (token : String)
      → extract_token rs r ≡ some token
      → IsPresented rs r token × (is_empty token ≡ false)
  unfolding extract_token
  extract_token-IsPresented token h = elim (Bool-cases (method == "header")) [
    | inl e ↦
        let (same, held) = present_or_none-some (header_token r) token (ground arith) in
        (
          in_header (inl ((eq_iff method "header").0 e)) (header_token-IsCredential r token same),
          held,
        )
    | inr e ↦ elim (Bool-cases (method == "body")) [
      | inl b ↦
          let (same, held) = present_or_none-some body_token token (ground arith) in
          (in_body (inl ((eq_iff method "body").0 b)) same, held)
      | inr b ↦ elim (Bool-cases (method == "query")) [
        | inl q ↦
            let (same, held) = present_or_none-some query_token token (ground arith) in
            (in_query (inl ((eq_iff method "query").0 q)) same, held)
        | inr q ↦
            any-IsPresented token (differs "header" e, differs "body" b, differs "query" q)
              (ground arith)
      ]
    ]
  ]

  extract_token-any :
      IsOpen rs
      → extract_token rs r
        ≡ or_else
            (present_or_none (header_token r))
            (or_else (present_or_none body_token) (present_or_none query_token))
  unfolding extract_token
  extract_token-any (h, b, q) =
      ground (arith, not_equal "header" h, not_equal "body" b, not_equal "query" q)

  pub IsPresented-extract_token :
      (token : String)
      → is_empty token ≡ false
      → IsPresented rs r token
      → extract_token rs r ≡ some token
  unfolding extract_token
  IsPresented-extract_token token held (in_header (inl m) same) =
      rw m
        (some-present_or_none (header_token r) token (IsCredential-header_token r token same) held)
  IsPresented-extract_token token held (in_header (inr free) same) =
      rw (extract_token-any free, IsCredential-header_token r token same) (ground (arith, held))
  IsPresented-extract_token token held (in_body (inl m) same) =
      rw m (some-present_or_none body_token token same held)
  IsPresented-extract_token token held (in_body (inr (free, no_header)) same) =
      rw (extract_token-any free, IsCredential-header_token r "" no_header, same)
        (ground (arith, held))
  IsPresented-extract_token token held (in_query (inl m) same) =
      rw m (some-present_or_none query_token token same held)
  IsPresented-extract_token token held (in_query (inr (free, no_header, no_body)) same) =
      rw (extract_token-any free, IsCredential-header_token r "" no_header, no_body, same)
        (ground (arith, held))
