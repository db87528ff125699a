-- ===== src/Mcp/Laws.antt =====
-- How many requests an MCP call sends, and where its answer comes from.
use aoa_conformance.Prelude.{
  String, ◌≡◌, refl, Bool, true, false, ◌⊎◌, inl, inr, Option, none, some, List, [], not, is_empty,
  if◌then◌else◌, ◌==◌, ◌||◌, ltb, arith,
}
use aoa_conformance.Prelude.Int.{eqℤ}
use aoa_conformance.Prelude.Result.{Result, ok, err}
use aoa_conformance.Http.{Response, Transport}
use aoa_conformance.Mcp.{
  unknown, modern, legacy, McpInput, McpResult, JsonRpcError, Codec, version_modern, version_legacy,
  is_era_ambiguous, modern_error, highest_modern_version, err_unsupported_protocol_version,
  post_modern, post_legacy, fall_back, retried, on_modern_error, on_response, on_first, mcp_request,
  or_default,
}

module _ {W : Type 0} (send : Transport W) (codec : Codec) (input : McpInput) where
  -- The response was given to a request of this call, on the version that the result names.
  abbrev pub Obtained : McpResult → Type 0
  Obtained res =
      (before : W) × (after : W) × ((post_modern send codec input res.version before
          ≡ (ok res.response, after))
        ⊎ ((res.version ≡ version_legacy)
            × (post_legacy send codec input before ≡ (ok res.response, after))))

  -- A request of this call to the modern protocol that was answered with 400, 404 or 405 and with a
  -- JSON-RPC error of the specification.
  pub record IsRefused : Type 0 where
    pub version : String
    pub before : W
    pub after : W
    pub response : Response
    pub asked : post_modern send codec input version before ≡ (ok response, after)
    pub ambiguous : is_era_ambiguous response.status_code ≡ true
    pub cause : JsonRpcError
    pub recognised : modern_error codec response.body ≡ some cause

  -- What the era rests on: a modern one on a success of the modern protocol or on an error of the
  -- specification, a legacy one on a success of the handshake, an unknown one on no success.
  pub data EraHolds (res : McpResult) : Type 0 where
    modern_success :
        (before after : W)
        → res.era ≡ modern
        → post_modern send codec input res.version before ≡ (ok res.response, after)
        → ltb res.response.status_code 300 ≡ true
        → res.supported_versions ≡ []
        → EraHolds res
    modern_refusal : res.era ≡ modern → IsRefused → EraHolds res
    legacy_era :
        (before after : W)
        → res.era ≡ legacy
        → res.version ≡ version_legacy
        → post_legacy send codec input before ≡ (ok res.response, after)
        → ltb res.response.status_code 300 ≡ true
        → res.supported_versions ≡ []
        → EraHolds res
    unknown_era :
        res.era ≡ unknown
        → ltb res.response.status_code 300 ≡ false
        → res.supported_versions ≡ []
        → EraHolds res

  EraHolds-legacy_if :
      (r : Response) (before after : W) (b : Bool)
      → post_legacy send codec input before ≡ (ok r, after)
      → ltb r.status_code 300 ≡ b
      → EraHolds (record {
        response = r;
        era = if b then legacy else unknown;
        version = version_legacy;
        supported_versions = [];
      })
  EraHolds-legacy_if r before after true asked h = legacy_era before after refl refl asked h refl
  EraHolds-legacy_if r before after false asked h = unknown_era refl h refl

  abbrev Good : McpResult → Type 0
  Good res = Obtained res × EraHolds res

  abbrev Yields : Result String McpResult × W → Type 0
  Yields (ok res, w) = Good res
  Yields (err e, w) = Unit

  fall_back-Good :
      (first : Response) (version : String) (before after : W)
      → post_modern send codec input version before ≡ (ok first, after)
      → is_era_ambiguous first.status_code ≡ true
      → (r : Result String Response × W) → post_legacy send codec input after ≡ r
      → Yields (fall_back send codec first version r)
  unfolding fall_back
  fall_back-Good first version before after sent doubtful (err e, w) asked =
      ((before, after, inl sent), unknown_era refl (ground arith) refl)
  fall_back-Good first version before after sent doubtful (ok r, w) asked = (
    (after, w, inr (refl, asked)),
    EraHolds-legacy_if r after w (ltb r.status_code 300) asked refl,
  )

  retried-Good :
      (first : Response) (version retry : String) (supported : List String) (before after : W)
      → post_modern send codec input version before ≡ (ok first, after)
      → IsRefused
      → (r : Result String Response × W) → post_modern send codec input retry after ≡ r
      → Yields (retried send codec first version retry supported r)
  unfolding retried
  retried-Good first version retry supported before after sent refused (err e, w) asked =
      ((before, after, inl sent), modern_refusal refl refused)
  retried-Good first version retry supported before after sent refused (ok r, w) asked =
      ((after, w, inl asked), modern_refusal refl refused)

  Yields-if :
      (b : Bool) (x y : Result String McpResult × W)
      → Yields x
      → (b ≡ false → Yields y)
      → Yields (if b then x else y)
  Yields-if true x y hx hy = hx
  Yields-if false x y hx hy = hy refl

  module _ (first : Response) (version : String) (before after : W)
      (sent : post_modern send codec input version before ≡ (ok first, after)) where
    on_modern_error-Good :
        (e : JsonRpcError)
        → IsRefused
        → Yields (on_modern_error send codec input version first e after)
    unfolding on_modern_error
    on_modern_error-Good e refused =
        let retry = highest_modern_version e.supported in
        let kept : (supported : List String)
            → Good (record {
              response = first;
              era = modern;
              version = version;
              supported_versions = supported;
            }) =
          λ supported. ((before, after, inl sent), modern_refusal refl refused) in
        Yields-if (not (eqℤ e.code err_unsupported_protocol_version)) _ _ (kept []) (λ _.
          Yields-if (is_empty retry || retry == version) _ _ (kept e.supported) (λ _.
            retried-Good first version retry e.supported before after sent refused
              (post_modern send codec input retry after) refl))

    settled-Good :
        (b : Bool)
        → ltb first.status_code 300 ≡ b
        → Good (record {
          response = first;
          era = if b then modern else unknown;
          version = version;
          supported_versions = [];
        })
    settled-Good true h = ((before, after, inl sent), modern_success before after refl sent h refl)
    settled-Good false h = ((before, after, inl sent), unknown_era refl h refl)

    recognised-Good :
        (o : Option JsonRpcError)
        → is_era_ambiguous first.status_code ≡ true
        → modern_error codec first.body ≡ o
        → Yields (elim o [
          | none ↦ fall_back send codec first version (post_legacy send codec input after)
          | some e ↦ on_modern_error send codec input version first e after
        ])
    recognised-Good none doubtful h =
        fall_back-Good first version before after sent doubtful (post_legacy send codec input after)
          refl
    recognised-Good (some e) doubtful h = on_modern_error-Good e (record {
      version = version;
      before = before;
      after = after;
      response = first;
      asked = sent;
      ambiguous = doubtful;
      cause = e;
      recognised = h;
    })

    on_response-Good : Yields (on_response send codec input version first after)
    unfolding on_response
    on_response-Good =
        Yields-if (not (is_era_ambiguous first.status_code)) _ _
          (settled-Good (ltb first.status_code 300) refl)
          (λ doubtful. recognised-Good (modern_error codec first.body) (ground arith) refl)

  on_first-Good :
      (version : String) (w : W) (r : Result String Response × W)
      → post_modern send codec input version w ≡ r
      → Yields (on_first send codec input version r)
  unfolding on_first
  on_first-Good version w (err e, w') sent = tt
  on_first-Good version w (ok r, w') sent = on_response-Good r version w w' sent

  Yields-cases :
      (r : Result String McpResult × W)
      → Yields r
      → ((e : String) × (r.0 ≡ err e))
        ⊎ ((res : McpResult) × (r.0 ≡ ok res) × Obtained res × EraHolds res)
  Yields-cases (err e, w) h = inl (e, refl)
  Yields-cases (ok res, w) h = inr (res, refl, h.0, h.1)

  -- A call ends in an error, or with a response that was given to one of its own requests, on the
  -- version that the result names. A modern era rests on a success of a modern request or on an
  -- answer of 400, 404 or 405 with an error of the specification, a legacy era on a success of the
  -- legacy handshake, and an unknown era comes with no success; versions that the server listed come
  -- only with such an error.
  pub mcp_request-Obtained :
      (w : W)
      → ((e : String) × ((mcp_request send codec input w).0 ≡ err e))
        ⊎ ((res : McpResult) × ((mcp_request send codec input w).0 ≡ ok res)
            × Obtained res
            × EraHolds res)
  unfolding mcp_request
  mcp_request-Obtained w =
      let version = or_default input.protocol_version version_modern in
      Yields-cases _ (on_first-Good version w (post_modern send codec input version w) refl)
