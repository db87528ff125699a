-- ===== src/Discover/Results.antt =====
-- What a discovery that reports no error has established.
use aoa_conformance.Prelude.{
  String, ◌≡◌, refl, Bool, true, false, ◌⊎◌, inl, inr, Option, none, some, List, [], ◌∷◌, arith,
  not, is_empty, is_some, nat_eq, Option-cases, if◌then◌else◌,
}
use aoa_conformance.Prelude.Lists.{All}
use aoa_conformance.Prelude.Result.{Result, ok, err}
use aoa_conformance.Prelude.Scan.{trim_slashes}
use aoa_conformance.Prelude.Text.{◌&◌}
use aoa_conformance.Http.{Response, Transport, get}
use aoa_conformance.Mcp.{McpResult, Codec, mcp_request}
use aoa_conformance.Discover.{
  AsMetadata, Decoder, DiscoverInput, Discovery, Found, fetch_from, fetch_as_metadata, as_answer,
  from_issuer, from_servers, on_prm, on_call, discover, with_metadata, call_of, well_known_suffixes,
  from_call, or_next, nothing_resolved,
}

module _ {W : Type 0} (send : Transport W) (codec : Codec) (decoder : Decoder) where
  -- The two paths of RFC 8414 and of OpenID Connect discovery.
  abbrev IsWellKnown : String → Type 0
  IsWellKnown suffix =
      (suffix ≡ "/.well-known/oauth-authorization-server")
      ⊎ (suffix ≡ "/.well-known/openid-configuration")

  -- A document that the issuer served with status 200 and that decodes to `meta`.
  pub record Served (issuer : String) (meta : AsMetadata) (raw : String) : Type 0 where
    pub suffix : String
    pub well_known : IsWellKnown suffix
    pub before : W
    pub after : W
    pub response : Response
    pub asked : get send (trim_slashes issuer & suffix) before ≡ (ok response, after)
    pub status_ok : nat_eq response.status_code 200 ≡ true
    pub body : response.body ≡ raw
    pub decoded : decoder.decode_as raw ≡ some meta
    pub has_token_endpoint : is_empty meta.token_endpoint ≡ false

  -- Endpoints that rest on a document of a named issuer.
  pub record IsUsable (d : Found) : Type 0 where
    pub meta : AsMetadata
    pub issuer_named : is_empty d.resolved.issuer ≡ false
    pub served : Served d.resolved.issuer meta d.resolved.raw_as_metadata
    pub token_endpoint : d.resolved.token_endpoint ≡ meta.token_endpoint
    pub authorization_endpoint : d.resolved.authorization_endpoint ≡ meta.authorization_endpoint
    pub jwks_uri : d.resolved.jwks_uri ≡ meta.jwks_uri
    pub registration_endpoint : d.resolved.registration_endpoint ≡ meta.registration_endpoint
    pub introspection_endpoint : d.resolved.introspection_endpoint ≡ meta.introspection_endpoint
    pub revocation_endpoint : d.resolved.revocation_endpoint ≡ meta.revocation_endpoint
    pub par_endpoint :
        d.resolved.pushed_authorization_request_endpoint
        ≡ meta.pushed_authorization_request_endpoint

  abbrev pub IsSound : Discovery → Type 0
  IsSound x =
      (is_some x.failure ≡ true)
      ⊎ ((d : Found) × (x ≡ record { found = some d; failure = none }) × IsUsable d)

  abbrev Fetched : String → Result String (AsMetadata × String) → Type 0
  Fetched issuer (ok (meta, raw)) = Served issuer meta raw
  Fetched issuer (err e) = Unit

  answered :
      (issuer suffix : String) (before after : W) (reply : Result String Response)
      (found : AsMetadata × String)
      → IsWellKnown suffix
      → get send (trim_slashes issuer & suffix) before ≡ (reply, after)
      → as_answer send codec decoder reply ≡ some found
      → Fetched issuer (ok found)
  unfolding as_answer
  answered issuer suffix before after (ok r) (meta, raw) known asked h =
      elim (Option-cases (decoder.decode_as r.body)) [
        | inl unreadable ↦
            let wrong : Path (Option (AsMetadata × String)) none (some (meta, raw)) =
              ground arith in
            cc
        | inr (m, readable) ↦
            let same : m ≡ meta = ground arith in
            let same_body : r.body ≡ raw = ground arith in
            record {
              suffix = suffix;
              well_known = known;
              before = before;
              after = after;
              response = r;
              asked = asked;
              status_ok = ground arith;
              body = same_body;
              decoded = ground (arith, same, same_body);
              has_token_endpoint = ground (arith, same);
            }
      ]
  answered issuer suffix before after (err e) (meta, raw) known asked h = cc

  fetch_from-Fetched :
      (issuer : String) (suffixes : List String) (w : W)
      → All IsWellKnown suffixes
      → Fetched issuer (fetch_from send codec decoder issuer suffixes w).0
  unfolding fetch_from
  fetch_from-Fetched issuer [] w known = tt
  fetch_from-Fetched issuer (suffix ∷ suffixes) w known =
      let reply = get send (trim_slashes issuer & suffix) w in
      by_answer (fetch_from-Fetched issuer suffixes reply.1 known.1)
        (as_answer send codec decoder reply.0) refl
    where
      by_answer :
          Fetched issuer
            (fetch_from send codec decoder issuer suffixes
              (get send (trim_slashes issuer & suffix) w).1).0
          → (o : Option (AsMetadata × String))
          → as_answer send codec decoder (get send (trim_slashes issuer & suffix) w).0 ≡ o
          → Fetched issuer
              (or_next send codec decoder o (get send (trim_slashes issuer & suffix) w).1 (
                fetch_from send codec decoder issuer suffixes
                  (get send (trim_slashes issuer & suffix) w).1)).0
      by_answer later none h = later
      by_answer later (some found) h =
          answered issuer suffix w _ (get send (trim_slashes issuer & suffix) w).0 found known.0
            refl h

  IsSound-if :
      (b : Bool) (x y : Discovery × W)
      → IsSound x.0
      → (b ≡ false → IsSound y.0)
      → IsSound (if b then x else y).0
  IsSound-if true x y hx hy = hx
  IsSound-if false x y hx hy = hy refl

  with_metadata-IsSound :
      (d : Found) (r : Result String (AsMetadata × String) × W)
      → is_empty d.resolved.issuer ≡ false
      → Fetched d.resolved.issuer r.0
      → IsSound (with_metadata send codec decoder d r).0
  unfolding with_metadata
  with_metadata-IsSound d (err e, w) named h = inl refl
  with_metadata-IsSound d (ok (meta, raw), w) named h = inr (
    _,
    refl,
    record {
      meta = meta;
      issuer_named = named;
      served = h;
      token_endpoint = refl;
      authorization_endpoint = refl;
      jwks_uri = refl;
      registration_endpoint = refl;
      introspection_endpoint = refl;
      revocation_endpoint = refl;
      par_endpoint = refl;
    },
  )

  from_issuer-IsSound :
      (d : Found) (issuer : String) (w : W) → IsSound (from_issuer send codec decoder d issuer w).0
  unfolding from_issuer fetch_as_metadata
  from_issuer-IsSound d issuer w = IsSound-if (is_empty issuer) _ _ (inl refl) (λ named.
      with_metadata-IsSound (record d { resolved = record (d.resolved) { issuer = issuer } })
        (fetch_as_metadata send codec decoder issuer w) named
        (fetch_from-Fetched issuer well_known_suffixes w (inl refl, (inr refl, tt))))

  on_prm-IsSound :
      (d : Found) (r : Result String Response × W) → IsSound (on_prm send codec decoder d r).0
  unfolding on_prm from_servers
  on_prm-IsSound d (err e, w) = inl refl
  on_prm-IsSound d (ok prm, w) = by_servers _ (decoder.decode_prm prm.body).authorization_servers
    where
      by_servers :
          (d : Found) (servers : List String)
          → IsSound (from_servers send codec decoder d servers w).0
      by_servers d [] = inl refl
      by_servers d (issuer ∷ others) = from_issuer-IsSound d issuer w

  on_call-IsSound :
      (mcp_url : String) (r : Result String McpResult × W)
      → IsSound (on_call send codec decoder mcp_url r).0
  unfolding on_call
  on_call-IsSound mcp_url (err e, w) = inl refl
  on_call-IsSound mcp_url (ok res, w) = on_prm-IsSound (from_call res) _

  -- A discovery ends in an error, or each of its endpoints is that of one metadata document, which has
  -- a token endpoint and which the named issuer served with status 200 at one of the two well-known
  -- paths.
  pub discover-IsSound :
      (input : DiscoverInput) (w : W) → IsSound (discover send codec decoder input w).0
  unfolding discover
  discover-IsSound input w =
      IsSound-if (not (is_empty input.mcp_url)) _ _
        (on_call-IsSound input.mcp_url (mcp_request send codec (call_of input.mcp_url) w))
        (λ _.
          from_issuer-IsSound (record { resolved = nothing_resolved; www_authenticate = "" })
            input.issuer w)
