-- ===== src/Register/Results.antt =====
-- What a registration that succeeds has issued.
use aoa_conformance.Prelude.{
  String, ◌≡◌, refl, Bool, true, false, ◌⊎◌, inl, inr, arith, not, is_empty, if◌then◌else◌, ◌/◌,
}
use aoa_conformance.Prelude.Result.{Result, ok, err}
use aoa_conformance.Http.{HttpRequest, Response, Transport, perform}
use aoa_conformance.Register.{
  RegisterInput, RegisterResult, RegisterFailure, Library, is_success, accept, read_registration,
  on_registration, register, resolve_against,
}

module _ {W : Type 0} (library : Library) (send : Transport W) (input : RegisterInput) (w : W) where
  -- What stands behind an issued client: the answer that the server gave to the one request.
  pub record IsIssued (out : RegisterResult) : Type 0 where
    pub request : HttpRequest
    pub line : String
    pub response : Response
    pub after : W
    pub posted : request.method ≡ "POST"
    pub addressed : request.url ≡ input.registration_endpoint
    pub answered : perform send request line w ≡ (ok response, after)
    pub succeeded : response.status_code / 100 ≡ 2
    pub document : RegisterResult
    pub decoded : library.decode_client response.body ≡ ok document
    pub named : is_empty out.client_id ≡ false
    pub same_client : out.client_id ≡ document.client_id
    pub same_secret : out.client_secret ≡ document.client_secret
    pub kept_uri :
        out.registration_client_uri
        ≡ resolve_against library input.registration_endpoint document.registration_client_uri
    pub kept_evidence : out.evidence ≡ response.evidence

  abbrev pub Issues : Result RegisterFailure RegisterResult → Type 0
  Issues x =
      ((f : RegisterFailure) × (x ≡ err f)) ⊎ ((out : RegisterResult) × (x ≡ ok out) × IsIssued out)

  Issues-if :
      (b : Bool) (x y : Result RegisterFailure RegisterResult)
      → Issues x
      → (b ≡ false → Issues y)
      → Issues (if b then x else y)
  Issues-if true x y hx hy = hx
  Issues-if false x y hx hy = hy refl

  module _ (request : HttpRequest) (line : String) (r : Response) (after : W)
      (posted : request.method ≡ "POST") (addressed : request.url ≡ input.registration_endpoint)
      (answered : perform send request line w ≡ (ok r, after)) where
    accept-Issues :
        (x : Result String RegisterResult)
        → is_success r.status_code ≡ true
        → library.decode_client r.body ≡ x
        → Issues (accept library input.registration_endpoint r x)
    unfolding accept
    accept-Issues (err e) good decoded = inl (_, refl)
    accept-Issues (ok doc) good decoded =
        Issues-if (is_empty doc.client_id) _ _ (inl (_, refl)) (λ named. inr (
          _,
          refl,
          record {
            request = request;
            line = line;
            response = r;
            after = after;
            posted = posted;
            addressed = addressed;
            answered = answered;
            succeeded = ground arith;
            document = doc;
            decoded = decoded;
            named = named;
            same_client = refl;
            same_secret = refl;
            kept_uri = refl;
            kept_evidence = refl;
          },
        ))

    read_registration-Issues : Issues (read_registration library input.registration_endpoint r)
    unfolding read_registration
    read_registration-Issues =
        Issues-if (not (is_success r.status_code)) _ _ (inl (_, refl))
          (λ bad. accept-Issues (library.decode_client r.body) (ground arith) refl)

  -- A registration fails, or the client that it returns has an id, was decoded from the answer that
  -- the server gave to a POST to the registration endpoint, with a status from 200 to 299, keeps that
  -- answer as evidence, and has its management address resolved against the registration endpoint.
  pub register-Issues : Issues (register library send input w).0
  unfolding register
  register-Issues = of_answer _ _ refl refl _ refl
    where
      of_answer :
          (request : HttpRequest) (line : String)
          → request.method ≡ "POST"
          → request.url ≡ input.registration_endpoint
          → (x : Result String Response × W) → perform send request line w ≡ x
          → Issues (on_registration library send input.registration_endpoint x).0
      of_answer request line posted addressed (err e, after) h = inl (_, refl)
      of_answer request line posted addressed (ok r, after) h =
          read_registration-Issues request line r after posted addressed h
