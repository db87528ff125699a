-- ===== src/Http.antt =====
-- probe/http.go: requests, captured responses and forms. The network is a parameter: `send` is
-- what `http.Client.Do` and the read of at most 1 MiB of the body give, in a state `W` of
-- whatever is at the other end; a request that cannot be built is an error of it. Header names are
-- in the canonical spelling that `Set` and `Get` give them, such as Www-Authenticate; the map of an
-- answer's headers is in the order of its rendering.
pub mod Form
pub mod ClientAuth
pub mod Exchange
use aoa_conformance.Prelude.Lists.{length, length-append}
use aoa_conformance.Prelude.{
  ◌+◌, ◌≡◌, refl, arith, ◌++◌, ℕ, String, List, [], ◌∷◌, ◌==◌, if◌then◌else◌,
}
use aoa_conformance.Prelude.Result.{Result, ok, err}
use aoa_conformance.Prelude.Text.{◌&◌, join}
use aoa_conformance.Prelude.Decimal.{itoa}

abbrev pub Headers : Type 0
Headers = List (String × String)

pub record HttpRequest : Type 0 where
  pub method : String
  pub url : String
  pub headers : Headers
  pub body : String

-- The headers of an answer: the values of each name.
abbrev pub ReplyHeaders : Type 0
ReplyHeaders = List (String × List String)

-- What comes back from the network.
pub record HttpReply : Type 0 where
  pub status_code : ℕ
  pub headers : ReplyHeaders
  pub body : String

-- `probe.Response`, without the cache of its JSON.
pub record Response : Type 0 where
  pub status_code : ℕ
  pub headers : ReplyHeaders
  pub body : String
  pub evidence : String

abbrev pub first_header : List String → String
first_header [] = ""
first_header (v ∷ vs) = v

-- `Header.Get`: the first value, or "".
abbrev pub get_header : String → ReplyHeaders → String
get_header key [] = ""
get_header key ((k, vs) ∷ hs) = if k == key then first_header vs else get_header key hs

-- A transport, over the states of the other end; an error is its text.
abbrev pub Transport : Type 0 → Type 0
Transport W = HttpRequest → W → Result String HttpReply × W

-- A call that may send requests.
abbrev pub Call : Type 0 → Type 0 → Type 0
Call W A = W → Result String A × W

header_lines : ReplyHeaders → String
unfolding join
header_lines [] = ""
header_lines ((k, vs) ∷ hs) = k & ": " & join ", " vs & "\n" & header_lines hs

-- The text that `do` renders for offline audit.
render_evidence : String → HttpReply → String
unfolding header_lines
render_evidence req_line r =
    req_line
    & "\n\nHTTP "
    & itoa r.status_code
    & "\n"
    & header_lines r.headers
    & "\n"
    & r.body
    & "\n"

capture : String → HttpReply → Response
unfolding render_evidence
capture req_line r = record {
  status_code = r.status_code;
  headers = r.headers;
  body = r.body;
  evidence = render_evidence req_line r;
}

module _ {W : Type 0} (send : Transport W) where
  captured : String → Result String HttpReply × W → Result String Response × W
  captured req_line (ok r, w) = (ok (capture req_line r), w)
  captured req_line (err e, w) = (err e, w)

  -- `do`
  unfoldable pub perform : HttpRequest → String → Call W Response
  unfolding captured capture
  perform req req_line w = captured req_line (send req w)

  -- `Get`
  unfoldable pub get : String → Call W Response
  unfolding perform
  get u =
      perform
        (record {
          method = "GET";
          url = u;
          headers = ("Accept", "application/json") ∷ [];
          body = "";
        })
        ("GET " & u)

  -- `GetWithHeaders`
  pub get_with_headers : String → Headers → Call W Response
  unfolding perform
  get_with_headers u extra =
      perform
        (record {
          method = "GET";
          url = u;
          headers = ("Accept", "application/json") ∷ extra;
          body = "";
        })
        ("GET " & u)

  get_with_headers-nil : (u : String) (w : W) → get_with_headers u [] w ≡ get u w
  unfolding get_with_headers get
  get_with_headers-nil u w = refl

  -- `PostForm`, on the encoded form.
  unfoldable pub post_form : String → String → Headers → Call W Response
  unfolding perform
  post_form endpoint form extra =
      perform
        (record {
          method = "POST";
          url = endpoint;
          headers =
              ("Content-Type", "application/x-www-form-urlencoded")
              ∷ ("Accept", "application/json")
              ∷ extra;
          body = form;
        })
        ("POST " & endpoint & "\nform: " & form)

-- A transport that records the requests, in front of any server that answers by their history.
abbrev pub recording :
    (List HttpRequest → HttpRequest → Result String HttpReply) → Transport (List HttpRequest)
recording server req log = (server log req, log ++ req ∷ [])

-- A request is recorded once, whatever the answer.
pub length-perform :
    (server : List HttpRequest → HttpRequest → Result String HttpReply) (req : HttpRequest)
    (line : String) (log : List HttpRequest)
    → length (perform (recording server) req line log).1 ≡ length log + 1
unfolding perform
length-perform server req line log = ground (arith, length-append log (req ∷ []))
