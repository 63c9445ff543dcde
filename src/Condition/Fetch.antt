-- ===== src/Condition/Fetch.antt =====
-- src/picket/conditions/condition.py: `fetch`. The environment, the HTTP client and the JSON reader
-- are parameters; the client is closed in any case, which changes nothing here.
use mathlib.Core.List.{append-nil, append_assoc}
use picket_mcp.Prelude.{
  Bool-cases, inl, inr, ℕ, ◌+◌, ◌≤◌, Text, codes, text_eq, ◌≡◌, refl, sym, Option, none, some, List,
  [], ◌∷◌, ◌++◌, length, ltb, if◌then◌else◌, arith,
}
use picket_mcp.Core.Json.{Json}
use picket_mcp.Core.Models.{EndpointSpec}
use picket_mcp.Condition.Extract.{Observed, ok, observe_error, crash, ◌>>=◌}

-- What the client's stream gives: an HTTPError before the body, the chunks of the body with the
-- HTTPError that ends them if one does, or an exception that is no HTTPError.
pub data Response : Type 0 where
  http_error : Text → Response
  streamed : List (List ℕ) → Option Text → Response
  broken : Response

-- `loads` gives observe_error with the message of a JSONDecodeError or UnicodeDecodeError.
pub record Http (N : Type 0) : Type 0 where
  pub environ : Text → Option Text
  pub stream : Text → Text → List (Text × Text) → Json N → Response
  pub loads : List ℕ → Observed (Json N)
  pub repr : Text → Text

abbrev pub max_response_bytes : ℕ
max_response_bytes = 5000000

abbrev pub too_long : Text
too_long = codes "response exceeded 5000000 bytes"

abbrev pub fetch_failed : Text → Text
fetch_failed err = codes "fetch failed: " ++ err

-- headers[name] = value
unfoldable pub set_header : Text → Text → List (Text × Text) → List (Text × Text)
unfolding text_eq
set_header name value [] = (name, value) ∷ []
set_header name value ((n, v) ∷ headers) =
    let rest = set_header name value headers in
    if text_eq n name then (n, value) ∷ headers else (n, v) ∷ rest

abbrev ended : List ℕ → Option Text → Observed (List ℕ)
ended body none = ok body
ended body (some err) = observe_error (fetch_failed err)

-- The loop over the chunks, from what has been read.
unfoldable pub read_body : List ℕ → List (List ℕ) → Option Text → Observed (List ℕ)
read_body body [] end = ended body end
read_body body (chunk ∷ chunks) end =
    let longer = body ++ chunk in
    let rest = read_body longer chunks end in
    if ltb max_response_bytes (length longer) then observe_error too_long else rest

module _ {N : Type 0} (http : Http N) where
  abbrev bearer : List (Text × Text) → Text → Option Text → Observed (List (Text × Text))
  bearer headers auth_ref none =
      observe_error
        (codes "auth_ref " ++ http.repr auth_ref ++ codes " is not set in the environment")
  bearer headers auth_ref (some token) =
      ok (set_header (codes "Authorization") (codes "Bearer " ++ token) headers)

  -- `if endpoint.auth_ref`: None and the empty text are false.
  unfoldable pub headers_of : List (Text × Text) → Option Text → Observed (List (Text × Text))
  unfolding set_header
  headers_of headers (some (c ∷ s)) = bearer headers (c ∷ s) (http.environ (c ∷ s))
  headers_of headers _ = ok headers

  abbrev as_fetch_error : Observed (Json N) → Observed (Json N)
  as_fetch_error (observe_error err) = observe_error (fetch_failed err)
  as_fetch_error seen = seen

  unfoldable pub receive : Response → Observed (Json N)
  unfolding read_body
  receive (http_error err) = observe_error (fetch_failed err)
  receive (streamed chunks end) =
      read_body [] chunks end >>= λ body. as_fetch_error (http.loads body)
  receive broken = crash

  unfoldable pub fetch : EndpointSpec N → Observed (Json N)
  unfolding headers_of receive
  fetch endpoint = headers_of endpoint.headers endpoint.auth_ref >>= λ headers.
      receive (http.stream endpoint.method endpoint.url headers endpoint.body)

-- The bytes of all chunks.
unfoldable pub concat : List (List ℕ) → List ℕ
concat [] = []
concat (chunk ∷ chunks) = chunk ++ concat chunks

-- What a body is to `fetch`: read if it is short enough.
abbrev pub read_whole : {N : Type 0} → Http N → List ℕ → Observed (Json N)
read_whole http body =
    if ltb max_response_bytes (length body)
    then observe_error too_long
    else as_fetch_error http (http.loads body)

length-append : (xs ys : List ℕ) → length (xs ++ ys) ≡ length xs + length ys
length-append [] ys = omega arith
length-append (x ∷ xs) ys = omega (arith, length-append xs ys)

read_body-concat :
    (body : List ℕ) (chunks : List (List ℕ))
    → length body ≤ max_response_bytes
    → read_body body chunks none ≡ (
        if ltb max_response_bytes (length (body ++ concat chunks))
        then observe_error too_long
        else ok (body ++ concat chunks))
unfolding read_body concat
read_body-concat body [] short = rw (append-nil body) (ground arith)
read_body-concat body (chunk ∷ chunks) short =
    let whole = length-append (body ++ chunk) (concat chunks) in
    rw (sym (append_assoc body chunk (concat chunks)))
      (elim (Bool-cases (ltb max_response_bytes (length (body ++ chunk)))) [
        | inl long ↦ ground (arith, whole)
        | inr short' ↦ ground (arith, read_body-concat (body ++ chunk) chunks (ground arith))
      ])

module _ {N : Type 0} where
  -- On a body whose chunks all come, and with what the headers need, `fetch` is the reading of the
  -- whole body if it has at most 5,000,000 bytes, and an ObserveError if it is longer, however the body is cut
  -- into chunks.
  pub fetch-read_whole :
      (http : Http N) (endpoint : EndpointSpec N) (headers : List (Text × Text))
      (chunks : List (List ℕ))
      → headers_of http endpoint.headers endpoint.auth_ref ≡ ok headers
      → http.stream endpoint.method endpoint.url headers endpoint.body ≡ streamed chunks none
      → fetch http endpoint ≡ read_whole http (concat chunks)
  unfolding fetch receive
  fetch-read_whole http endpoint headers chunks given came =
      let read = read_body-concat [] chunks (omega arith) in
      rw given (
        rw came (
          rw read (elim (Bool-cases (ltb max_response_bytes (length (concat chunks)))) [
            | inl long ↦ rw long refl
            | inr short ↦ rw short refl
          ])))
