-- ===== src/Api/Handler/Checks.antt =====
-- What the checks before the router let through, and the headers they set.
use focus_flow.Common.{
  ℕ, ◌≤◌, ◌≡◌, refl, inl, inr, String, Bool, true, false, ◌&&◌, ◌||◌, Option, none, some, List, [],
  ◌∷◌, arith, str_eq, split, if◌then◌else◌, not, is_empty, trim_space,
}
use focus_flow.Model.{Uuid, FocusQuery}
use focus_flow.Model.Int.{ℤ, pos, negsuc}
use focus_flow.Storage.{ok}
use focus_flow.Api.Mappers.{keep_trimmed, split_include, query_from_params}
use focus_flow.Api.Mappers.Query.{supported, query_from_params-cases}
use focus_flow.Api.Handler.{
  atoi, in_bounds, valid_bounded_integer, valid_tokens, valid_include, valid_query_parameters,
  QueryValues, HttpRequest, Handled, written, passed_on, allowed, allowed_headers, handle,
}

valid_tokens-supported :
    (parts : List String) → valid_tokens parts ≡ true → supported (keep_trimmed parts) ≡ true
valid_tokens-supported [] h = refl
valid_tokens-supported (part ∷ parts) h = ground (arith, valid_tokens-supported parts)

-- A value of include that the check before the router lets through makes a query in
-- QueryFromParams, never an error.
pub valid_include-query :
    (include : String) (id : Uuid) (depth : Option ℤ)
    → valid_include (include ∷ []) ≡ true
    → (query : FocusQuery) × (query_from_params id (some include) depth ≡ ok query)
unfolding valid_include split_include
valid_include-query include id depth h = elim (query_from_params-cases id (some include) depth) [
  | inl (good, e) ↦ (_, e)
  | inr (bad, text, e) ↦ absurd (ground (arith, valid_tokens-supported (split 44 include) h))
]

bounded_number :
    (low high : ℕ) (o : Option ℤ)
    → in_bounds low high o ≡ true
    → (n : ℕ) × (o ≡ some (pos n)) × (low ≤ n) × (n ≤ high)
bounded_number low high none h = absurd (ground arith)
bounded_number low high (some (pos n)) h = (n, refl, ground arith, ground arith)
bounded_number low high (some (negsuc n)) h = absurd (ground arith)

bounded :
    (low high : ℕ) (values : List String)
    → valid_bounded_integer low high values ≡ true
    → (value : String) × (n : ℕ) × (values ≡ value ∷ [])
      × (atoi value ≡ some (pos n))
      × (low ≤ n)
      × (n ≤ high)
bounded low high [] h = absurd (ground arith)
bounded low high (value ∷ []) h =
    let (n, read, least, most) = bounded_number low high (atoi value) h in
    (value, n, refl, read, least, most)
bounded low high (a ∷ b ∷ rest) h = absurd (ground arith)

abbrev pub headers : Handled → List (String × String)
headers (written status hs) = hs
headers (passed_on hs) = hs

-- `header` is set.
abbrev pub sets : String → List (String × String) → Bool
sets header [] = false
sets header ((name, value) ∷ hs) = let rest = sets header hs in str_eq name header || rest

-- The status that is written, and none for a request that is passed on.
abbrev pub status_of : Handled → Option ℕ
status_of (written status hs) = some status
status_of (passed_on hs) = none

abbrev pub among : String → List String → Bool
among name [] = false
among name (n ∷ names) = let rest = among name names in str_eq name n || rest

abbrev pub all_of : (String → Bool) → List String → Bool
all_of p [] = true
all_of p (x ∷ xs) = let rest = all_of p xs in p x && rest

abbrev header_names : List String
header_names = "accept" ∷ "authorization" ∷ "content-type" ∷ []

abbrev pub is_allowed : String → Bool
is_allowed name = is_empty name || among name header_names

module _ (to_lower : String → String) where
  -- The headers by which a browser shares a response with an origin, with credentials, are set on
  -- exactly the responses to an allowed origin.
  pub handle-allowed :
      (origins : List String) (r : HttpRequest)
      → let hs = headers (handle to_lower origins r) in
        (sets "Access-Control-Allow-Origin" hs ≡ allowed origins r.origin)
        × (sets "Access-Control-Allow-Credentials" hs ≡ allowed origins r.origin)
  unfolding handle
  handle-allowed origins r = (ground arith, ground arith)

  -- Every requested header is one of the three that are allowed, or empty.
  allowed_headers-all :
      (names : List String)
      → allowed_headers to_lower names
        ≡ all_of (λ name. is_allowed (to_lower (trim_space name))) names
  allowed_headers-all [] = refl
  allowed_headers-all (name ∷ names) = ground (arith, allowed_headers-all names)

  -- The router gets exactly the requests that are no preflight and have valid query parameters;
  -- any other request that is no preflight is answered with 400. A preflight, an OPTIONS request
  -- that asks for a method, is answered with 204 exactly if its origin is allowed, the method is
  -- DELETE, GET, PATCH or POST, and every header it asks for is empty, accept, authorization or
  -- content-type, in any case and with spaces around it; else with 403. The lists of methods and
  -- headers are set on exactly the answers 204.
  pub handle-cases :
      (origins : List String) (r : HttpRequest)
      → let preflight = str_eq r.method "OPTIONS" && not (is_empty r.request_method) in
        let good =
          allowed origins r.origin
          && among r.request_method ("DELETE" ∷ "GET" ∷ "PATCH" ∷ "POST" ∷ [])
          && all_of
              (λ name. is_allowed (to_lower (trim_space name)))
              (split 44 r.request_headers) in
        let handled = handle to_lower origins r in
        (status_of handled ≡ (
          if preflight
          then some (if good then 204 else 403)
          else (if valid_query_parameters r.query then none else some 400)))
        × (sets "Access-Control-Allow-Methods" (headers handled) ≡ (preflight && good))
        × (sets "Access-Control-Allow-Headers" (headers handled) ≡ (preflight && good))
  unfolding handle
  handle-cases origins r =
      let same = allowed_headers-all (split 44 r.request_headers) in
      (ground arith, ground arith, ground arith)

-- With valid query parameters, a limit that is given is one number between 1 and 100.
pub valid_query_parameters-limit :
    (query : QueryValues) (values : List String)
    → valid_query_parameters query ≡ true
    → query.limit ≡ some values
    → (value : String) × (n : ℕ) × (values ≡ value ∷ [])
      × (atoi value ≡ some (pos n))
      × (1 ≤ n)
      × (n ≤ 100)
unfolding valid_query_parameters
valid_query_parameters-limit query values h given = bounded 1 100 values (ground arith)

-- With valid query parameters, a depth that is given is one number between 0 and 5.
pub valid_query_parameters-depth :
    (query : QueryValues) (values : List String)
    → valid_query_parameters query ≡ true
    → query.depth ≡ some values
    → (value : String) × (n : ℕ) × (values ≡ value ∷ [])
      × (atoi value ≡ some (pos n))
      × (0 ≤ n)
      × (n ≤ 5)
unfolding valid_query_parameters
valid_query_parameters-depth query values h given = bounded 0 5 values (ground arith)
