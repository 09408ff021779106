-- ===== src/Api/Handler.antt =====
-- backend/internal/api/handler.go: the checks before the generated router: CORS and the query
-- parameters.
pub mod Checks
use focus_flow.Common.{
  ℕ, ◌+◌, ◌-◌, ◌==◌, leb, if◌then◌else◌, String, Bool, true, false, not, ◌&&◌, ◌||◌, Option, none,
  some, List, [], ◌∷◌, ◌++◌, str_eq, split, trim_space, is_empty, number,
}
use Prim.Native.Char.{code}
use focus_flow.Model.Int.{ℤ, pos, negsuc}

-- An `int` has 64 bits.
abbrev pub positive : Option ℕ → Option ℤ
positive none = none
positive (some n) = if leb n 9223372036854775807 then some (pos n) else none

abbrev pub negative : Option ℕ → Option ℤ
negative none = none
negative (some n) =
    if n == 0
    then some (pos 0)
    else (if leb n 9223372036854775808 then some (negsuc (n - 1)) else none)

-- `strconv.Atoi`; 43 is `+` and 45 is `-`.
abbrev pub atoi : String → Option ℤ
atoi String.[] = none
atoi (String.◌∷◌ c s) =
    if code c == 43
    then positive (number s)
    else (if code c == 45 then negative (number s) else positive (number (String.◌∷◌ c s)))

-- The values of the query parameters by their names, if they are given.
pub record QueryValues : Type 0 where
  pub limit : Option (List String)
  pub depth : Option (List String)
  pub cursor : Option (List String)
  pub include : Option (List String)

-- `err == nil && value >= minimum && value <= maximum`, for a minimum that is not negative.
abbrev pub in_bounds : ℕ → ℕ → Option ℤ → Bool
in_bounds minimum maximum (some (pos n)) = leb minimum n && leb n maximum
in_bounds minimum maximum _ = false

abbrev pub valid_bounded_integer : ℕ → ℕ → List String → Bool
valid_bounded_integer minimum maximum (value ∷ []) = in_bounds minimum maximum (atoi value)
valid_bounded_integer minimum maximum _ = false

abbrev pub valid_single_non_empty : List String → Bool
valid_single_non_empty (value ∷ []) = not (is_empty value)
valid_single_non_empty _ = false

-- The loop of validInclude.
abbrev pub valid_tokens : List String → Bool
valid_tokens [] = true
valid_tokens (token ∷ tokens) =
    let rest = valid_tokens tokens in
    if str_eq (trim_space token) "children" || str_eq (trim_space token) "goals"
    then rest
    else false

unfoldable pub valid_include : List String → Bool
valid_include (value ∷ []) = valid_tokens (split 44 value)
valid_include _ = false

-- `if values, ok := query[name]; ok && !valid(values) { return false }`
abbrev pub valid_if_given : (List String → Bool) → Option (List String) → Bool
valid_if_given valid none = true
valid_if_given valid (some values) = valid values

unfoldable pub valid_query_parameters : QueryValues → Bool
unfolding valid_include
valid_query_parameters query =
    valid_if_given (valid_bounded_integer 1 100) query.limit
    && valid_if_given (valid_bounded_integer 0 5) query.depth
    && valid_if_given valid_single_non_empty query.cursor
    && valid_if_given valid_include query.include

pub record HttpRequest : Type 0 where
  pub method : String
  pub origin : String
  pub request_method : String
  pub request_headers : String
  pub query : QueryValues

-- A response that is written here, or the request passed on to the router, with the headers set.
pub data Handled : Type 0 where
  written : ℕ → List (String × String) → Handled
  passed_on : List (String × String) → Handled

abbrev pub allowed_method : String → Bool
allowed_method method =
    str_eq method "DELETE" || str_eq method "GET" || str_eq method "PATCH" || str_eq method "POST"

-- `allowed[origin]`
abbrev pub allowed : List String → String → Bool
allowed [] origin = false
allowed (o ∷ origins) origin = let rest = allowed origins origin in str_eq o origin || rest

-- `r.Method == http.MethodOptions && r.Header.Get("Access-Control-Request-Method") != ""`
abbrev pub is_preflight : HttpRequest → Bool
is_preflight r = str_eq r.method "OPTIONS" && not (is_empty r.request_method)

abbrev pub origin_headers : Bool → String → List (String × String)
origin_headers true origin =
    ("Access-Control-Allow-Origin", origin) ∷ ("Access-Control-Allow-Credentials", "true") ∷ []
origin_headers false origin = []

-- What `http.Error` sets.
abbrev pub error_headers : List (String × String)
error_headers =
    ("Content-Type", "text/plain; charset=utf-8") ∷ ("X-Content-Type-Options", "nosniff") ∷ []

-- `strings.ToLower` is a parameter.
module _ (to_lower : String → String) where
  -- The loop over the requested headers.
  abbrev pub allowed_headers : List String → Bool
  allowed_headers [] = true
  allowed_headers (header ∷ headers) =
      let name = to_lower (trim_space header) in
      let rest = allowed_headers headers in
      if is_empty name
        || str_eq name "accept"
        || str_eq name "authorization"
        || str_eq name "content-type"
      then rest
      else false

  -- The function that NewHandler returns.
  unfoldable pub handle : List String → HttpRequest → Handled
  unfolding valid_query_parameters
  handle origins r =
      let good = allowed origins r.origin in
      let vary = ("Vary", "Origin") ∷ [] in
      if is_preflight r
      then (let headers =
            vary
            ++ ("Vary", "Access-Control-Request-Method")
              ∷ ("Vary", "Access-Control-Request-Headers")
              ∷ origin_headers good r.origin in
          if not good || not (allowed_method r.request_method)
          then written 403 (headers ++ error_headers)
          else (if allowed_headers (split 44 r.request_headers)
              then written 204 (
                  headers
                  ++ ("Access-Control-Allow-Methods", "DELETE, GET, PATCH, POST")
                    ∷ ("Access-Control-Allow-Headers", "Accept, Authorization, Content-Type")
                    ∷ [])
              else written 403 (headers ++ error_headers)))
      else (let headers = vary ++ origin_headers good r.origin in
          if valid_query_parameters r.query
          then passed_on headers
          else written 400 (headers ++ ("Content-Type", "application/json") ∷ []))

-- protectedOperation
abbrev pub protected_operation : String → Bool
protected_operation operation =
    not (str_eq operation "GetHealth" || str_eq operation "Login" || str_eq operation "Logout")
