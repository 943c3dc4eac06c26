-- ===== src/Middleware/Cors.antt =====
-- HttpServer/include/middleware/cors and HttpServer/src/middleware/cors. Logging is left out, and the
-- catch clause of addCorsHeaders guards calls that do not throw.
pub mod Origins
use miniaibrowse_cpp.Common.{
  Bool, true, false, not, ◌||◌, List, [], ◌∷◌, ◌++◌, Option, none, some, Bytes, codes, is_empty,
  bytes_eq, bytes_key, ℕ_key, ℤ, pos, to_string_ℤ, if◌then◌else◌,
}
use miniaibrowse_cpp.Http.Request.{HttpRequest, Method, method_eq, get_header}
use miniaibrowse_cpp.Http.Response.{HttpResponse, new_response, add_header, set_status_code}

pub record CorsConfig : Type 0 where
  pub allowed_origins : List Bytes
  pub allowed_methods : List Bytes
  pub allowed_headers : List Bytes
  pub allow_credentials : Bool
  pub max_age : ℤ

abbrev pub default_config : CorsConfig
default_config = record {
  allowed_origins = codes "*" ∷ [];
  allowed_methods =
      codes "GET" ∷ codes "POST" ∷ codes "PUT" ∷ codes "DELETE" ∷ codes "OPTIONS" ∷ [];
  allowed_headers = codes "Content-Type" ∷ codes "Authorization" ∷ [];
  allow_credentials = false;
  max_age = pos 3600;
}

-- `std::find(v.begin(), v.end(), x) != v.end()`.
unfoldable pub contains : List Bytes → Bytes → Bool
contains [] x = false
contains (y ∷ ys) x = bytes_eq y x || contains ys x

unfoldable pub is_origin_allowed : CorsConfig → Bytes → Bool
is_origin_allowed config origin =
    is_empty config.allowed_origins
    || contains config.allowed_origins (codes "*")
    || contains config.allowed_origins origin

-- The loop of `join` from the second string on.
unfoldable pub join_rest : List Bytes → Bytes → Bytes
join_rest [] delimiter = []
join_rest (s ∷ strings) delimiter = delimiter ++ (s ++ join_rest strings delimiter)

unfoldable pub join : List Bytes → Bytes → Bytes
unfolding join_rest
join [] delimiter = []
join (s ∷ strings) delimiter = s ++ join_rest strings delimiter

-- `if (b) response.addHeader(key, value);`
unfoldable pub add_header_if : Bool → HttpResponse → Bytes → Bytes → HttpResponse
add_header_if b r key value = if b then add_header r key value else r

unfoldable pub add_cors_headers : CorsConfig → HttpResponse → Bytes → HttpResponse
add_cors_headers config r origin =
    let r₁ = add_header r (codes "Access-Control-Allow-Origin") origin in
    let r₂ =
      add_header_if config.allow_credentials r₁ (codes "Access-Control-Allow-Credentials")
        (codes "true") in
    let r₃ =
      add_header_if (not (is_empty config.allowed_methods)) r₂
        (codes "Access-Control-Allow-Methods") (join config.allowed_methods (codes ", ")) in
    let r₄ =
      add_header_if (not (is_empty config.allowed_headers)) r₃
        (codes "Access-Control-Allow-Headers") (join config.allowed_headers (codes ", ")) in
    add_header r₄ (codes "Access-Control-Max-Age") (to_string_ℤ config.max_age)

unfoldable pub handle_preflight_request : CorsConfig → HttpRequest → HttpResponse → HttpResponse
handle_preflight_request config request response =
    let origin = get_header request (codes "Origin") in
    if is_origin_allowed config origin
    then set_status_code (add_cors_headers config response origin) 204
    else set_status_code response 403

-- `some` is the response that is thrown.
unfoldable pub before : CorsConfig → HttpRequest → Option HttpResponse
before config request =
    if method_eq request.method Method.options
    then some (handle_preflight_request config request (new_response true))
    else none

unfoldable pub after_from : CorsConfig → List Bytes → HttpResponse → HttpResponse
after_from config [] response = response
after_from config (first ∷ others) response =
    if contains (first ∷ others) (codes "*")
    then add_cors_headers config response (codes "*")
    else add_cors_headers config response first

unfoldable pub after : CorsConfig → HttpResponse → HttpResponse
unfolding after_from
after config response = after_from config config.allowed_origins response
