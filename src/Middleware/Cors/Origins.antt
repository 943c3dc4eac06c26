-- ===== src/Middleware/Cors/Origins.antt =====
-- What the CORS middleware answers, and to which origins.
use miniaibrowse_cpp.Common.{
  ◌≡◌, ◌≢◌, ◌↔◌, ◌⊎◌, inl, inr, refl, sym, ap, subst, ◌∙◌, Bool, true, false, List, [], ◌∷◌, Option,
  none, some, Bytes, codes, bytes_eq, bytes_eq_iff, bytes_key, ℕ_key, lookup, lookup-insert,
  lookup-insert_self, if◌then◌else◌, Bool-cases, arith,
}
use miniaibrowse_cpp.Http.Request.{HttpRequest, Method, method_eq, get_header}
use miniaibrowse_cpp.Http.Response.{HttpResponse, new_response, add_header, set_status_code}
use miniaibrowse_cpp.Middleware.Cors.{
  CorsConfig, contains, is_origin_allowed, add_header_if, add_cors_headers,
  handle_preflight_request, before, after_from, after,
}

abbrev pub Listed : Bytes → List Bytes → Type 0
Listed x [] = ⊥
Listed x (y ∷ ys) = (y ≡ x) ⊎ Listed x ys

contains_iff : (ys : List Bytes) (x : Bytes) → (contains ys x ≡ true) ↔ Listed x ys
unfolding contains
contains_iff [] x = ground arith
contains_iff (y ∷ ys) x = ground (arith, bytes_eq_iff y x, contains_iff ys x)

-- An origin is allowed exactly when no origins are configured, or "*" is, or it is itself.
pub is_origin_allowed_iff :
    (config : CorsConfig) (origin : Bytes)
    → (is_origin_allowed config origin ≡ true) ↔ (
        (config.allowed_origins ≡ [])
        ⊎ (Listed (codes "*") config.allowed_origins ⊎ Listed origin config.allowed_origins))
unfolding is_origin_allowed
is_origin_allowed_iff config origin = ground (
  arith,
  contains_iff config.allowed_origins (codes "*"),
  contains_iff config.allowed_origins origin,
)

abbrev pub allow_origin : HttpResponse → Option Bytes
allow_origin r = lookup (codes "Access-Control-Allow-Origin") r.headers

-- A later header with another key leaves the allowed origin.
allow_origin-add_header :
    (r : HttpResponse) (key value : Bytes)
    → bytes_eq key (codes "Access-Control-Allow-Origin") ≡ false
    → allow_origin (add_header r key value) ≡ allow_origin r
unfolding add_header
allow_origin-add_header r key value e =
    ground (arith, lookup-insert key (codes "Access-Control-Allow-Origin") value r.headers)

allow_origin-add_header_if :
    (b : Bool) (r : HttpResponse) (key value : Bytes)
    → bytes_eq key (codes "Access-Control-Allow-Origin") ≡ false
    → allow_origin (add_header_if b r key value) ≡ allow_origin r
unfolding add_header_if
allow_origin-add_header_if true r key value e = allow_origin-add_header r key value e
allow_origin-add_header_if false r key value e = refl

allow_origin_set :
    (r : HttpResponse) (origin : Bytes)
    → allow_origin (add_header r (codes "Access-Control-Allow-Origin") origin) ≡ some origin
unfolding add_header
allow_origin_set r origin =
    lookup-insert_self (codes "Access-Control-Allow-Origin") origin r.headers

pub allow_origin-add_cors_headers :
    (config : CorsConfig) (r : HttpResponse) (origin : Bytes)
    → allow_origin (add_cors_headers config r origin) ≡ some origin
unfolding add_cors_headers bytes_eq
allow_origin-add_cors_headers config r origin =
    allow_origin-add_header _ (codes "Access-Control-Max-Age") _ refl
    ∙ allow_origin-add_header_if _ _ (codes "Access-Control-Allow-Headers") _ refl
    ∙ allow_origin-add_header_if _ _ (codes "Access-Control-Allow-Methods") _ refl
    ∙ allow_origin-add_header_if _ _ (codes "Access-Control-Allow-Credentials") _ refl
    ∙ allow_origin_set r origin

-- A preflight request is always answered by the middleware itself: an allowed origin gets 204 and is
-- named as the allowed origin, any other gets 403 and no header. Other methods pass.
pub before_lem :
    (config : CorsConfig) (request : HttpRequest)
    → (request.method ≢ Method.options → before config request ≡ none)
      × (request.method ≡ Method.options
          → (response : HttpResponse) × (before config request ≡ some response)
            × (is_origin_allowed config (get_header request (codes "Origin")) ≡ true
                → (response.status_code ≡ 204)
                  × (allow_origin response ≡ some (get_header request (codes "Origin"))))
            × (is_origin_allowed config (get_header request (codes "Origin")) ≡ false
                → (response.status_code ≡ 403) × (response.headers ≡ [])))
unfolding before handle_preflight_request set_status_code
before_lem config request = (
  λ n. other request.method n,
  λ e. (
    handle_preflight_request config request (new_response true),
    ap
        (λ m.
          if method_eq m Method.options
          then some (handle_preflight_request config request (new_response true))
          else none)
        e,
    λ a. rw (a, handle_preflight_request) (refl, allow_origin-add_cors_headers config _ _),
    λ a. rw (a, handle_preflight_request) (refl, refl),
  ),
)
  where
    other :
        (m : Method)
        → m ≢ Method.options
        → (if method_eq m Method.options
            then some (handle_preflight_request config request (new_response true))
            else none)
          ≡ none
    other Method.options n = absurd (n refl)
    other _ n = refl

-- What `after` promises of its result for a list of configured origins.
abbrev pub IsMarked : List Bytes → HttpResponse → HttpResponse → Type 0
IsMarked origins r r' =
    (Listed (codes "*") origins → allow_origin r' ≡ some (codes "*"))
    × ((first : Bytes) (others : List Bytes)
        → origins ≡ first ∷ others
        → ¬ Listed (codes "*") origins
        → allow_origin r' ≡ some first)
    × (origins ≡ [] → r' ≡ r)

not_contains : (ys : List Bytes) (x : Bytes) → ¬ Listed x ys → contains ys x ≡ false
not_contains ys x n = elim (Bool-cases (contains ys x)) [
  | inl e ↦ absurd (n ((contains_iff ys x).0 e))
  | inr e ↦ e
]

after_from-IsMarked :
    (config : CorsConfig) (origins : List Bytes) (r : HttpResponse)
    → IsMarked origins r (after_from config origins r)
unfolding after_from
after_from-IsMarked config [] r = (λ h. absurd h, λ first others e n. cc, λ e. refl)
after_from-IsMarked config (o ∷ os) r = (
  λ h.
      rw ((contains_iff (o ∷ os) (codes "*")).1 h, after_from)
        (allow_origin-add_cors_headers config r (codes "*")),
  λ first others e n.
      rw (not_contains (o ∷ os) (codes "*") n, after_from)
        (allow_origin-add_cors_headers config r o ∙ cc),
  λ e. cc,
)

-- A response is marked for every origin if "*" is configured, else for the first origin alone, and
-- not at all if none is configured.
pub after-allow_origin :
    (config : CorsConfig) (r : HttpResponse) → IsMarked config.allowed_origins r (after config r)
unfolding after
after-allow_origin config r = after_from-IsMarked config config.allowed_origins r

-- An origin that is configured, but not as the first, passes the preflight check and is then refused
-- by the browser: the answer to the request proper names the first origin only.
pub after_disagrees :
    (config : CorsConfig) (first origin : Bytes) (others : List Bytes) (r : HttpResponse)
    → config.allowed_origins ≡ first ∷ others
    → ¬ Listed (codes "*") config.allowed_origins
    → Listed origin others
    → origin ≢ first
    → (is_origin_allowed config origin ≡ true) × (allow_origin (after config r) ≢ some origin)
after_disagrees config first origin others r e n listed different = (
  (is_origin_allowed_iff config origin).1 (inr (inr (subst (Listed origin) (sym e) (inr listed)))),
  λ h. different (cc ((after-allow_origin config r).1 first others e n)),
)

-- The two responses differ in their headers at most.
abbrev pub SameButHeaders : HttpResponse → HttpResponse → Type 0
SameButHeaders r r' = r' ≡ record r { headers = r'.headers }

add_cors_headers-SameButHeaders :
    (config : CorsConfig) (r : HttpResponse) (origin : Bytes)
    → SameButHeaders r (add_cors_headers config r origin)
unfolding add_cors_headers add_header_if add_header
add_cors_headers-SameButHeaders config r origin = ground arith

after_from-SameButHeaders :
    (config : CorsConfig) (origins : List Bytes) (r : HttpResponse)
    → SameButHeaders r (after_from config origins r)
unfolding after_from
after_from-SameButHeaders config [] r = refl
after_from-SameButHeaders config (o ∷ os) r = elim (Bool-cases (contains (o ∷ os) (codes "*"))) [
  | inl e ↦ rw (e, after_from) (add_cors_headers-SameButHeaders config r (codes "*"))
  | inr e ↦ rw (e, after_from) (add_cors_headers-SameButHeaders config r o)
]

-- `after` adds headers and touches nothing else.
pub after-SameButHeaders :
    (config : CorsConfig) (r : HttpResponse) → SameButHeaders r (after config r)
unfolding after
after-SameButHeaders config r = after_from-SameButHeaders config config.allowed_origins r
