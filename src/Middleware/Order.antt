-- ===== src/Middleware/Order.antt =====
-- The order in which a chain of middlewares runs.
use miniaibrowse_cpp.Common.{
  ℕ, ◌≡◌, ◌≢◌, inl, inr, refl, ap, [], ◌∷◌, ◌++◌, Option, none, some, bytes_eq, bytes_key, ℕ_key,
  Option-cases,
}
use miniaibrowse_cpp.Http.Request.{HttpRequest, Method}
use miniaibrowse_cpp.Http.Response.{HttpResponse}
use miniaibrowse_cpp.Middleware.{
  Middleware, cors, qps_metrics, MiddlewareChain, Before, passed, thrown, crashed, add_middleware,
  process_before, after_one, process_after,
}
use miniaibrowse_cpp.Middleware.Cors.{CorsConfig, default_config, is_origin_allowed, contains}
use miniaibrowse_cpp.Middleware.Cors
use miniaibrowse_cpp.Middleware.Cors.Origins.{before_lem}
use miniaibrowse_cpp.Middleware.Qps.{Metrics}
use miniaibrowse_cpp.Middleware.Qps

-- `processBefore` continued by a later part of the chain.
abbrev pub then_before : ℕ → MiddlewareChain → HttpRequest → Metrics × Before → Metrics × Before
then_before now chain request (m, passed) = process_before now chain request m
then_before now chain request (m, thrown response) = (m, thrown response)
then_before now chain request (m, crashed) = (m, crashed)

process_before-append :
    (now : ℕ) (front back : MiddlewareChain) (request : HttpRequest) (m : Metrics)
    → process_before now (front ++ back) request m
      ≡ then_before now back request (process_before now front request m)
unfolding process_before
process_before-append now [] back request m = refl
process_before-append now (none ∷ front) back request m = refl
process_before-append now (some (cors config) ∷ front) back request m =
    elim (Option-cases (Cors.before config request)) [
      | inl e ↦ rw (e, process_before) (process_before-append now front back request m)
      | inr (response, e) ↦ rw (e, process_before) refl
    ]
process_before-append now (some qps_metrics ∷ front) back request m =
    process_before-append now front back request (Qps.before now m)

process_after-append :
    (front back : MiddlewareChain) (r : HttpResponse)
    → process_after (front ++ back) r ≡ process_after front (process_after back r)
unfolding process_after
process_after-append [] back r = refl
process_after-append (middleware ∷ front) back r =
    ap (after_one middleware) (process_after-append front back r)

-- A middleware that is added runs last before the handler, and only if those before it let the
-- request pass; it runs first on the response.
pub add_middleware-order :
    (now : ℕ) (chain : MiddlewareChain) (middleware : Option Middleware) (request : HttpRequest)
    (m : Metrics) (r : HttpResponse)
    → (process_before now (add_middleware chain middleware) request m
        ≡ then_before now (middleware ∷ []) request (process_before now chain request m))
      × (process_after (add_middleware chain middleware) r
          ≡ process_after chain (after_one middleware r))
unfolding add_middleware process_after
add_middleware-order now chain middleware request m r = (
  process_before-append now chain (middleware ∷ []) request m,
  process_after-append chain (middleware ∷ []) r,
)

-- The chain that the chat server installs.
abbrev pub chat_chain : MiddlewareChain
chat_chain = some (cors default_config) ∷ some qps_metrics ∷ []

-- With that chain a preflight request is answered at once and not counted, and any other request
-- passes and is counted once.
pub process_before-chat_chain :
    (now : ℕ) (request : HttpRequest) (m : Metrics)
    → (request.method ≢ Method.options
        → process_before now chat_chain request m ≡ (Qps.before now m, passed))
      × (request.method ≡ Method.options
          → (response : HttpResponse) × (process_before now chat_chain request m
              ≡ (m, thrown response))
            × (response.status_code ≡ 204))
unfolding process_before is_origin_allowed contains bytes_eq
process_before-chat_chain now request m = (
  λ n. rw ((before_lem default_config request).0 n, process_before),
  λ e.
      let (response, answered, allowed, refused) = (before_lem default_config request).1 e in
      (response, rw (answered, process_before), (allowed refl).0),
)
