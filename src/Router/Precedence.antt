-- ===== src/Router/Precedence.antt =====
-- Which handler a request reaches.
use miniaibrowse_cpp.Common.{
  ◌≡◌, ◌≢◌, inl, inr, Bool, true, false, ◌&&◌, List, [], ◌∷◌, Option, none, some, Bytes, bytes_key,
  ℕ_key, lookup, lookup-insert, if◌then◌else◌, Option-cases, arith,
}
use miniaibrowse_cpp.Http.Request.{HttpRequest, Method}
use miniaibrowse_cpp.Router.{
  RouteKey, route_key, route_key_eq, Router, RegexRoute, Target, to_handler, to_callback,
  register_handler, register_callback, match_route, route_regex_handlers, route_regex_callbacks,
  route,
}

abbrev pub key_of : HttpRequest → RouteKey
key_of request = record { method = request.method; path = request.path }

abbrev pub key_at : Method → Bytes → RouteKey
key_at method path = record { method = method; path = path }

abbrev pub is_none {ℓ} : {A : Type ℓ} → Option A → Bool
is_none none = true
is_none (some a) = false

module _ (regex_match : Bytes → Bytes → Option (List Bytes)) {H C : Type 0} where
  -- A handler that is registered for a method and a path gets exactly the requests with that method
  -- and path, whatever else is registered; all other requests go where they went.
  pub route-register_handler :
      (r : Router H C) (method : Method) (path : Bytes) (handler : H) (request : HttpRequest)
      → route regex_match (register_handler r method path handler) request ≡ (
          if route_key_eq (key_at method path) (key_of request)
          then some (to_handler handler, request)
          else route regex_match r request)
  unfolding route register_handler
  route-register_handler r method path handler request =
      ground (arith, lookup-insert (key_at method path) (key_of request) handler r.handlers)

  -- A callback gets the requests with its method and path unless a handler is registered for them,
  -- and goes before every regular expression; all other requests go where they went.
  pub route-register_callback :
      (r : Router H C) (method : Method) (path : Bytes) (callback : C) (request : HttpRequest)
      → route regex_match (register_callback r method path callback) request ≡ (
          if route_key_eq (key_at method path) (key_of request)
            && is_none (lookup (key_of request) r.handlers)
          then some (to_callback callback, request)
          else route regex_match r request)
  unfolding route register_callback
  route-register_callback r method path callback request =
      ground (arith, lookup-insert (key_at method path) (key_of request) callback r.callbacks)

  regex_handlers-target :
      (rs : List (RegexRoute H)) (request request' : HttpRequest) (c : C)
      → route_regex_handlers regex_match {C = C} rs request ≢ some (to_callback c, request')
  unfolding route_regex_handlers
  regex_handlers-target [] request request' c h = cc
  regex_handlers-target (x ∷ rs) request request' c h =
      elim (Option-cases (match_route regex_match x request)) [
        | inl e ↦ regex_handlers-target rs request request' c (ground arith)
        | inr (captures, e) ↦ ground arith
      ]

  regex_callbacks-request :
      (rs : List (RegexRoute C)) (request request' : HttpRequest) (t : Target H C)
      → route_regex_callbacks regex_match rs request ≡ some (t, request')
      → request' ≡ request
  unfolding route_regex_callbacks
  regex_callbacks-request [] request request' t h = cc
  regex_callbacks-request (x ∷ rs) request request' t h =
      elim (Option-cases (match_route regex_match x request)) [
        | inl e ↦ regex_callbacks-request rs request request' t (ground arith)
        | inr (captures, e) ↦ ground arith
      ]

  -- A callback is always given the request as it came: one that is registered for a pattern never
  -- sees the path parameters that the router has just extracted.
  pub route-callback_request :
      (r : Router H C) (request request' : HttpRequest) (c : C)
      → route regex_match r request ≡ some (to_callback c, request')
      → request' ≡ request
  unfolding route
  route-callback_request r request request' c h = ground (
    arith,
    regex_handlers-target r.regex_handlers request request' c,
    regex_callbacks-request r.regex_callbacks request request' (to_callback c),
  )
