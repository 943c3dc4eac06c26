-- ===== src/Examples/Routing.antt =====
-- The theorems on the router, the middlewares and the server at concrete inputs.
use miniaibrowse_cpp.Common.{
  ℕ, ◌+◌, ◌≡◌, ◌≢◌, inl, inr, refl, true, false, List, [], ◌∷◌, ◌++◌, Option, none, some, Bytes,
  codes, find, bytes_eq, bytes_eq_iff, bytes_key, ℕ_key, lookup, if◌then◌else◌, arith,
}
use miniaibrowse_cpp.Http.Request.{
  HttpRequest, empty_request, invalid, get, get_path_parameters, set_method, method_of, set_path,
}
use miniaibrowse_cpp.Http.Response.{HttpResponse, new_response, send, shutdown}
use miniaibrowse_cpp.Http.Buffer.{bytes_buffer}
use miniaibrowse_cpp.Http.Context.{
  process_target, set_protocol, set_target, HttpContext, expect_request_line, process_request_line,
  expects_body,
}
use miniaibrowse_cpp.Http.Context.Lines.{IsKnown, print_line}
use miniaibrowse_cpp.Http.Context.Messages.{IsTarget, print_message, headed_request}
use miniaibrowse_cpp.Middleware.{
  MiddlewareChain, passed, cors, qps_metrics, add_middleware, process_before, process_after,
  after_one,
}
use miniaibrowse_cpp.Middleware.Order.{then_before, add_middleware-order}
use miniaibrowse_cpp.Middleware.Cors.{CorsConfig, default_config}
use miniaibrowse_cpp.Middleware.Cors.Origins.{Listed}
use miniaibrowse_cpp.Middleware.Qps.{Metrics}
use miniaibrowse_cpp.Router.{
  route_key, route_regex_handlers, route_regex_callbacks, Router, Target, to_handler, to_callback,
  route_key_eq, register_handler, extract_path_parameters, route,
}
use miniaibrowse_cpp.Router.Precedence.{key_of, key_at, route-register_handler}
use miniaibrowse_cpp.Router.Parameters.{param_key, get_path_parameters-extract}
use miniaibrowse_cpp.Server
use miniaibrowse_cpp.Server.{
  on_message, delivered, died, State, on_request, handle_request, bad_request,
}
use miniaibrowse_cpp.Server.Answers.{on_request_unrouted_versionless}
use miniaibrowse_cpp.Server.Delivery.{on_message-print_message, on_message_dies}

abbrev no_match : Bytes → Bytes → Option (List Bytes)
no_match regex path = none

abbrev no_routes : Router ℕ ℕ
no_routes = record { handlers = []; callbacks = []; regex_handlers = []; regex_callbacks = [] }

abbrev get_chat : HttpRequest
get_chat = record empty_request { method = get; path = codes "/chat" }

route-register_handler_example :
    route no_match (register_handler no_routes get (codes "/chat") 3) get_chat ≡ (
      if route_key_eq (key_at get (codes "/chat")) (key_of get_chat)
      then some (to_handler 3, get_chat)
      else route no_match no_routes get_chat)
route-register_handler_example =
    route-register_handler no_match no_routes get (codes "/chat") 3 get_chat

abbrev one_callback : Router ℕ ℕ
one_callback = record {
  handlers = [];
  callbacks = (key_at get (codes "/chat"), 4) ∷ [];
  regex_handlers = [];
  regex_callbacks = [];
}

chat_called : route no_match one_callback get_chat ≡ some (to_callback 4, get_chat)
unfolding route route_key_eq lookup bytes_eq
chat_called = refl

get_path_parameters-extract_example :
    get_path_parameters
      (extract_path_parameters (codes "a" ∷ codes "b" ∷ []) get_chat)
      (param_key 2)
    ≡ codes "b"
get_path_parameters-extract_example =
    get_path_parameters-extract 1 (codes "a" ∷ codes "b" ∷ []) get_chat (codes "b") refl
      (ground arith)

abbrev two_origins : CorsConfig
two_origins = record default_config { allowed_origins = codes "a" ∷ codes "b" ∷ [] }

other_text : (s t : Bytes) → bytes_eq s t ≡ false → s ≢ t
other_text s t e same = ground (arith, bytes_eq_iff s t)

no_star : Listed (codes "*") two_origins.allowed_origins → Listed (codes "*") []
unfolding bytes_eq
no_star (inl e) = absurd (other_text (codes "a") (codes "*") refl e)
no_star (inr (inl e)) = absurd (other_text (codes "b") (codes "*") refl e)
no_star (inr (inr e)) = e

abbrev two_hits : Metrics
two_hits = record { total = 2; hits = 100 ∷ 200 ∷ [] }

abbrev cors_first : MiddlewareChain
cors_first = some (cors default_config) ∷ []

add_middleware-order_example :
    (process_before 5 (add_middleware cors_first (some qps_metrics)) get_chat two_hits
      ≡ then_before 5
          (some qps_metrics ∷ [])
          get_chat
          (process_before 5 cors_first get_chat two_hits))
    × (process_after (add_middleware cors_first (some qps_metrics)) (new_response true)
        ≡ process_after cors_first (after_one (some qps_metrics) (new_response true)))
add_middleware-order_example =
    add_middleware-order 5 cors_first (some qps_metrics) get_chat two_hits (new_response true)

abbrev failing : Target ℕ ℕ → HttpRequest → HttpResponse → ℕ → HttpResponse × ℕ × Server.Outcome
failing target request r app = (r, app + 1, Server.threw (codes "no database"))

abbrev fresh : State ℕ
fresh = record { metrics = two_hits; app = 0 }

empty_chain_passes :
    (request : HttpRequest) → process_before 5 [] request two_hits ≡ (two_hits, passed)
unfolding process_before
empty_chain_passes request = refl

nothing_routed : (request : HttpRequest) → route no_match no_routes request ≡ none
unfolding route lookup route_regex_handlers route_regex_callbacks
nothing_routed request = refl

get_no_body : expects_body get ≡ false
unfolding expects_body
get_no_body = refl

on_request_unrouted_versionless_example :
    (rest : Bytes) × (on_request no_match failing [] no_routes 5 9 get_chat fresh
      ≡ some (record { metrics = two_hits; app = 0 }, send (b' ' ∷ rest) ∷ shutdown ∷ []))
on_request_unrouted_versionless_example =
    on_request_unrouted_versionless no_match failing no_routes [] 5 9 get_chat fresh two_hits
      (empty_chain_passes get_chat) (nothing_routed get_chat)

get_IsKnown : IsKnown get
get_IsKnown = (ground arith, ground arith)

chat_IsTarget : IsTarget (codes "/chat")
chat_IsTarget = (ground arith, ground arith)

abbrev arrived : HttpRequest
arrived = headed_request 0 empty_request get (codes "/chat") true []

unrouted :
    (rest : Bytes) × (on_request no_match failing [] no_routes 5 9 arrived fresh
      ≡ some (record { metrics = two_hits; app = 0 }, send (b' ' ∷ rest) ∷ shutdown ∷ []))
unrouted =
    on_request_unrouted_versionless no_match failing no_routes [] 5 9 arrived fresh two_hits
      (empty_chain_passes arrived) (nothing_routed arrived)

on_message-print_message_example :
    (c' : HttpContext) × (on_message no_match failing [] no_routes bytes_buffer 0 5 9
        (record { state = expect_request_line; request = empty_request })
        (print_message get (codes "/chat") true [] (codes "rest"))
        fresh
      ≡ some (delivered c' (codes "rest") fresh (send (b' ' ∷ unrouted.0) ∷ shutdown ∷ [])))
    × (c'.state ≡ expect_request_line)
    × (c'.request.method ≡ invalid)
on_message-print_message_example =
    on_message-print_message no_match failing [] no_routes 0 5 9 empty_request get (codes "/chat")
      true [] (codes "rest") fresh fresh (send (b' ' ∷ unrouted.0) ∷ shutdown ∷ []) get_IsKnown refl
      chat_IsTarget (ground arith) get_no_body unrouted.1

abbrev http_two : Bytes
http_two = codes "GET / HTTP/2"

abbrev refused : HttpRequest
refused = record empty_request { method = get; path = codes "/" }

http_two-refused : process_request_line empty_request http_two ≡ some (refused, false)
unfolding process_request_line process_target set_protocol set_target find set_method method_of
    set_path bytes_eq
http_two-refused = refl

on_message_dies_example :
    (on_message no_match failing [] no_routes bytes_buffer 0 5 9
        (record { state = expect_request_line; request = empty_request })
        (print_line http_two [])
        fresh
      ≡ some (
          delivered
            (record { state = expect_request_line; request = refused })
            (print_line http_two [])
            fresh
            bad_request))
    × (on_message no_match failing [] no_routes bytes_buffer 1 6 9
          (record { state = expect_request_line; request = refused })
          (print_line http_two [] ++ codes "x")
          fresh
        ≡ some died)
on_message_dies_example =
    on_message_dies no_match failing [] no_routes 0 5 9 1 6 empty_request refused http_two []
      (codes "x") fresh fresh (ground arith) refl http_two-refused (ground arith)
