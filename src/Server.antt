-- ===== src/Server.antt =====
-- HttpServer/include/http/HttpServer.h and HttpServer/src/http/HttpServer.cpp, without TLS: what a server does
-- with the bytes of a connection. The handlers are a parameter, with the application's state, which
-- they change; the network's calls are a list of effects.
pub mod Answers
pub mod Delivery
use miniaibrowse_cpp.Common.{
  ℕ, Bool, true, not, ◌&&◌, ◌||◌, List, [], ◌∷◌, ◌++◌, Option, none, some, Bytes, codes, bytes_eq,
  bytes_key, ℕ_key, if◌then◌else◌,
}
use miniaibrowse_cpp.Http.Request.{HttpRequest, get_header}
use miniaibrowse_cpp.Http.Response.{
  HttpResponse, new_response, Effect, send, shutdown, set_version, set_status_code,
  set_status_message, set_close_connection, set_content_type, set_body, set_connection,
  append_to_buffer,
}
use miniaibrowse_cpp.Http.Buffer.{Buffer}
use miniaibrowse_cpp.Http.Context.{
  HttpContext, Round, again, done, raised, aborted, is_got_all, parse_request, reset,
}
use miniaibrowse_cpp.Middleware.{
  MiddlewareChain, Before, passed, thrown, crashed, process_before, process_after,
}
use miniaibrowse_cpp.Middleware.Qps.{Metrics}
use miniaibrowse_cpp.Router.{Router, Target, route}

-- How a handler leaves: by returning, with a thrown response, or with a `std::exception` and its text.
pub data Outcome : Type 0 where
  returned : Outcome
  threw_response : HttpResponse → Outcome
  threw : Bytes → Outcome

-- The answer to a request that no route takes.
unfoldable pub not_found : HttpResponse → HttpResponse
unfolding set_status_code set_status_message set_close_connection
not_found r =
    set_close_connection (set_status_message (set_status_code r 404) (codes "Not Found")) true

-- The answer to an exception.
unfoldable pub internal_error : HttpResponse → Bytes → HttpResponse
unfolding set_version set_status_code set_status_message set_close_connection set_body
internal_error r what =
    let r₁ = set_status_code (set_version r (codes "HTTP/1.1")) 500 in
    let r₂ = set_status_message r₁ (codes "Internal Server Error") in
    let r₃ = set_content_type r₂ (codes "text/plain; charset=utf-8") in
    set_body (set_close_connection r₃ true) (codes "Internal Server Error: " ++ what)

-- What `onRequest` makes of the Connection header and the version.
unfoldable pub wants_close : HttpRequest → Bool
wants_close request =
    let connection = get_header request (codes "Connection") in
    bytes_eq connection (codes "close")
    || (bytes_eq request.version (codes "HTTP/1.0")
        && not (bytes_eq connection (codes "Keep-Alive")))

abbrev pub bad_request : List Effect
bad_request = send (codes "HTTP/1.1 400 Bad Request" ++ 13 ∷ 10 ∷ 13 ∷ 10 ∷ []) ∷ shutdown ∷ []

pub record State (S : Type 0) : Type 0 where
  pub metrics : Metrics
  pub app : S

-- A call on a message: the connection's context and buffer, the state and the effects after it, or
-- the end of the process.
pub data Delivered (S B : Type 0) : Type 0 where
  delivered : HttpContext → B → State S → List Effect → Delivered S B
  died : Delivered S B

module _ {S H C : Type 0} (regex_match : Bytes → Bytes → Option (List Bytes))
    (handle : Target H C → HttpRequest → HttpResponse → S → HttpResponse × S × Outcome)
    (chain : MiddlewareChain) (router : Router H C) where
  -- The rest of `handleRequest` behind a handler's call.
  unfoldable pub finish : Metrics → HttpResponse × S × Outcome → HttpResponse × State S
  finish m (r, app, returned) = (process_after chain r, record { metrics = m; app = app })
  finish m (r, app, threw_response thrown_r) = (thrown_r, record { metrics = m; app = app })
  finish m (r, app, threw what) = (internal_error r what, record { metrics = m; app = app })

  unfoldable pub dispatch : Metrics → HttpRequest → HttpResponse → S → HttpResponse × State S
  unfolding finish
  dispatch m request r app = elim (route regex_match router request) [
    | none ↦ (process_after chain (not_found r), record { metrics = m; app = app })
    | some (target, request') ↦ finish m (handle target request' r app)
  ]

  unfoldable pub after_before :
      HttpRequest → HttpResponse → S → Metrics × Before → Option (HttpResponse × State S)
  unfolding dispatch
  after_before request r app (m, passed) = some (dispatch m request r app)
  after_before request r app (m, thrown thrown_r) =
      some (thrown_r, record { metrics = m; app = app })
  after_before request r app (m, crashed) = none

  -- `now` is the clock of the request counter. `none` is a call through a null middleware.
  unfoldable pub handle_request :
      ℕ → HttpRequest → HttpResponse → State S → Option (HttpResponse × State S)
  unfolding after_before
  handle_request now request r st =
      after_before request r st.app (process_before now chain request st.metrics)

  -- What is sent of a response; a streamed one was sent by its handler.
  abbrev pub send_response : HttpResponse → List Effect
  send_response r =
      if r.streamed
      then []
      else send (append_to_buffer r) ∷ (if r.close_connection then shutdown ∷ [] else [])

  unfoldable pub on_request : ℕ → ℕ → HttpRequest → State S → Option (State S × List Effect)
  on_request now conn request st =
      elim (handle_request now request (set_connection (new_response (wants_close request)) conn)
        st) [ none ↦ none | some (r, st') ↦ some (st', send_response r) ]

  module _ (B : Buffer) where
    open B use {Buf}

    -- The part of `onMessage` behind `parseRequest`, with what was sent before.
    unfoldable pub serve : ℕ → ℕ → HttpContext → Buf → State S → List Effect → Delivered S Buf
    serve now conn c b st sent =
        if is_got_all c.state
        then elim (on_request now conn c.request st) [
          | none ↦ died
          | some (st', effects) ↦ delivered (reset c) b st' (sent ++ effects)
        ]
        else delivered c b st sent

    abbrev pub after_parse : ℕ → ℕ → State S → Round Buf → Delivered S Buf
    after_parse now conn st (again c b) = delivered c b st []
    after_parse now conn st (done ok c b) =
        if ok then serve now conn c b st [] else serve now conn c b st bad_request
    after_parse now conn st (raised what c b) = delivered c b st bad_request
    after_parse now conn st aborted = died

    -- `none`: the loop of the parser does not end.
    unfoldable pub on_message : ℕ → ℕ → ℕ → HttpContext → Buf → State S → Option (Delivered S Buf)
    on_message receive_time now conn c b st = elim (parse_request B receive_time c b) [
      | none ↦ none
      | some r ↦ some (after_parse now conn st r)
    ]
