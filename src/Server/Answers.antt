-- ===== src/Server/Answers.antt =====
-- What `handleRequest` and `onRequest` answer, on every way through them.
use miniaibrowse_cpp.Common.{
  ℕ, ◌≡◌, refl, ap, ◌∙◌, true, false, List, [], ◌∷◌, Option, none, some, Bytes, bytes_key, ℕ_key,
  if◌then◌else◌, arith,
}
use miniaibrowse_cpp.Http.Request.{HttpRequest, Method}
use miniaibrowse_cpp.Http.Response.{
  HttpResponse, new_response, Effect, send, shutdown, append_to_buffer, set_connection,
}
use miniaibrowse_cpp.Http.Response.Layout.{append_to_buffer_versionless}
use miniaibrowse_cpp.Middleware.{
  cors, qps_metrics, MiddlewareChain, passed, process_before, process_after,
}
use miniaibrowse_cpp.Middleware.Cors.Origins.{SameButHeaders, after-SameButHeaders}
use miniaibrowse_cpp.Middleware.Order.{chat_chain, process_before-chat_chain}
use miniaibrowse_cpp.Middleware.Qps.{Metrics}
use miniaibrowse_cpp.Router.{Router, Target, route}
use miniaibrowse_cpp.Server.{
  Outcome, returned, not_found, wants_close, State, finish, dispatch, handle_request, send_response,
  on_request,
}

process_after-SameButHeaders :
    (chain : MiddlewareChain) (r : HttpResponse) → SameButHeaders r (process_after chain r)
unfolding process_after
process_after-SameButHeaders [] r = refl
process_after-SameButHeaders (none ∷ chain) r = process_after-SameButHeaders chain r
process_after-SameButHeaders (some qps_metrics ∷ chain) r = process_after-SameButHeaders chain r
process_after-SameButHeaders (some (cors config) ∷ chain) r = ground (
  arith,
  after-SameButHeaders config (process_after chain r),
  process_after-SameButHeaders chain r,
)

module _ {S H C : Type 0} (regex_match : Bytes → Bytes → Option (List Bytes))
    (handle : Target H C → HttpRequest → HttpResponse → S → HttpResponse × S × Outcome)
    (router : Router H C) where
  -- With the chat server's middlewares a preflight request reaches no handler and is not counted: the
  -- application's state stays, and the answer is the middleware's own, with status 204.
  pub handle_request-preflight :
      (now : ℕ) (request : HttpRequest) (r : HttpResponse) (st : State S)
      → request.method ≡ Method.options
      → (answer : HttpResponse) × (handle_request regex_match handle chat_chain router now request r
            st
          ≡ some (answer, st))
        × (answer.status_code ≡ 204)
  unfolding handle_request
  handle_request-preflight now request r st e =
      let (answer, thrown_e, code) = (process_before-chat_chain now request st.metrics).1 e in
      (answer, rw (thrown_e, handle_request) refl, code)

  abbrev send_of : HttpResponse → List Effect
  send_of = send_response regex_match handle [] router

  module _ (chain : MiddlewareChain) (now : ℕ) (request : HttpRequest) (r : HttpResponse)
      (st : State S) (m : Metrics)
      (passes : process_before now chain request st.metrics ≡ (m, passed)) where
    abbrev handled : Option (HttpResponse × State S)
    handled = handle_request regex_match handle chain router now request r st

    handled-dispatch : handled ≡ some (dispatch regex_match handle chain router m request r st.app)
    unfolding handle_request
    handled-dispatch = rw (passes, handle_request) refl

    -- A request that passes the middlewares and that no route takes is answered by 404 and the wish
    -- to close, whatever middlewares ran after it, and leaves the application's state.
    pub handle_request-unrouted :
        route regex_match router request ≡ none
        → (answer : HttpResponse) × (handled ≡ some (answer, record { metrics = m; app = st.app }))
          × (answer.status_code ≡ 404)
          × (answer.close_connection ≡ true)
          × (answer.http_version ≡ r.http_version)
          × (answer.streamed ≡ r.streamed)
    unfolding dispatch not_found
    handle_request-unrouted e =
        let same = process_after-SameButHeaders chain (not_found r) in
        (
          process_after chain (not_found r),
          handled-dispatch ∙ rw (e, dispatch) refl,
          ap (λ a. a.status_code) same,
          ap (λ a. a.close_connection) same,
          ap (λ a. a.http_version) same,
          ap (λ a. a.streamed) same,
        )

  send_response_closing :
      (r : HttpResponse) (bytes : Bytes)
      → r.streamed ≡ false
      → r.close_connection ≡ true
      → append_to_buffer r ≡ bytes
      → send_of r ≡ send bytes ∷ shutdown ∷ []
  send_response_closing r bytes s c e = ground arith

  send_response_same :
      (r r' : HttpResponse)
      → SameButHeaders r r'
      → send_of r' ≡ (
          if r.streamed
          then []
          else send (append_to_buffer r') ∷ (if r.close_connection then shutdown ∷ [] else []))
  send_response_same r r' same =
      let s : r'.streamed ≡ r.streamed = ap (λ a. a.streamed) same in
      let c : r'.close_connection ≡ r.close_connection = ap (λ a. a.close_connection) same in
      ground (arith, s, c)

  -- The answer to a request that passes the middlewares and that no route takes is no HTTP message:
  -- nobody has set a version, so its
  -- status line begins with a space. It is sent, and the connection shut down.
  pub on_request_unrouted_versionless :
      (chain : MiddlewareChain) (now conn : ℕ) (request : HttpRequest) (st : State S) (m : Metrics)
      → process_before now chain request st.metrics ≡ (m, passed)
      → route regex_match router request ≡ none
      → (rest : Bytes) × (on_request regex_match handle chain router now conn request st
          ≡ some (record { metrics = m; app = st.app }, send (b' ' ∷ rest) ∷ shutdown ∷ []))
  unfolding on_request set_connection
  on_request_unrouted_versionless chain now conn request st m passes e =
      let r = set_connection (new_response (wants_close request)) conn in
      let (answer, answered, code, closes, version, streamed) =
        handle_request-unrouted chain now request r st m passes e in
      let (rest, begins) = append_to_buffer_versionless answer version in
      (
        rest,
        rw (answered, on_request)
            (ap (λ es. some (record { metrics = m; app = st.app }, es))
              (send_response_closing answer (b' ' ∷ rest) streamed closes begins)),
      )

  -- What is sent for a request that passes and whose handler returns: nothing at all if the response
  -- was streamed, else the whole response in one piece, followed by a shutdown exactly if the
  -- response asks to close.
  pub on_request_returned :
      (chain : MiddlewareChain) (now conn : ℕ) (request request' : HttpRequest) (st : State S)
      (m : Metrics) (target : Target H C) (r' : HttpResponse) (app : S)
      → process_before now chain request st.metrics ≡ (m, passed)
      → route regex_match router request ≡ some (target, request')
      → handle target request' (set_connection (new_response (wants_close request)) conn) st.app
        ≡ (r', app, returned)
      → let answer = process_after chain r' in
        (on_request regex_match handle chain router now conn request st
          ≡ some (
            record { metrics = m; app = app },
            if r'.streamed
                then []
                else send (append_to_buffer answer)
                  ∷ (if r'.close_connection then shutdown ∷ [] else []),
          ))
  unfolding on_request dispatch
  on_request_returned chain now conn request request' st m target r' app passes e f =
      let r = set_connection (new_response (wants_close request)) conn in
      let answer = process_after chain r' in
      let dispatched : dispatch regex_match handle chain router m request r st.app
          ≡ (answer, record { metrics = m; app = app }) =
        rw (e, dispatch) (ap (finish regex_match handle chain router m) f) in
      rw (handled-dispatch chain now request r st m passes, on_request, dispatched)
        (ap (λ es. some (record { metrics = m; app = app }, es))
          (send_response_same r' answer (process_after-SameButHeaders chain r')))
