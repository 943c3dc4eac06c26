-- ===== src/Chat/Handlers/Streaming.antt =====
-- AIApps/ChatServer/src/handlers/ChatStreamHandler.cpp: the handler, and the thread that it starts. `transfer`
-- is libcurl: the error of a transfer and the pieces that it brought. The mode that simulates a model is off.
pub mod Ends
use miniaibrowse_cpp.Common.{
  ℕ, Bool, true, false, List, [], ◌∷◌, ◌++◌, Option, none, some, Bytes, codes, utf8, is_empty,
  bytes_eq, bytes_key, ℕ_key, insert, ℤ, pos, stoi, if◌then◌else◌,
}
use miniaibrowse_cpp.Http.Request.{HttpRequest}
use miniaibrowse_cpp.Http.Response.{
  HttpResponse, Effect, send, set_status_line, set_close_connection, set_content_type, set_body,
  mark_streamed,
}
use miniaibrowse_cpp.Session.{get_session, value_at}
use miniaibrowse_cpp.Chat.Accounts.{Outcome, returned, threw, stoi_error}
use miniaibrowse_cpp.Chat.History.{Row, Message, ensure_user_data_loaded}
use miniaibrowse_cpp.Chat.Deletion.{ServerState}
use miniaibrowse_cpp.Chat.Json.{JsonLibrary}
use miniaibrowse_cpp.Chat.Sse.{frame, run_stream}
use miniaibrowse_cpp.Chat.Strategy.{
  AiStrategy, create, get_api_url, get_api_key, build_request, model_request,
  parse_response_streaming,
}
use miniaibrowse_cpp.Chat.Helper.{Helper, Speaker, add_message}
use miniaibrowse_cpp.Chat.Curl.{HttpPost}
use miniaibrowse_cpp.Chat.Handlers.{messages_of, put_messages, emplace_helper}
use miniaibrowse_cpp.Chat.Handlers.Talk.{Question, generate, add_session, read_question}

-- The message stored for a stream that brought nothing.
abbrev pub placeholder : Bytes
placeholder = utf8 "[错误] AI 回复失败，请重试"

abbrev crlf : Bytes
crlf = 13 ∷ 10 ∷ []

-- What is sent before the events.
abbrev pub stream_head : Bytes
stream_head =
    codes "HTTP/1.1 200 OK"
    ++ (crlf
        ++ (codes "Content-Type: text/event-stream"
            ++ (crlf
                ++ (codes "Cache-Control: no-cache"
                    ++ (crlf
                        ++ (codes "X-Accel-Buffering: no"
                            ++ (crlf ++ (codes "Connection: close" ++ (crlf ++ crlf)))))))))

-- The body of the answer to a visitor who is not logged in.
abbrev pub unauthorized_body : Bytes
unauthorized_body =
    123
    ∷ 34
    ∷ (codes "status"
        ++ 34
          ∷ 58
          ∷ 34
          ∷ (codes "error"
              ++ 34
                ∷ 44
                ∷ 34
                ∷ (codes "message" ++ 34 ∷ 58 ∷ 34 ∷ (codes "Unauthorized" ++ 34 ∷ 125 ∷ []))))

abbrev pub unauthorized : HttpRequest → HttpResponse → HttpResponse
unauthorized req resp =
    let r1 = set_status_line resp req.version 401 (codes "Unauthorized") in
    let r2 = set_close_connection r1 true in
    let r3 = set_content_type r2 (codes "application/json") in set_body r3 unauthorized_body

-- The helper of a session taken out of the server's state, and put back. The second part of the state is the
-- clock.
abbrev pub helper_of : {Rng : Type 0} → ℤ → Bytes → ServerState Rng × ℕ → Helper
helper_of user sid (st, clock) = record {
  messages = messages_of user sid st.chats;
  published = st.published;
  clock = clock;
}

abbrev pub with_helper :
    {Rng : Type 0} → ℤ → Bytes → Helper → ServerState Rng × ℕ → ServerState Rng × ℕ
with_helper user sid h (st, clock) = (
  record st { chats = put_messages user sid h.messages st.chats; published = h.published },
  h.clock,
)

unfoldable pub add_to :
    {Rng : Type 0} → (ℕ → ℕ) → Speaker → Bool → Bytes → ServerState Rng × ℕ → ServerState Rng × ℕ
add_to tick who is_user content st =
    with_helper who.user_id who.session_id
      (add_message tick who is_user content (helper_of who.user_id who.session_id st)) st

module _ (J : JsonLibrary) (getenv : Bytes → Option Bytes) where
  open J use {Value, dump, from_bool, from_integer, object, members}

  abbrev pub stream_headers : Bytes → List Bytes
  stream_headers key =
      (if is_empty key then [] else (codes "Authorization: Bearer " ++ key) ∷ [])
      ++ codes "Content-Type: application/json"
        ∷ codes "Accept: text/event-stream"
        ∷ codes "Cache-Control: no-cache"
        ∷ []

  -- `buildStreamRequest`, for a history.
  unfoldable pub build_stream_request : AiStrategy J getenv → List Message → Value
  build_stream_request s messages = object (
      insert (codes "max_tokens") (from_integer (pos 200000))
        (insert (codes "stream") (from_bool true) (members (build_request J getenv s messages))))

  -- A stream that the handler has begun, for its thread.
  pub record Started : Type 0 where
    pub who : Speaker
    pub strategy : AiStrategy J getenv
    pub payload : Value

  -- `executeCurlStream`: the exception that it throws, if any, and the pieces that came before.
  unfoldable pub execute_curl_stream :
      (HttpPost → Option Bytes × List Bytes)
      → AiStrategy J getenv
      → Value
      → Option Bytes × List Bytes
  execute_curl_stream transfer s payload = elim (get_api_url J getenv s) [
    | threw what ↦ (some what, [])
    | returned url ↦ transfer (record {
      url = url;
      headers = stream_headers (get_api_key J getenv s);
      payload = dump payload;
    })
  ]

  module _ (tick : ℕ → ℕ) (transfer : HttpPost → Option Bytes × List Bytes) where
    -- The thread: what it sends, and the reply that it stores.
    unfoldable pub stream_thread :
        {Rng : Type 0} → Started → ServerState Rng × ℕ → List Effect × (ServerState Rng × ℕ)
    stream_thread started st =
        let (failure, pieces) = execute_curl_stream transfer started.strategy started.payload in
        let (reply, effects) =
          run_stream (parse_response_streaming J getenv) placeholder failure pieces in
        (effects, add_to tick started.who false reply st)

    abbrev pub session_frame : Bool → Bytes → List Effect
    session_frame is_new sid = if is_new then send (frame (codes "sessionId") sid) ∷ [] else []

    -- Once there is a connection and a helper.
    unfoldable pub begin_stream :
        {Rng : Type 0}
        → Speaker
        → Bool
        → Question
        → HttpResponse
        → ServerState Rng × ℕ
        → Outcome (HttpResponse × List Effect × Option Started) × (ServerState Rng × ℕ)
    begin_stream who is_new q resp st = elim (create J getenv q.model_type) [
      | threw what ↦ (threw what, st)
      | returned s ↦
          let asked = add_to tick who true q.user_question st in
          let history = messages_of who.user_id who.session_id asked.0.chats in
          (
            returned (
              mark_streamed resp,
              send stream_head ∷ session_frame is_new who.session_id,
              some (record { who = who; strategy = s; payload = build_stream_request s history }),
            ),
            asked,
          )
    ]

    abbrev Answer : Type 0
    Answer = Outcome (HttpResponse × List Effect × Option Started)

    -- The session that a question goes to, which may be a new one; nothing more without a connection.
    unfoldable pub stream_question :
        {Rng : Type 0}
        → Bytes
        → ℤ
        → Bytes
        → HttpResponse
        → ServerState Rng × ℕ
        → Question
        → Answer × (ServerState Rng × ℕ)
    stream_question fresh user username resp (st, clock) q =
        let is_new = is_empty q.session_id in
        let sid = if is_new then fresh else q.session_id in
        let chats = if is_new then add_session user sid st.chats else st.chats in
        elim resp.connection [
          | none ↦ (returned (resp, [], none), (record st { chats = chats }, clock))
          | some conn ↦
              begin_stream (record { user_id = user; user_name = username; session_id = sid })
                is_new q resp (record st { chats = emplace_helper user sid chats }, clock)
        ]

    unfoldable pub stream_of_user :
        {Rng : Type 0}
        → (ℤ → Option (List (Option Row)))
        → Bytes
        → HttpRequest
        → HttpResponse
        → ServerState Rng × ℕ
        → Option ℤ
        → Bytes
        → Answer × (ServerState Rng × ℕ)
    stream_of_user rows fresh req resp st none username = (threw stoi_error, st)
    stream_of_user rows fresh req resp (st, clock) (some user) username =
        let st' = record st { chats = ensure_user_data_loaded user (rows user) st.chats } in
        elim (read_question J req.content) [
          | threw what ↦ (threw what, (st', clock))
          | returned q ↦ stream_question fresh user username resp (st', clock) q
        ]

    -- `ChatStreamHandler::handle`, which catches nothing; `random` is what the generator of session ids draws.
    unfoldable pub stream_handler :
        (ℤ → Option (List (Option Row)))
        → {Rng : Type 0} → (Rng → ℕ × Rng)
        → ℕ
        → ℕ
        → ℕ
        → HttpRequest
        → HttpResponse
        → ServerState Rng × ℕ
        → Answer × (ServerState Rng × ℕ)
    stream_handler rows draw random now later req resp (st, clock) =
        let (p, store, resp') = get_session draw now later req resp st.store in
        let st' = record st { store = store } in
        if bytes_eq (value_at store p (codes "isLoggedIn")) (codes "true")
        then stream_of_user rows (generate now random) req resp' (st', clock)
            (stoi (value_at store p (codes "userId"))) (value_at store p (codes "username"))
        else (returned (unauthorized req resp', [], none), (st', clock))
