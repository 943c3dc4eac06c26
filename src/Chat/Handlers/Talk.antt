-- ===== src/Chat/Handlers/Talk.antt =====
-- AIApps/ChatServer/src/handlers/ChatSendHandler.cpp and ChatHistoryHandler.cpp, and the session ids of
-- src/AIUtil/AISessionIdGenerator.cpp. A helper is used by one request at a time.
pub mod Shown
use miniaibrowse_cpp.Common.{
  ℕ, zero, suc, ◌+◌, ◌*◌, ◌/◌, ◌%◌, Bool, true, false, List, [], ◌∷◌, ◌++◌, Option, none, some,
  Bytes, codes, bytes_key, ℕ_key, Dict, insert, ℤ, to_string, ◌==◌,
}
use miniaibrowse_cpp.Http.Request.{HttpRequest}
use miniaibrowse_cpp.Http.Response.{HttpResponse}
use miniaibrowse_cpp.Chat.Accounts.{Outcome, returned, threw, answer}
use miniaibrowse_cpp.Chat.History.{Row, Message, Chats, set_user}
use miniaibrowse_cpp.Chat.Deletion.{ServerState}
use miniaibrowse_cpp.Chat.Json.{JsonLibrary, as_text}
use miniaibrowse_cpp.Chat.Helper.{Helper, Speaker}
use miniaibrowse_cpp.Chat.Curl.{HttpPost}
use miniaibrowse_cpp.Chat.Conversation.{chat}
use miniaibrowse_cpp.Chat.Handlers.{messages_of, put_messages, emplace_helper, handle}

-- `now ^ randVal`, of `bits` bits.
unfoldable pub xor : ℕ → ℕ → ℕ → ℕ
xor zero a b = 0
xor (suc bits) a b = (a % 2 + b % 2) % 2 + 2 * xor bits (a / 2) (b / 2)

-- `AISessionIdGenerator::generate`, of a time and a random number.
unfoldable pub generate : ℕ → ℕ → Bytes
generate now random = to_string (xor 64 now (random % 100000))

pub record Question : Type 0 where
  pub user_question : Bytes
  pub session_id : Bytes
  pub model_type : Bytes

-- A new session of the user.
unfoldable pub add_session : ℤ → Bytes → Chats → Chats
add_session user sid chats = record chats {
  sessions_ids_map = set_user user (chats.sessions_ids_map user ++ sid ∷ []) chats.sessions_ids_map;
}

-- The session of a question: one without an id begins a session.
unfoldable pub session_for : ℤ → Bytes → Bytes → Chats → Bytes × Chats
session_for user fresh [] chats = (fresh, emplace_helper user fresh (add_session user fresh chats))
session_for user fresh (c ∷ sid) chats = (c ∷ sid, emplace_helper user (c ∷ sid) chats)

module _ (J : JsonLibrary) where
  open J use {Value, parse, member, dump_indented, from_text, from_bool, object, array, error_text}

  -- `if (j.contains(key)) text = j[key]`.
  abbrev pub text_of : Bytes → Bytes → Value → Outcome Bytes
  text_of d key j = elim (member key j) [ none ↦ returned d | some x ↦ as_text J x ]

  abbrev pub read_fields : Value → Outcome Question
  read_fields j = elim (text_of [] (codes "question") j) [
    | threw what ↦ threw what
    | returned question ↦ elim (text_of [] (codes "sessionId") j) [
      | threw what ↦ threw what
      | returned sid ↦ elim (text_of (codes "1") (codes "modelType") j) [
        | threw what ↦ threw what
        | returned model ↦
            returned (record { user_question = question; session_id = sid; model_type = model })
      ]
    ]
  ]

  -- What a body asks. An empty one names no model either.
  unfoldable pub read_question : Bytes → Outcome Question
  read_question [] = returned (record { user_question = []; session_id = []; model_type = [] })
  read_question (c ∷ body) = elim (parse (c ∷ body)) [
    | none ↦ threw error_text
    | some j ↦ read_fields j
  ]

  -- A message at an even place is the user's.
  abbrev pub message_entry : ℕ → Message → Value
  message_entry i m = object (
      insert (codes "content") (from_text m.0)
        (insert (codes "is_user") (from_bool (i % 2 == 0)) []))

  unfoldable pub history_entries : ℕ → List Message → List Value
  history_entries i [] = []
  history_entries i (m ∷ messages) = message_entry i m ∷ history_entries (suc i) messages

  -- The session that a body names.
  unfoldable pub read_session_id : Bytes → Outcome Bytes
  read_session_id [] = returned []
  read_session_id (c ∷ body) = elim (parse (c ∷ body)) [
    | none ↦ threw error_text
    | some j ↦ text_of [] (codes "sessionId") j
  ]

  unfoldable pub show_history :
      {Rng : Type 0}
      → HttpRequest
      → ℤ
      → Bytes
      → HttpResponse
      → ServerState Rng × Unit {0}
      → Outcome HttpResponse × (ServerState Rng × Unit {0})
  show_history req user username resp (st, world) = elim (read_session_id req.content) [
    | threw what ↦ (threw what, (st, world))
    | returned sid ↦
        let chats = emplace_helper user sid st.chats in
        let body = dump_indented (
          object (
            insert (codes "history") (array (history_entries 0 (messages_of user sid chats)))
              (insert (codes "success") (from_bool true) []))) in
        (
          returned (answer req 200 (codes "OK") false body resp),
          (record st { chats = chats }, world),
        )
  ]

  -- `ChatHistoryHandler::handle`.
  unfoldable pub chat_history :
      (ℤ → Option (List (Option Row)))
      → {Rng : Type 0} → (Rng → ℕ × Rng)
      → ℕ
      → ℕ
      → HttpRequest
      → HttpResponse
      → ServerState Rng × Unit {0}
      → HttpResponse × (ServerState Rng × Unit {0})
  chat_history rows draw now later req resp st =
      handle J rows draw (show_history req) now later req resp st

  module _ (getenv : Bytes → Option Bytes) (tick : ℕ → ℕ)
      (walk : Dict Bytes Bytes → List (Bytes × Bytes))
      (regex_replace : Bytes → Bytes → Bytes → Bytes) (config_file : Option Bytes)
      (perform : ℕ → HttpPost → Outcome Bytes) (run_tool : Bytes → Option Value → Outcome Value)
      (simulate : Bool) where
    abbrev pub reply_body : Bytes → Bytes
    reply_body information = dump_indented (
        object (
          insert (codes "Information") (from_text information)
            (insert (codes "success") (from_bool true) [])))

    -- The helper as `chat` leaves it goes back to its session; `World` is the clock.
    abbrev pub stored :
        {Rng : Type 0}
        → HttpRequest
        → ℤ
        → Bytes
        → HttpResponse
        → ServerState Rng
        → Outcome Bytes × Helper
        → Outcome HttpResponse × (ServerState Rng × ℕ)
    stored req user sid resp st (outcome, h) =
        let st' = record st {
          chats = put_messages user sid h.messages st.chats;
          published = h.published;
        } in
        elim outcome [
          | threw what ↦ (threw what, (st', h.clock))
          | returned information ↦ (
            returned (answer req 200 (codes "OK") false (reply_body information) resp),
            (st', h.clock),
          )
        ]

    -- The question goes to the helper of its session.
    unfoldable pub ask_helper :
        {Rng : Type 0}
        → HttpRequest
        → Bytes
        → ℤ
        → Bytes
        → HttpResponse
        → ServerState Rng × ℕ
        → Question
        → Outcome HttpResponse × (ServerState Rng × ℕ)
    ask_helper req fresh user username resp (st, clock) q =
        let (sid, chats) = session_for user fresh q.session_id st.chats in
        let who : Speaker = record { user_id = user; user_name = username; session_id = sid } in
        let helper : Helper = record {
          messages = messages_of user sid chats;
          published = st.published;
          clock = clock;
        } in
        stored req user sid resp (record st { chats = chats })
          (chat J getenv tick walk regex_replace config_file perform run_tool who simulate
            q.user_question q.model_type helper)

    unfoldable pub send_question :
        {Rng : Type 0}
        → HttpRequest
        → Bytes
        → ℤ
        → Bytes
        → HttpResponse
        → ServerState Rng × ℕ
        → Outcome HttpResponse × (ServerState Rng × ℕ)
    send_question req fresh user username resp st = elim (read_question req.content) [
      | threw what ↦ (threw what, st)
      | returned q ↦ ask_helper req fresh user username resp st q
    ]

    -- `ChatSendHandler::handle`; `random` is what the generator of session ids draws.
    unfoldable pub chat_send :
        (ℤ → Option (List (Option Row)))
        → {Rng : Type 0} → (Rng → ℕ × Rng)
        → ℕ
        → ℕ
        → ℕ
        → HttpRequest
        → HttpResponse
        → ServerState Rng × ℕ
        → HttpResponse × (ServerState Rng × ℕ)
    chat_send rows draw random now later req resp st =
        handle J rows draw (send_question req (generate now random)) now later req resp st
