-- ===== src/Chat/Handlers.antt =====
-- What the handlers of AIApps/ChatServer/src/handlers share: the session, its user, the user's data, and the
-- answer to an exception. `rows` is what MySQL gives for a user. Some of them set the version of the response
-- before the status line, which sets it anew.
pub mod Listing
pub mod Renaming
pub mod Talk
pub mod Streaming
use miniaibrowse_cpp.Common.{
  ◌≡◌, refl, lookup-insert_self, ℕ, true, List, [], Option, none, some, Bytes, codes, length,
  bytes_eq, bytes_key, ℕ_key, lookup, insert, ℤ, stoi, if◌then◌else◌,
}
use miniaibrowse_cpp.Http.Request.{HttpRequest}
use miniaibrowse_cpp.Http.Response.{HttpResponse, set_version}
use miniaibrowse_cpp.Session.{get_session, value_at}
use miniaibrowse_cpp.Chat.Accounts.{
  ℤ_eq_self, Outcome, returned, threw, answer, package_resp, stoi_error,
}
use miniaibrowse_cpp.Chat.History.{Row, Message, Chats, set_user, ensure_user_data_loaded}
use miniaibrowse_cpp.Chat.Deletion.{ServerState}
use miniaibrowse_cpp.Chat.Json.{JsonLibrary}

-- A value bound to a `?` of a statement.
pub data SqlValue : Type 0 where
  integer : ℤ → SqlValue
  text : Bytes → SqlValue

-- The messages of a session of a user; none when there is no helper.
abbrev pub messages_of : ℤ → Bytes → Chats → List Message
messages_of user sid chats = elim (lookup sid (chats.chat_information user)) [
  | none ↦ []
  | some ms ↦ ms
]

unfoldable pub put_messages : ℤ → Bytes → List Message → Chats → Chats
put_messages user sid ms chats = record chats {
  chat_information =
      set_user user (insert sid ms (chats.chat_information user)) chats.chat_information;
}

pub messages_of-put_messages :
    (user : ℤ) (sid : Bytes) (ms : List Message) (chats : Chats)
    → messages_of user sid (put_messages user sid ms chats) ≡ ms
unfolding put_messages
messages_of-put_messages user sid ms chats =
    rw (ℤ_eq_self user, messages_of)
      (rw (lookup-insert_self sid ms (chats.chat_information user), messages_of) refl)

-- The helper of a session, made when there is none.
unfoldable pub emplace_helper : ℤ → Bytes → Chats → Chats
emplace_helper user sid chats = elim (lookup sid (chats.chat_information user)) [
  | none ↦ put_messages user sid [] chats
  | some ms ↦ chats
]

-- The rest of a handler, for its user and the name of that. `World` is what it changes beside the server.
abbrev pub Action : Type 0 → Type 0 → Type 0
Action Rng World =
    ℤ
    → Bytes
    → HttpResponse
    → ServerState Rng × World
    → Outcome HttpResponse × (ServerState Rng × World)

module _ (J : JsonLibrary) where
  open J use {Value, dump_indented, from_text, object}

  abbrev pub error_body : Bytes → Bytes
  error_body what = dump_indented (
      object (
        insert (codes "message") (from_text what)
          (insert (codes "status") (from_text (codes "error")) [])))

  -- What is sent for an exception.
  unfoldable pub failed : HttpRequest → Bytes → HttpResponse → HttpResponse
  failed req what resp = answer req 400 (codes "Bad Request") true (error_body what) resp

  unfoldable pub unauthorized : HttpRequest → HttpResponse → HttpResponse
  unauthorized req resp =
      let body = error_body (codes "Unauthorized") in
      package_resp req.version 401 (codes "Unauthorized") true (codes "application/json")
        (length body) body resp

  module _ (rows : ℤ → Option (List (Option Row))) {Rng : Type 0} (draw : Rng → ℕ × Rng)
      {World : Type 0} where
    abbrev pub caught :
        HttpRequest
        → HttpResponse
        → Outcome HttpResponse × (ServerState Rng × World)
        → HttpResponse × (ServerState Rng × World)
    caught req resp (threw what, st) = (failed req what resp, st)
    caught req resp (returned resp', st) = (resp', st)

    unfoldable pub for_user :
        HttpRequest
        → Action Rng World
        → HttpResponse
        → ServerState Rng × World
        → Option ℤ
        → Bytes
        → HttpResponse × (ServerState Rng × World)
    for_user req act resp st none username = (failed req stoi_error resp, st)
    for_user req act resp (st, world) (some user) username =
        let st' = record st { chats = ensure_user_data_loaded user (rows user) st.chats } in
        caught req resp (act user username resp (st', world))

    -- What `handle` does before and after the part that the handlers differ in.
    unfoldable pub handle :
        Action Rng World
        → ℕ
        → ℕ
        → HttpRequest
        → HttpResponse
        → ServerState Rng × World
        → HttpResponse × (ServerState Rng × World)
    handle act now later req resp (st, world) =
        let (p, store, resp') = get_session draw now later req resp st.store in
        let st' = record st { store = store } in
        if bytes_eq (value_at store p (codes "isLoggedIn")) (codes "true")
        then for_user req act resp' (st', world) (stoi (value_at store p (codes "userId")))
            (value_at store p (codes "username"))
        else (unauthorized req resp', (st', world))
