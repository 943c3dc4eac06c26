-- ===== src/Chat/Deletion.antt =====
-- AIApps/ChatServer/src/handlers/ChatDeleteSessionHandler.cpp. The rows of a user in MySQL and the session
-- id in a JSON body are parameters; what is published to `sql_queue` is a list.
pub mod Statements
use miniaibrowse_cpp.Common.{
  ℕ, Bool, true, false, not, ◌&&◌, List, [], ◌∷◌, ◌++◌, Option, none, some, Bytes, codes, length,
  all, is_empty, bytes_eq, is_digit, bytes_key, ℕ_key, erase, ℤ, stoi, to_string_ℤ, if◌then◌else◌,
}
use miniaibrowse_cpp.Http.Request.{HttpRequest}
use miniaibrowse_cpp.Http.Response.{HttpResponse}
use miniaibrowse_cpp.Session.{Sessions, get_session, value_at}
use miniaibrowse_cpp.Chat.Accounts.{
  Outcome, returned, threw, Json, text, flag, package_resp, answer, stoi_error,
}
use miniaibrowse_cpp.Chat.History.{Row, Chats, set_user, ensure_user_data_loaded}

pub record ServerState (Rng : Type 0) : Type 0 where
  pub store : Sessions Rng
  pub chats : Chats
  pub published : List Bytes

-- `erase(remove(...))`.
unfoldable pub remove_id : Bytes → List Bytes → List Bytes
remove_id id [] = []
remove_id id (x ∷ ids) = let rest = remove_id id ids in if bytes_eq x id then rest else x ∷ rest

unfoldable pub is_session_id : Bytes → Bool
is_session_id id = not (is_empty id) && all is_digit id

unfoldable pub delete_messages_sql : ℤ → Bytes → Bytes
delete_messages_sql user_id session_id =
    codes "DELETE FROM chat_message WHERE id = "
    ++ (to_string_ℤ user_id ++ (codes " AND session_id = " ++ session_id))

unfoldable pub forget_session : ℤ → Bytes → Chats → Chats
forget_session user id chats = record chats {
  chat_information = set_user user (erase id (chats.chat_information user)) chats.chat_information;
  sessions_ids_map =
      set_user user (remove_id id (chats.sessions_ids_map user)) chats.sessions_ids_map;
}

module _ (dump : List (Bytes × Json) → Bytes) (session_id_of : Bytes → Outcome Bytes)
    (rows : ℤ → Option (List (Option Row))) {Rng : Type 0} (draw : Rng → ℕ × Rng) where
  -- An empty body names no session.
  abbrev pub named_session : Bytes → Outcome Bytes
  named_session [] = returned []
  named_session (c ∷ body) = session_id_of (c ∷ body)

  unfoldable pub deletion_failed : HttpRequest → Bytes → HttpResponse → HttpResponse
  deletion_failed req what resp =
      answer req 400 (codes "Bad Request") true
        (dump ((codes "message", text what) ∷ (codes "status", text (codes "error")) ∷ [])) resp

  unfoldable pub delete_named :
      HttpRequest
      → HttpResponse
      → ℤ
      → ServerState Rng
      → Outcome Bytes
      → HttpResponse × ServerState Rng
  delete_named req resp user st (threw what) = (deletion_failed req what resp, st)
  delete_named req resp user st (returned id) =
      if is_session_id id
      then (
        answer req 200 (codes "OK") false
            (dump ((codes "sessionId", text id) ∷ (codes "success", flag true) ∷ [])) resp,
        record st {
          chats = forget_session user id st.chats;
          published = st.published ++ delete_messages_sql user id ∷ [];
        },
      )
      else (
        answer req 400 (codes "Bad Request") false
            (dump (
              (codes "message", text (codes "invalid sessionId"))
              ∷ (codes "status", text (codes "error"))
              ∷ []))
            resp,
        st,
      )

  unfoldable pub delete_of_user :
      HttpRequest → HttpResponse → ServerState Rng → Option ℤ → HttpResponse × ServerState Rng
  delete_of_user req resp st none = (deletion_failed req stoi_error resp, st)
  delete_of_user req resp st (some user) =
      delete_named req resp user
        (record st { chats = ensure_user_data_loaded user (rows user) st.chats })
        (named_session req.content)

  unfoldable pub unauthorized : HttpRequest → HttpResponse → HttpResponse
  unauthorized req resp =
      let body = dump (
        (codes "message", text (codes "Unauthorized"))
        ∷ (codes "status", text (codes "error"))
        ∷ []) in
      package_resp req.version 401 (codes "Unauthorized") true (codes "application/json")
        (length body) body resp

  -- `ChatDeleteSessionHandler::handle`.
  unfoldable pub delete_session :
      ℕ → ℕ → HttpRequest → HttpResponse → ServerState Rng → HttpResponse × ServerState Rng
  delete_session now later req resp st =
      let (p, store, resp') = get_session draw now later req resp st.store in
      if bytes_eq (value_at store p (codes "isLoggedIn")) (codes "true")
      then delete_of_user req resp' (record st { store = store })
          (stoi (value_at store p (codes "userId")))
      else (unauthorized req resp', record st { store = store })
