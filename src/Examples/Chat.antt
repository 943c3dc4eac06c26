-- ===== src/Examples/Chat.antt =====
-- The theorems on the chat server at concrete inputs.
use miniaibrowse_cpp.Common.{
  ℕ, suc, ◌≡◌, ◌⊎◌, refl, Bool, true, false, ◌&&◌, List, [], ◌∷◌, ◌++◌, Option, none, some, Bytes,
  codes, find, find?, bytes_eq, bytes_key, ℕ_key, lookup, insert, lookup_or, ℤ, pos, stoi, ◌==◌,
  if◌then◌else◌,
}
use miniaibrowse_cpp.Http.Request.{HttpRequest, get_header, empty_request}
use miniaibrowse_cpp.Http.Response.{new_response}
use miniaibrowse_cpp.Session.{
  get_session, value_at, found_or_created, find_session, get_session_id_from_cookie, id_in_cookie,
  find_text, load, touch, save, update_at, expired_at, is_expired, refresh, get_value,
}
use miniaibrowse_cpp.Chat.Sse.{escape_for_json, stream_lines}
use miniaibrowse_cpp.Chat.Sse.Frames.{read_string, between, read_string-escape_for_json}
use miniaibrowse_cpp.Chat.Sse.Lines.{stream_lines-concat}
use miniaibrowse_cpp.Chat.Accounts.{
  Outcome, returned, Json, ChatState, ℤ_eq, json_request, login, logout, id_at,
}
use miniaibrowse_cpp.Chat.Accounts.Login.{LoggedIn, KnownUser, login-LoggedIn, login-KnownUser}
use miniaibrowse_cpp.Chat.Accounts.Logout.{logout-goodbye, did_parse}
use miniaibrowse_cpp.Chat.History.{Row, Chats, ensure_user_data_loaded, load_user}
use miniaibrowse_cpp.Chat.History.Restored.{
  messages, stored, ensure_user_data_loaded-messages, load_user_raced,
}
use miniaibrowse_cpp.Chat.Deletion.{ServerState, delete_session}
use miniaibrowse_cpp.Chat.Deletion.Statements.{OneDeletion, delete_session-OneDeletion}
use miniaibrowse_cpp.Chat.Register.{register}
use miniaibrowse_cpp.Http.Response.{HttpResponse}
use miniaibrowse_cpp.Chat.Accounts.{text, integer}
use miniaibrowse_cpp.Chat.Register.Names.{register-once}

-- A name with a quote and a backslash in it.
abbrev odd_name : Bytes
odd_name = 39 ∷ 92 ∷ 10 ∷ b'a' ∷ []

read_string-escape_for_json_example :
    read_string between (escape_for_json (34 ∷ 7 ∷ 92 ∷ 10 ∷ b'z' ∷ []) ++ 34 ∷ codes "}")
    ≡ some (34 ∷ 7 ∷ 92 ∷ 10 ∷ b'z' ∷ [], codes "}")
read_string-escape_for_json_example =
    read_string-escape_for_json (34 ∷ 7 ∷ 92 ∷ 10 ∷ b'z' ∷ []) (codes "}")

stream_lines-concat_example :
    stream_lines true (codes "da" ∷ (codes "ta" ++ 10 ∷ codes "x") ∷ [])
    ≡ stream_lines true ((codes "data" ++ 10 ∷ []) ∷ codes "x" ∷ [])
stream_lines-concat_example =
    stream_lines-concat true (codes "da" ∷ (codes "ta" ++ 10 ∷ codes "x") ∷ [])
      ((codes "data" ++ 10 ∷ []) ∷ codes "x" ∷ []) refl

abbrev two_rows : List (Option Row)
two_rows =
    some (record { session_id = codes "1"; content = codes "hi"; ts = pos 5 })
    ∷ none
    ∷ some (record { session_id = codes "1"; content = codes "hello"; ts = pos 6 })
    ∷ []

abbrev no_chats : Chats
no_chats = record {
  chat_information = λ u. [];
  sessions_ids_map = λ u. [];
  loaded_users = λ u. false;
}

ensure_user_data_loaded-messages_example :
    ((id : Bytes)
      → messages (pos 7) id (ensure_user_data_loaded (pos 7) (some two_rows) no_chats)
        ≡ messages (pos 7) id no_chats ++ stored id two_rows)
    × ((again : Option (List (Option Row)))
        → ensure_user_data_loaded
            (pos 7)
            again
            (ensure_user_data_loaded (pos 7) (some two_rows) no_chats)
          ≡ ensure_user_data_loaded (pos 7) (some two_rows) no_chats)
ensure_user_data_loaded-messages_example =
    ensure_user_data_loaded-messages (pos 7) two_rows no_chats refl

load_user_raced_example :
    messages
      (pos 7)
      (codes "1")
      (load_user (pos 7) (some two_rows) (ensure_user_data_loaded (pos 7) (some two_rows) no_chats))
    ≡ (messages (pos 7) (codes "1") no_chats ++ stored (codes "1") two_rows)
      ++ stored (codes "1") two_rows
load_user_raced_example = load_user_raced (pos 7) (codes "1") two_rows no_chats refl

abbrev plain_dump : List (Bytes × Json) → Bytes
plain_dump fields = []

abbrev ann : Bytes → Outcome (Bytes × Bytes)
ann body = returned (codes "ann", codes "pw")

abbrev any_json : Bytes → Outcome Bool
any_json body = returned true

abbrev user_seven : Bytes → Bytes → Outcome (Option ℤ)
user_seven username password = returned (some (pos 7))

abbrev one_digit : ℕ → ℕ × ℕ
one_digit rng = (1, rng)

abbrev json_body : HttpRequest
json_body = record empty_request {
  headers = (codes "Content-Type", codes "application/json") ∷ [];
  content = codes "{}";
}

abbrev nobody : ChatState ℕ
nobody = record { store = record { heap = []; sessions = []; rng = 0 }; online_users = λ u. false }

json_body_lem : json_request json_body ≡ true
unfolding get_header lookup_or lookup bytes_eq
json_body_lem = refl

login-LoggedIn_example :
    LoggedIn plain_dump ann any_json user_seven one_digit
      (get_session one_digit 5 6 json_body (new_response true) nobody.store).0
      (login plain_dump ann any_json user_seven one_digit 5 6 json_body
        (new_response true)
        nobody).1
      (codes "ann")
      (pos 7)
login-LoggedIn_example =
    login-LoggedIn plain_dump ann any_json user_seven one_digit 5 6 json_body (new_response true)
      nobody (codes "ann") (codes "pw") (pos 7) json_body_lem refl refl refl

login-KnownUser_example :
    ((login plain_dump ann any_json user_seven one_digit 5 6 json_body (new_response true) nobody).1
      ≡ nobody)
    ⊎ KnownUser plain_dump ann any_json user_seven one_digit json_body
login-KnownUser_example =
    login-KnownUser plain_dump ann any_json user_seven one_digit 5 6 json_body (new_response true)
      nobody

-- A database of names: the statements it was given.
abbrev name_query : Bytes → ℕ → Outcome (Option ℤ)
name_query sql db = if db == 0 then returned none else returned (some (pos 1))

abbrev name_update : Bytes → ℕ → Outcome ℕ
name_update sql db = returned (suc db)

register-once_example :
    ((ok : HttpResponse) × (register name_query name_update plain_dump ann json_body
          (new_response true)
          0
        ≡ (returned ok, 1))
      × (ok.status_code ≡ 200)
      × (ok.body
          ≡ plain_dump (
              (codes "message", text (codes "Register successful"))
              ∷ (codes "status", text (codes "success"))
              ∷ (codes "userId", integer (pos 1))
              ∷ [])))
    × ((refused : HttpResponse) × (register name_query name_update plain_dump ann json_body
            (new_response true)
            1
          ≡ (returned refused, 1))
        × (refused.status_code ≡ 409)
        × (refused.body
            ≡ plain_dump (
                (codes "message", text (codes "username already exists"))
                ∷ (codes "status", text (codes "error"))
                ∷ [])))
register-once_example =
    register-once name_query name_update plain_dump ann json_body json_body (new_response true) 0 1
      (codes "ann") (codes "pw") (codes "pw") 1 refl refl refl refl refl

abbrev with_cookie : HttpRequest
with_cookie = record empty_request {
  headers =
      (codes "Content-Type", codes "application/json") ∷ (codes "Cookie", codes "sessionId=1") ∷ [];
  content = codes "{}";
}

with_cookie_lem : json_request with_cookie ≡ true
unfolding get_header lookup_or lookup bytes_eq
with_cookie_lem = refl

abbrev seven_online : ChatState ℕ
seven_online = record {
  store = record {
    heap =
        record {
          session_id = codes "1";
          data_values = (codes "userId", codes "7") ∷ [];
          expiry_time = 100;
          max_age = 3600;
          has_manager = true;
        }
        ∷ [];
    sessions = (codes "1", 0) ∷ [];
    rng = 0;
  };
  online_users = λ u. ℤ_eq (pos 7) u;
}

carries_seven :
    stoi (
      value_at
        (get_session one_digit 5 6 with_cookie (new_response true) seven_online.store).1
        (get_session one_digit 5 6 with_cookie (new_response true) seven_online.store).0
        (codes "userId"))
    ≡ some (pos 7)
unfolding get_session found_or_created find_session get_session_id_from_cookie id_in_cookie
    find_text find? find load touch save update_at expired_at is_expired refresh get_header
    lookup_or lookup bytes_eq value_at get_value insert stoi
carries_seven = refl

logout-goodbye_example :
    let p = (get_session one_digit 5 6 with_cookie (new_response true) seven_online.store).0 in
    let id =
      id_at (get_session one_digit 5 6 with_cookie (new_response true) seven_online.store).1 p in
    let after =
      (logout plain_dump ann any_json user_seven one_digit 5 6 with_cookie
        (new_response true)
        seven_online).1 in
    (lookup id after.store.sessions ≡ none)
    × ((key : Bytes) → value_at after.store p key ≡ [])
    × ((u : ℤ)
        → after.online_users u ≡ (
            if did_parse plain_dump ann any_json user_seven one_digit (any_json with_cookie.content)
              && ℤ_eq (pos 7) u
            then false
            else seven_online.online_users u))
logout-goodbye_example =
    logout-goodbye plain_dump ann any_json user_seven one_digit 5 6 with_cookie (new_response true)
      seven_online (pos 7) with_cookie_lem carries_seven

abbrev seven_chatting : ServerState ℕ
seven_chatting = record { store = seven_online.store; chats = no_chats; published = [] }

abbrev names_one : Bytes → Outcome Bytes
names_one body = returned (codes "1")

abbrev no_rows : ℤ → Option (List (Option Row))
no_rows user = none

delete_session-OneDeletion_example :
    OneDeletion []
      (delete_session plain_dump names_one no_rows one_digit 5 6 with_cookie
        (new_response true)
        seven_chatting).1.published
delete_session-OneDeletion_example =
    delete_session-OneDeletion plain_dump names_one no_rows one_digit 5 6 with_cookie
      (new_response true) seven_chatting
