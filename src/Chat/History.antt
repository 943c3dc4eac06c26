-- ===== src/Chat/History.antt =====
-- The messages that AIApps/ChatServer/src/ChatServer.cpp restores from MySQL: readDataFromMySQL,
-- ensureUserDataLoaded and AIHelper::restoreMessage. A query gives its rows, in order, or throws (`none`);
-- so does the read of a row.
pub mod Restored
use miniaibrowse_cpp.Common.{
  Bool, true, List, [], ◌∷◌, ◌++◌, map, Option, none, some, Bytes, bytes_key, ℕ_key, Dict, lookup,
  insert, ℤ, if◌then◌else◌,
}
use miniaibrowse_cpp.Chat.Accounts.{ℤ_eq}

-- A content and its time.
abbrev pub Message : Type 0
Message = Bytes × ℤ

pub record Row : Type 0 where
  pub session_id : Bytes
  pub content : Bytes
  pub ts : ℤ

-- An `AIHelper` is its messages. A user that a map lacks has nothing in it.
pub record Chats : Type 0 where
  pub chat_information : ℤ → Dict Bytes (List Message)
  pub sessions_ids_map : ℤ → List Bytes
  pub loaded_users : ℤ → Bool

abbrev pub set_user : {A : Type 0} → ℤ → A → (ℤ → A) → ℤ → A
set_user user a map u = if ℤ_eq user u then a else map u

-- `restoreMessage`.
abbrev pub restore_message : Row → List Message → List Message
restore_message row messages = messages ++ (row.content, row.ts) ∷ []

-- The session of a row, made when the user has none of this id.
unfoldable pub restore_row : ℤ → Chats → Row → Chats
restore_row user st row = elim (lookup row.session_id (st.chat_information user)) [
  | none ↦ record st {
    chat_information =
        set_user user (insert row.session_id (restore_message row []) (st.chat_information user))
          st.chat_information;
    sessions_ids_map =
        set_user user (st.sessions_ids_map user ++ row.session_id ∷ []) st.sessions_ids_map;
  }
  | some messages ↦ record st {
    chat_information =
        set_user user
          (insert row.session_id (restore_message row messages) (st.chat_information user))
          st.chat_information;
  }
]

-- A row that cannot be read is skipped.
unfoldable pub restore_rows : ℤ → Chats → List (Option Row) → Chats
restore_rows user st [] = st
restore_rows user st (none ∷ rows) = restore_rows user st rows
restore_rows user st (some row ∷ rows) = restore_rows user (restore_row user st row) rows

unfoldable pub mark_loaded : ℤ → Chats → Chats
mark_loaded user st = record st { loaded_users = set_user user true st.loaded_users }

-- What `ensureUserDataLoaded` does once its check found the user not loaded.
unfoldable pub load_user : ℤ → Option (List (Option Row)) → Chats → Chats
load_user user none st = st
load_user user (some rows) st = mark_loaded user (restore_rows user st rows)

-- The check is a critical section of its own.
unfoldable pub ensure_user_data_loaded : ℤ → Option (List (Option Row)) → Chats → Chats
ensure_user_data_loaded user result st =
    if st.loaded_users user then st else load_user user result st

-- `readDataFromMySQL`, over the rows of all users.
unfoldable pub read_rows : Chats → List (Option (ℤ × Row)) → Chats
read_rows st [] = st
read_rows st (none ∷ rows) = read_rows st rows
read_rows st (some (user, row) ∷ rows) = read_rows (restore_row user st row) rows

unfoldable pub read_data_from_my_sql : Option (List (Option (ℤ × Row))) → Chats → Chats
read_data_from_my_sql none st = st
read_data_from_my_sql (some rows) st = read_rows st rows
