-- ===== src/Chat/Helper.antt =====
-- The messages of an AIHelper and addMessage, in AIApps/ChatServer/src/AIUtil/AIHelper.cpp.
pub mod Restart
use miniaibrowse_cpp.Common.{ℕ, Bool, List, [], ◌∷◌, ◌++◌, Bytes, bytes_key, ℕ_key, ℤ, pos}
use miniaibrowse_cpp.Chat.History.{Message}
use miniaibrowse_cpp.Chat.Sql.{insert_message_sql}

-- An `AIHelper` beside the queue that it publishes to; `clock` is the time in milliseconds.
pub record Helper : Type 0 where
  pub messages : List Message
  pub published : List Bytes
  pub clock : ℕ

abbrev pub push_message : Bytes → ℤ → Helper → Helper
push_message content ts h = record h { messages = h.messages ++ (content, ts) ∷ [] }

abbrev pub but_last : {A : Type 0} → List A → List A
but_last [] = []
but_last (x ∷ []) = []
but_last (x ∷ y ∷ xs) = x ∷ but_last (y ∷ xs)

-- `messages.pop_back()`.
abbrev pub pop_message : Helper → Helper
pop_message h = record h { messages = but_last h.messages }

-- Whose turn it is, and where it goes in the database.
pub record Speaker : Type 0 where
  pub user_id : ℤ
  pub user_name : Bytes
  pub session_id : Bytes

-- The clock goes on by `tick` as a message is stored.
unfoldable pub add_message : (ℕ → ℕ) → Speaker → Bool → Bytes → Helper → Helper
add_message tick who is_user user_input h = record {
  messages = h.messages ++ (user_input, pos h.clock) ∷ [];
  published =
      h.published
      ++ insert_message_sql who.user_id who.user_name is_user user_input h.clock who.session_id
        ∷ [];
  clock = tick h.clock;
}
