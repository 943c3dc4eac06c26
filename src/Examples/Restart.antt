-- ===== src/Examples/Restart.antt =====
-- What a restart restores, at a concrete conversation.
use miniaibrowse_cpp.Common.{
  to_string, digits_from, ◌≡◌, refl, sym, ap, ◌∙◌, Bool, true, false, List, [], ◌∷◌, ◌++◌, none,
  some, Bytes, codes, bytes_key, ℕ_key, lookup_or, pos, arith,
}
use miniaibrowse_cpp.Chat.Accounts.{returned}
use miniaibrowse_cpp.Chat.History.{Row, Chats, ensure_user_data_loaded}
use miniaibrowse_cpp.Chat.History.Restored.{messages, stored}
use miniaibrowse_cpp.Chat.Sql.{insert_message_sql}
use miniaibrowse_cpp.Chat.Sql.Rows.{SqlRow, read_row, read_row-insert_message_sql}
use miniaibrowse_cpp.Chat.Helper.{Helper, add_message}
use miniaibrowse_cpp.Chat.Helper.Restart.{MessageTable, say_all, readable_rows, say_all-restored}
use miniaibrowse_cpp.Chat.Queue.{Poll, worker, work}
use miniaibrowse_cpp.Examples.Service.{ann, next_tick, new_helper}

abbrev row_of : SqlRow → Row
row_of r = record { session_id = to_string r.session_id; content = r.content; ts = pos r.ts }

same_table : (xs ys : List Row) → returned xs ≡ returned ys → xs ≡ ys
same_table xs ys e = cc

-- A table that reads the rows off the statements.
abbrev reader : MessageTable (List Row)
reader = record {
  execute = λ sql rows. returned (rows ++ row_of (read_row sql) ∷ []);
  rows = λ user rows. rows;
  execute-insert_message_sql = λ user name content sid is_user ms db db' number before e.
      sym (
        same_table
          (db ++ row_of (read_row (insert_message_sql user name is_user content ms sid)) ∷ []) db'
          e)
      ∙ ap (λ r. db ++ row_of r ∷ [])
          (ap (λ s. read_row (insert_message_sql user name is_user content ms s)) number.2
            ∙ read_row-insert_message_sql user name is_user content ms number.0)
      ∙ ap (λ s. db ++ record { session_id = s; content = content; ts = pos ms } ∷ [])
          (sym number.2);
}

abbrev conversation : List (Bool × Bytes)
conversation = (true, codes "it's") ∷ (false, codes "hi") ∷ []

abbrev held : Helper
held = say_all next_tick ann conversation new_helper

abbrev sent : List Poll
sent =
    some (insert_message_sql (pos 7) (codes "ann") true (codes "it's") 5 (codes "12"))
    ∷ none
    ∷ some (insert_message_sql (pos 7) (codes "ann") false (codes "hi") 6 (codes "12"))
    ∷ []

abbrev restarted : Chats
restarted = record {
  chat_information = λ u. [];
  sessions_ids_map = λ u. [];
  loaded_users = λ u. false;
}

say_all-restored_example :
    messages (pos 7) (codes "12") (
      ensure_user_data_loaded
        (pos 7)
        (some (readable_rows (worker reader.execute none sent []).db))
        restarted)
    ≡ held.messages
unfolding messages lookup_or add_message stored to_string digits_from worker work
say_all-restored_example =
    say_all-restored next_tick ann reader conversation new_helper [] sent restarted
      (λ s. omega arith) (12, ground arith, refl) refl refl tt refl refl refl refl refl
