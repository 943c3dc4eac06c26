-- ===== src/Chat/Sql.antt =====
-- The SQL texts of AIApps/ChatServer: AIHelper::escapeString and pushMessageToMysql in
-- src/AIUtil/AIHelper.cpp, and the lookup of a name in src/handlers/ChatRegisterHandler.cpp.
pub mod Literals
pub mod Rows
use miniaibrowse_cpp.Common.{
  ℕ, Bool, [], ◌∷◌, ◌++◌, Bytes, codes, bytes_key, ℕ_key, ℤ, to_string, to_string_ℤ, ◌==◌,
  if◌then◌else◌,
}

-- A backslash before the character.
abbrev backslash : ℕ → Bytes
backslash c = 92 ∷ c ∷ []

unfoldable pub escape_char : ℕ → Bytes
escape_char c =
    if c == 92
    then backslash 92
    else if c == 39
    then backslash 39
    else if c == 34
    then backslash 34
    else if c == 10
    then backslash b'n'
    else if c == 13
    then backslash b'r'
    else if c == 9
    then backslash b't'
    else c ∷ []

unfoldable pub escape_string : Bytes → Bytes
escape_string [] = []
escape_string (c ∷ s) = escape_char c ++ escape_string s

-- What `pushMessageToMysql` publishes to `sql_queue`.
unfoldable pub insert_message_sql : ℤ → Bytes → Bool → Bytes → ℕ → Bytes → Bytes
insert_message_sql user_id user_name is_user user_input ms session_id =
    codes "INSERT INTO chat_message (id, username, session_id, is_user, content, ts) VALUES ("
    ++ (to_string_ℤ user_id
        ++ (codes ", '"
            ++ (escape_string user_name
                ++ (codes "', "
                    ++ (session_id
                        ++ (codes ", "
                            ++ (to_string (if is_user then 1 else 0)
                                ++ (codes ", '"
                                    ++ (escape_string user_input
                                        ++ (codes "', " ++ (to_string ms ++ codes ")")))))))))))

-- `isUserExist`.
unfoldable pub user_exist_sql : Bytes → Bytes
user_exist_sql username = codes "SELECT id FROM users WHERE username = '" ++ (username ++ codes "'")
