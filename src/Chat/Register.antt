-- ===== src/Chat/Register.antt =====
-- AIApps/ChatServer/src/handlers/ChatRegisterHandler.cpp. MySQL is a state `Db` with a query, which gives
-- the id of the first row, and an update; either may throw. `credentials` is the JSON library.
pub mod Names
use miniaibrowse_cpp.Common.{
  Bool, true, false, List, [], ◌∷◌, ◌++◌, Option, none, some, Bytes, codes, bytes_key, ℕ_key, ℤ,
  if◌then◌else◌,
}
use miniaibrowse_cpp.Http.Request.{HttpRequest}
use miniaibrowse_cpp.Http.Response.{HttpResponse}
use miniaibrowse_cpp.Chat.Sql.{user_exist_sql}
use miniaibrowse_cpp.Chat.Accounts.{
  Outcome, returned, threw, Json, text, integer, ℤ_eq, no_user, answer,
}

unfoldable pub insert_user_sql : Bytes → Bytes → Bytes
insert_user_sql username password =
    codes "INSERT INTO users (username, password) VALUES ('"
    ++ (username ++ (codes "', '" ++ (password ++ codes "')")))

module _ {Db : Type 0} (query : Bytes → Db → Outcome (Option ℤ))
    (update : Bytes → Db → Outcome Db) where
  unfoldable pub is_user_exist : Bytes → Db → Outcome Bool
  is_user_exist username db = elim (query (user_exist_sql username) db) [
    | threw what ↦ threw what
    | returned none ↦ returned false
    | returned (some id) ↦ returned true
  ]

  -- The id of the row just inserted; -1 when it is not found.
  unfoldable pub inserted_id : Bytes → Db → Outcome ℤ
  inserted_id username db = elim (query (user_exist_sql username) db) [
    | threw what ↦ threw what
    | returned none ↦ returned no_user
    | returned (some id) ↦ returned id
  ]

  unfoldable pub insert_user : Bytes → Bytes → Db → Outcome ℤ × Db
  insert_user username password db = elim (is_user_exist username db) [
    | threw what ↦ (threw what, db)
    | returned true ↦ (returned no_user, db)
    | returned false ↦ elim (update (insert_user_sql username password) db) [
      | threw what ↦ (threw what, db)
      | returned db' ↦ (inserted_id username db', db')
    ]
  ]

  unfoldable pub registered :
      (List (Bytes × Json) → Bytes) → HttpRequest → HttpResponse → ℤ → HttpResponse
  registered dump req resp user_id =
      if ℤ_eq user_id no_user
      then answer req 409 (codes "Conflict") false
          (dump (
            (codes "message", text (codes "username already exists"))
            ∷ (codes "status", text (codes "error"))
            ∷ []))
          resp
      else answer req 200 (codes "OK") false
          (dump (
            (codes "message", text (codes "Register successful"))
            ∷ (codes "status", text (codes "success"))
            ∷ (codes "userId", integer user_id)
            ∷ []))
          resp

  abbrev pub answered :
      (List (Bytes × Json) → Bytes)
      → HttpRequest
      → HttpResponse
      → Outcome ℤ × Db
      → Outcome HttpResponse × Db
  answered dump req resp (threw what, db) = (threw what, db)
  answered dump req resp (returned user_id, db) = (returned (registered dump req resp user_id), db)

  -- `ChatRegisterHandler::handle`, which catches nothing.
  unfoldable pub register :
      (List (Bytes × Json) → Bytes)
      → (Bytes → Outcome (Bytes × Bytes))
      → HttpRequest
      → HttpResponse
      → Db
      → Outcome HttpResponse × Db
  register dump credentials req resp db = elim (credentials req.content) [
    | threw what ↦ (threw what, db)
    | returned (username, password) ↦ answered dump req resp (insert_user username password db)
  ]
