-- ===== src/Chat/Handlers/Renaming.antt =====
-- AIApps/ChatServer/src/handlers/ChatRenameSessionHandler.cpp. MySQL is a state `Db`; `update` runs a statement
-- with the values bound to it, or throws.
pub mod Trimmed
pub mod Shown
pub mod Table
use miniaibrowse_cpp.Common.{
  ℕ, Bool, true, false, ◌&&◌, ◌||◌, List, [], ◌∷◌, ◌++◌, Option, none, some, Bytes, codes, take,
  is_empty, bytes_key, ℕ_key, insert, ℤ, ◌==◌, if◌then◌else◌,
}
use miniaibrowse_cpp.Http.Request.{HttpRequest}
use miniaibrowse_cpp.Http.Response.{HttpResponse}
use miniaibrowse_cpp.Chat.Accounts.{Outcome, returned, threw, answer}
use miniaibrowse_cpp.Chat.History.{Row}
use miniaibrowse_cpp.Chat.Deletion.{ServerState}
use miniaibrowse_cpp.Chat.Json.{JsonLibrary, as_text}
use miniaibrowse_cpp.Chat.Utf8.{utf8_truncate_to_chars}
use miniaibrowse_cpp.Chat.Handlers.{SqlValue, integer, text, error_body, handle}

abbrev pub is_blank_char : ℕ → Bool
is_blank_char c = c == 32 || c == 9

-- Without the blanks at its end.
unfoldable pub trim_end : Bytes → Bytes
trim_end [] = []
trim_end (c ∷ s) =
    let rest = trim_end s in if is_empty rest && is_blank_char c then [] else c ∷ rest

unfoldable pub trim_front : Bytes → Bytes
trim_front [] = []
trim_front (c ∷ s) = let rest = trim_front s in if is_blank_char c then rest else c ∷ s

-- At most sixty characters, and the blanks around them off.
unfoldable pub saved_name : Bytes → Bytes
saved_name name = trim_front (trim_end (take (utf8_truncate_to_chars name 60) name))

abbrev pub delete_meta_sql : Bytes
delete_meta_sql = codes "DELETE FROM session_meta WHERE user_id = ? AND session_id = ?"

abbrev pub upsert_meta_sql : Bytes
upsert_meta_sql =
    codes
      "INSERT INTO session_meta (user_id, session_id, custom_name, updated_at) VALUES (?, ?, ?, ?) ON DUPLICATE KEY UPDATE custom_name = VALUES(custom_name), updated_at = VALUES(updated_at)"

abbrev pub create_meta_sql : Bytes
create_meta_sql =
    codes
      "CREATE TABLE IF NOT EXISTS session_meta (  user_id BIGINT NOT NULL,  session_id VARCHAR(64) NOT NULL,  custom_name VARCHAR(255) NOT NULL,  updated_at BIGINT NOT NULL,  PRIMARY KEY (user_id, session_id)) ENGINE=InnoDB DEFAULT CHARSET=utf8mb4"

-- MySQL beside the flag of `ensureSessionMetaTable`.
pub record Meta (Db : Type 0) : Type 0 where
  pub db : Db
  pub ensured : Bool

module _ {Db : Type 0} (update : Bytes → List SqlValue → Db → Outcome Db) where
  abbrev pub attempt : Bytes → List SqlValue → Db → Db
  attempt sql values db = elim (update sql values db) [ threw what ↦ db | returned db' ↦ db' ]

  -- `ensureSessionMetaTable`: once, whether it succeeds or throws.
  unfoldable pub ensure_session_meta_table : Meta Db → Meta Db
  ensure_session_meta_table m =
      if m.ensured then m else record { db = attempt create_meta_sql [] m.db; ensured = true }

  -- The statement that saves a name; an empty one gives the automatic name back.
  unfoldable pub save_name : ℤ → Bytes → Bytes → ℤ → Db → Outcome Db
  save_name user sid [] now db = update delete_meta_sql (integer user ∷ text sid ∷ []) db
  save_name user sid (c ∷ name) now db =
      update upsert_meta_sql (integer user ∷ text sid ∷ text (c ∷ name) ∷ integer now ∷ []) db

  module _ (J : JsonLibrary) where
    open J use {
      Value, parse, member, is_object, dump_indented, from_text, from_bool, object, error_text,
    }

    abbrev pub value_of : Bytes → Value → Outcome Bytes
    value_of key v =
        if is_object v
        then elim (member key v) [ none ↦ returned [] | some x ↦ as_text J x ]
        else threw error_text

    abbrev pub refused : HttpRequest → Bytes → HttpResponse → HttpResponse
    refused req what resp = answer req 400 (codes "Bad Request") true (error_body J what) resp

    -- What the body asks for: the session and the name.
    unfoldable pub read_rename : Bytes → Outcome (Bytes × Bytes)
    read_rename body = elim (parse body) [
      | none ↦ threw error_text
      | some parsed ↦ elim (value_of (codes "sessionId") parsed) [
        | threw what ↦ threw what
        | returned sid ↦ elim (value_of (codes "name") parsed) [
          | threw what ↦ threw what
          | returned name ↦ returned (sid, name)
        ]
      ]
    ]

    abbrev pub saved :
        HttpRequest → Bytes → HttpResponse → Meta Db → Outcome Db → HttpResponse × Meta Db
    saved req name resp m (threw what) = (
      answer req 500 (codes "Internal Server Error") true
          (error_body J (codes "db error: " ++ what)) resp,
      m,
    )
    saved req name resp m (returned db') = (
      answer req 200 (codes "OK") false
          (dump_indented (
            object (
              insert (codes "name") (from_text name)
                (insert (codes "success") (from_bool true) []))))
          resp,
      record m { db = db' },
    )

    unfoldable pub rename_to :
        HttpRequest → ℤ → ℤ → HttpResponse → Meta Db → Bytes → Bytes → HttpResponse × Meta Db
    rename_to req user now resp m [] name = (refused req (codes "sessionId required") resp, m)
    rename_to req user now resp m (c ∷ sid) name =
        let m' = ensure_session_meta_table m in
        saved req (saved_name name) resp m' (save_name user (c ∷ sid) (saved_name name) now m'.db)

    -- Behind the session; `now` is the time in milliseconds.
    unfoldable pub rename_session :
        HttpRequest → ℤ → ℤ → HttpResponse → Meta Db → Outcome HttpResponse × Meta Db
    rename_session req user now resp m =
        if is_empty req.content
        then (returned (refused req (codes "empty body") resp), m)
        else elim (read_rename req.content) [
          | threw what ↦ (threw what, m)
          | returned (sid, name) ↦
              let (resp', m') = rename_to req user now resp m sid name in (returned resp', m')
        ]

    -- `ChatRenameSessionHandler::handle`.
    unfoldable pub chat_rename :
        (ℤ → Option (List (Option Row)))
        → {Rng : Type 0} → (Rng → ℕ × Rng)
        → ℤ
        → ℕ
        → ℕ
        → HttpRequest
        → HttpResponse
        → ServerState Rng × Meta Db
        → HttpResponse × (ServerState Rng × Meta Db)
    chat_rename rows draw now_ms now later req resp st =
        handle J rows draw
          (λ user username resp' w.
            let (r, m) = rename_session req user now_ms resp' w.1 in (r, (w.0, m)))
          now later req resp st
