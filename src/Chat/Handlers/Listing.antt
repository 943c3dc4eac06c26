-- ===== src/Chat/Handlers/Listing.antt =====
-- AIApps/ChatServer/src/handlers/ChatSessionsHandler.cpp. Of MySQL: `custom_rows` are the names of a user read
-- before the query or a row throws, `first_question` is the first message of a session, unless the query
-- throws or has no row.
pub mod Names
use miniaibrowse_cpp.Common.{
  ℕ, Bool, true, false, List, [], ◌∷◌, ◌++◌, map, Option, none, some, Bytes, codes, length, take,
  all, bytes_key, ℕ_key, Dict, lookup, insert, ℤ, ◌==◌, utf8, ltb, if◌then◌else◌,
}
use miniaibrowse_cpp.Http.Request.{HttpRequest}
use miniaibrowse_cpp.Http.Response.{HttpResponse}
use miniaibrowse_cpp.Chat.Accounts.{Outcome, returned, answer}
use miniaibrowse_cpp.Chat.History.{Row}
use miniaibrowse_cpp.Chat.Deletion.{ServerState}
use miniaibrowse_cpp.Chat.Json.{JsonLibrary}
use miniaibrowse_cpp.Chat.Utf8.{utf8_truncate_to_chars}
use miniaibrowse_cpp.Chat.Handlers.{handle}

-- `erase(remove(...))` on a string.
abbrev pub without : ℕ → Bytes → Bytes
without x [] = []
without x (c ∷ s) = if c == x then without x s else c ∷ without x s

abbrev pub default_name : Bytes
default_name = utf8 "新对话"

abbrev pub ellipsis : Bytes
ellipsis = utf8 "…"

-- At most twelve characters, with an ellipsis when there are more.
unfoldable pub abbreviate : Bytes → Bytes
abbreviate content =
    let safe_bytes = utf8_truncate_to_chars content 12 in
    if ltb safe_bytes (length content) then take safe_bytes content ++ ellipsis else content

abbrev pub is_blank : Bytes → Bool
is_blank content = all (λ c. c == 32) content

-- The name of a session that nobody named.
unfoldable pub auto_name : Option Bytes → Bytes
auto_name none = default_name
auto_name (some content) =
    let name = abbreviate (without 9 (without 13 (without 10 content))) in
    if is_blank name then default_name else name

unfoldable pub custom_names : List (Bytes × Bytes) → Dict Bytes Bytes → Dict Bytes Bytes
custom_names [] cache = cache
custom_names ((sid, name) ∷ rest) cache = custom_names rest (insert sid name cache)

module _ (J : JsonLibrary) (custom_rows : ℤ → List (Bytes × Bytes))
    (first_question : Bytes → Option Bytes) where
  open J use {Value, dump_indented, from_text, from_bool, object, array}

  -- The automatic names, of the sessions without a name of their own.
  unfoldable pub auto_names : Dict Bytes Bytes → List Bytes → Dict Bytes Bytes → Dict Bytes Bytes
  auto_names custom [] cache = cache
  auto_names custom (sid ∷ sessions) cache = elim (lookup sid custom) [
    | some name ↦ auto_names custom sessions cache
    | none ↦ auto_names custom sessions (insert sid (auto_name (first_question sid)) cache)
  ]

  -- The name that is shown, and whether somebody chose it.
  unfoldable pub shown_name : Dict Bytes Bytes → Dict Bytes Bytes → Bytes → Bytes × Bool
  shown_name custom auto sid = elim (lookup sid custom) [
    | some name ↦ (name, true)
    | none ↦ elim (lookup sid auto) [ none ↦ (default_name, false) | some name ↦ (name, false) ]
  ]

  abbrev pub entry : Bytes → Bytes × Bool → Value
  entry sid (name, custom) = object (
      insert (codes "custom") (from_bool custom)
        (insert (codes "name") (from_text name) (insert (codes "sessionId") (from_text sid) [])))

  unfoldable pub names_of : ℤ → List Bytes → List (Bytes × (Bytes × Bool))
  names_of user sessions =
      let custom = custom_names (custom_rows user) [] in
      let auto = auto_names custom sessions [] in
      map (λ sid. (sid, shown_name custom auto sid)) sessions

  unfoldable pub list_sessions :
      {Rng : Type 0}
      → HttpRequest
      → ℤ
      → Bytes
      → HttpResponse
      → ServerState Rng × Unit {0}
      → Outcome HttpResponse × (ServerState Rng × Unit {0})
  list_sessions req user username resp (st, world) =
      let entries = map (λ n. entry n.0 n.1) (names_of user (st.chats.sessions_ids_map user)) in
      let body = dump_indented (
        object (
          insert (codes "sessions") (array entries)
            (insert (codes "success") (from_bool true) []))) in
      (returned (answer req 200 (codes "OK") false body resp), (st, world))

  -- `ChatSessionsHandler::handle`.
  unfoldable pub chat_sessions :
      (ℤ → Option (List (Option Row)))
      → {Rng : Type 0} → (Rng → ℕ × Rng)
      → ℕ
      → ℕ
      → HttpRequest
      → HttpResponse
      → ServerState Rng × Unit {0}
      → HttpResponse × (ServerState Rng × Unit {0})
  chat_sessions rows draw now later req resp st =
      handle J rows draw (list_sessions req) now later req resp st
