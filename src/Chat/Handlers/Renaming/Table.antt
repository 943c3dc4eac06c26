-- ===== src/Chat/Handlers/Renaming/Table.antt =====
-- The table `session_meta` under the two statements of ChatRenameSessionHandler.cpp, and what ChatSessionsHandler.cpp
-- finds in its rows.
use miniaibrowse_cpp.Common.{
  if_yes, if_no, ◌≡◌, inl, inr, refl, sym, ap, ◌∙◌, true, List, [], ◌∷◌, none, some, Bytes, All,
  bytes_eq, bytes_key, ℕ_key, Dict, lookup, insert, lookup-insert, ℤ, if◌then◌else◌, Bool-cases,
}
use miniaibrowse_cpp.Chat.Accounts.{Outcome, returned}
use miniaibrowse_cpp.Chat.Deletion.{is_session_id}
use miniaibrowse_cpp.Chat.Handlers.{SqlValue, integer, text}
use miniaibrowse_cpp.Chat.Handlers.Listing.{custom_names}
use miniaibrowse_cpp.Chat.Handlers.Renaming.{delete_meta_sql, upsert_meta_sql}

-- The names in the rows of a session.
abbrev pub names_for : Bytes → List (Bytes × Bytes) → List Bytes
names_for sid [] = []
names_for sid ((key, name) ∷ rows) =
    if bytes_eq key sid then name ∷ names_for sid rows else names_for sid rows

-- Session ids of digits, which no collation takes for each other.
abbrev pub HasNumbers : List (Bytes × Bytes) → Type 0
HasNumbers rows = All (λ row. is_session_id row.0 ≡ true) rows

-- The table of names as MySQL keeps it under the two statements, with (user_id, session_id) for its key: an
-- upsert leaves one row of the session, with the name that it was given, and a deletion leaves none.
pub record MetaTable (Db : Type 0) : Type 0 where
  pub update : Bytes → List SqlValue → Db → Outcome Db
  -- The session ids and names in the rows of a user, in the order they are read in.
  pub rows : Db → ℤ → List (Bytes × Bytes)
  pub update-upsert :
      (user now : ℤ) (sid name : Bytes) (db db' : Db)
      → is_session_id sid ≡ true
      → HasNumbers (rows db user)
      → update upsert_meta_sql (integer user ∷ text sid ∷ text name ∷ integer now ∷ []) db
        ≡ returned db'
      → names_for sid (rows db' user) ≡ name ∷ []
  pub update-delete :
      (user : ℤ) (sid : Bytes) (db db' : Db)
      → is_session_id sid ≡ true
      → HasNumbers (rows db user)
      → update delete_meta_sql (integer user ∷ text sid ∷ []) db ≡ returned db'
      → names_for sid (rows db' user) ≡ []

-- The map of names holds what the rows of a session say.
pub lookup-custom_names_none :
    (sid : Bytes) (rows : List (Bytes × Bytes)) (cache : Dict Bytes Bytes)
    → names_for sid rows ≡ []
    → lookup sid (custom_names rows cache) ≡ lookup sid cache
unfolding custom_names
lookup-custom_names_none sid [] cache h = refl
lookup-custom_names_none sid ((key, name) ∷ rows) cache h = elim (Bool-cases (bytes_eq key sid)) [
  | inl e ↦
      let no : name ∷ names_for sid rows ≡ [] =
        sym (if_yes (bytes_eq key sid) (name ∷ names_for sid rows) (names_for sid rows) e) ∙ h in
      cc
  | inr e ↦
      lookup-custom_names_none sid rows (insert key name cache)
        (sym (if_no (bytes_eq key sid) (name ∷ names_for sid rows) (names_for sid rows) e) ∙ h)
      ∙ lookup-insert key sid name cache
      ∙ if_no (bytes_eq key sid) _ _ e
]

pub lookup-custom_names_one :
    (sid given : Bytes) (rows : List (Bytes × Bytes)) (cache : Dict Bytes Bytes)
    → names_for sid rows ≡ given ∷ []
    → lookup sid (custom_names rows cache) ≡ some given
unfolding custom_names
lookup-custom_names_one sid given [] cache h = cc
lookup-custom_names_one sid given ((key, name) ∷ rows) cache h =
    elim (Bool-cases (bytes_eq key sid)) [
      | inl e ↦
          let found : name ∷ names_for sid rows ≡ given ∷ [] =
            sym (if_yes (bytes_eq key sid) (name ∷ names_for sid rows) (names_for sid rows) e)
            ∙ h in
          let others : names_for sid rows ≡ [] = cc in
          let same : name ≡ given = cc in
          lookup-custom_names_none sid rows (insert key name cache) others
          ∙ lookup-insert key sid name cache
          ∙ if_yes (bytes_eq key sid) _ _ e
          ∙ ap some same
      | inr e ↦
          lookup-custom_names_one sid given rows (insert key name cache)
            (sym (if_no (bytes_eq key sid) (name ∷ names_for sid rows) (names_for sid rows) e) ∙ h)
    ]

pub lookup_empty : (sid : Bytes) → lookup {V = Bytes} sid [] ≡ none
unfolding lookup
lookup_empty sid = refl
