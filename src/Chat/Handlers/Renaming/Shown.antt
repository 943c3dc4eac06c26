-- ===== src/Chat/Handlers/Renaming/Shown.antt =====
-- What the list of sessions shows after a renaming: ChatRenameSessionHandler.cpp and ChatSessionsHandler.cpp
-- together, over the table `session_meta`.
use miniaibrowse_cpp.Common.{
  if_no, ℕ, zero, suc, ◌≡◌, inl, inr, refl, sym, ap, subst, ◌∙◌, Bool, true, false, List, [], ◌∷◌,
  map, Option, none, some, Bytes, get_elem?, bytes_eq, bytes_eq_iff, bytes_key, ℕ_key, Dict, lookup,
  insert, lookup-insert, lookup-insert_self, ℤ, Bool-cases, Option-cases,
}
use miniaibrowse_cpp.Http.Request.{HttpRequest}
use miniaibrowse_cpp.Http.Response.{HttpResponse}
use miniaibrowse_cpp.Chat.Accounts.{returned}
use miniaibrowse_cpp.Chat.Deletion.{is_session_id}
use miniaibrowse_cpp.Chat.Json.{JsonLibrary}
use miniaibrowse_cpp.Chat.Handlers.Listing.{
  auto_name, custom_names, auto_names, shown_name, names_of,
}
use miniaibrowse_cpp.Chat.Handlers.Renaming.Table.{
  names_for, HasNumbers, MetaTable, lookup-custom_names_none, lookup-custom_names_one, lookup_empty,
}
use miniaibrowse_cpp.Chat.Handlers.Renaming.{
  saved_name, Meta, ensure_session_meta_table, save_name, saved, rename_to,
}

-- The name that a renaming asks for: an empty one gives the automatic name back.
abbrev pub chosen : Bytes → Bytes → Bytes × Bool
chosen [] auto = (auto, false)
chosen (c ∷ name) auto = (c ∷ name, true)

get_elem?-map :
    {A B : Type 0} (f : A → B) (xs : List A) (i : ℕ) (y : B)
    → get_elem? (map f xs) i ≡ some y
    → (x : A) × (get_elem? xs i ≡ some x) × (f x ≡ y)
get_elem?-map f [] i y e = cc
get_elem?-map f (x ∷ xs) zero y e = (x, refl, cc)
get_elem?-map f (x ∷ xs) (suc i) y e = get_elem?-map f xs i y e

module _ (J : JsonLibrary) (custom_rows : ℤ → List (Bytes × Bytes))
    (first_question : Bytes → Option Bytes) where
  abbrev auto_of : Bytes → Bytes
  auto_of sid = auto_name (first_question sid)

  auto_names-insert :
      (sid key : Bytes) (cache : Dict Bytes Bytes)
      → lookup sid cache ≡ some (auto_of sid)
      → lookup sid (insert key (auto_of key) cache) ≡ some (auto_of sid)
  auto_names-insert sid key cache h = elim (Bool-cases (bytes_eq key sid)) [
    | inl e ↦
        subst (λ k. lookup sid (insert k (auto_of k) cache) ≡ some (auto_of sid))
          (sym ((bytes_eq_iff key sid).0 e)) (lookup-insert_self sid (auto_of sid) cache)
    | inr e ↦ lookup-insert key sid (auto_of key) cache ∙ if_no (bytes_eq key sid) _ _ e ∙ h
  ]

  auto_names-keeps :
      (custom : Dict Bytes Bytes) (sessions : List Bytes) (cache : Dict Bytes Bytes) (sid : Bytes)
      → lookup sid cache ≡ some (auto_of sid)
      → lookup sid (auto_names J custom_rows first_question custom sessions cache)
        ≡ some (auto_of sid)
  unfolding auto_names
  auto_names-keeps custom [] cache sid h = h
  auto_names-keeps custom (key ∷ sessions) cache sid h = elim (Option-cases (lookup key custom)) [
    | inr (name, e) ↦ rw (e, auto_names) (auto_names-keeps custom sessions cache sid h)
    | inl e ↦
        rw (e, auto_names)
          (auto_names-keeps custom sessions (insert key (auto_of key) cache) sid
            (auto_names-insert sid key cache h))
  ]

  auto_names-lookup :
      (custom : Dict Bytes Bytes) (sessions : List Bytes) (cache : Dict Bytes Bytes) (i : ℕ)
      (sid : Bytes)
      → get_elem? sessions i ≡ some sid
      → lookup sid custom ≡ none
      → lookup sid (auto_names J custom_rows first_question custom sessions cache)
        ≡ some (auto_of sid)
  unfolding auto_names
  auto_names-lookup custom [] cache i sid h n = cc
  auto_names-lookup custom (key ∷ sessions) cache zero sid h n =
      let same : sid ≡ key = cc in
      subst
        (λ k.
          lookup sid (auto_names J custom_rows first_question custom (k ∷ sessions) cache)
          ≡ some (auto_of sid))
        same
        (rw (n, auto_names)
          (auto_names-keeps custom sessions (insert sid (auto_of sid) cache) sid
            (lookup-insert_self sid (auto_of sid) cache)))
  auto_names-lookup custom (key ∷ sessions) cache (suc i) sid h n =
      elim (Option-cases (lookup key custom)) [
        | inr (name, e) ↦ rw (e, auto_names) (auto_names-lookup custom sessions cache i sid h n)
        | inl e ↦
            rw (e, auto_names)
              (auto_names-lookup custom sessions (insert key (auto_of key) cache) i sid h n)
      ]

  -- A session without a name of its own is shown with its automatic name.
  shown_name-auto_name :
      (custom : Dict Bytes Bytes) (sessions : List Bytes) (i : ℕ) (sid : Bytes)
      → get_elem? sessions i ≡ some sid
      → lookup sid custom ≡ none
      → shown_name J custom_rows first_question custom
          (auto_names J custom_rows first_question custom sessions [])
          sid
        ≡ (auto_of sid, false)
  unfolding shown_name
  shown_name-auto_name custom sessions i sid h n =
      rw (n, shown_name) (rw (auto_names-lookup custom sessions [] i sid h n, shown_name) refl)

  shown_name-custom :
      (custom auto : Dict Bytes Bytes) (sid name : Bytes)
      → lookup sid custom ≡ some name
      → shown_name J custom_rows first_question custom auto sid ≡ (name, true)
  unfolding shown_name
  shown_name-custom custom auto sid name h = rw (h, shown_name) refl

module _ {Db : Type 0} (T : MetaTable Db) (J : JsonLibrary)
    (first_question : Bytes → Option Bytes) where
  open T use {update, rows, update-upsert, update-delete}

  shown_name-save_name :
      (custom_rows : ℤ → List (Bytes × Bytes)) (user now : ℤ) (sid name : Bytes) (db db' : Db)
      (sessions : List Bytes) (i : ℕ)
      → is_session_id sid ≡ true
      → HasNumbers (rows db user)
      → save_name update user sid name now db ≡ returned db'
      → custom_rows user ≡ rows db' user
      → get_elem? sessions i ≡ some sid
      → let custom = custom_names (custom_rows user) [] in
        shown_name J custom_rows first_question custom
          (auto_names J custom_rows first_question custom sessions [])
          sid
        ≡ chosen name (auto_name (first_question sid))
  unfolding save_name
  shown_name-save_name custom_rows user now sid [] db db' sessions i number numbers e all_read h =
      shown_name-auto_name J custom_rows first_question (custom_names (custom_rows user) [])
        sessions i sid h
        (lookup-custom_names_none sid (custom_rows user) []
            (ap (names_for sid) all_read ∙ update-delete user sid db db' number numbers e)
          ∙ lookup_empty sid)
  shown_name-save_name custom_rows user now sid (c ∷ name) db db' sessions i number numbers e
        all_read h =
      shown_name-custom J custom_rows first_question (custom_names (custom_rows user) []) _ sid
        (c ∷ name)
        (lookup-custom_names_one sid (c ∷ name) (custom_rows user) [] (
          ap (names_for sid) all_read
          ∙ update-upsert user now sid (c ∷ name) db db' number numbers e))

  rename_to-db :
      (req : HttpRequest) (resp : HttpResponse) (user now : ℤ) (m : Meta Db) (c : ℕ)
      (sid name : Bytes) (db' : Db)
      → save_name update user
          (c ∷ sid)
          (saved_name name)
          now
          (ensure_session_meta_table update m).db
        ≡ returned db'
      → (rename_to update J req user now resp m (c ∷ sid) name).1.db ≡ db'
  unfolding rename_to
  rename_to-db req resp user now m c sid name db' e = rw (e, saved) refl

  -- Wherever the list of sessions has the session that was renamed last, its statement did not throw and the
  -- query of the list, whose exceptions are swallowed, read all rows: it shows the name that was saved, as a
  -- chosen one, or the automatic name when nothing was left of it. The session ids in the table and the one
  -- renamed are digits.
  pub names_of-rename_to :
      (custom_rows : ℤ → List (Bytes × Bytes)) (req : HttpRequest) (resp : HttpResponse)
      (user now : ℤ) (m : Meta Db) (c : ℕ) (sid name : Bytes) (db' : Db) (sessions : List Bytes)
      (i : ℕ) (shown : Bytes × Bool)
      → is_session_id (c ∷ sid) ≡ true
      → HasNumbers (rows (ensure_session_meta_table update m).db user)
      → save_name update user
          (c ∷ sid)
          (saved_name name)
          now
          (ensure_session_meta_table update m).db
        ≡ returned db'
      → custom_rows user ≡ rows (rename_to update J req user now resp m (c ∷ sid) name).1.db user
      → get_elem? (names_of J custom_rows first_question user sessions) i ≡ some (c ∷ sid, shown)
      → shown ≡ chosen (saved_name name) (auto_name (first_question (c ∷ sid)))
  unfolding names_of
  names_of-rename_to custom_rows req resp user now m c sid name db' sessions i shown number numbers
        e all_read h =
      let custom = custom_names (custom_rows user) [] in
      let auto = auto_names J custom_rows first_question custom sessions [] in
      let show = shown_name J custom_rows first_question custom auto in
      let (x, at, same) = get_elem?-map (λ key. (key, show key)) sessions i (c ∷ sid, shown) h in
      sym (ap (λ r. r.1) same)
      ∙ ap show (ap (λ r. r.0) same)
      ∙ shown_name-save_name custom_rows user now (c ∷ sid) (saved_name name)
          (ensure_session_meta_table update m).db db' sessions i number numbers e
          (all_read ∙ ap (λ d. rows d user) (rename_to-db req resp user now m c sid name db' e))
          (at ∙ ap some (ap (λ r. r.0) same))
