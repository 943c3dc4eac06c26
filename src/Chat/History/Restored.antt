-- ===== src/Chat/History/Restored.antt =====
-- Which messages a user's sessions hold after ChatServer::ensureUserDataLoaded.
use miniaibrowse_cpp.Common.{
  ◌≡◌, inl, inr, refl, sym, ap, ◌∙◌, true, false, List, [], ◌∷◌, ◌++◌, append_assoc, append-nil,
  Option, none, some, Bytes, bytes_eq, bytes_eq_iff, bytes_key, ℕ_key, Dict, lookup, insert,
  lookup_or, lookup-insert, ℤ, if◌then◌else◌, Bool-cases, Option-cases,
}
use miniaibrowse_cpp.Chat.Accounts.{ℤ_eq_self}
use miniaibrowse_cpp.Chat.History.{
  Message, Row, Chats, restore_row, restore_rows, mark_loaded, load_user, ensure_user_data_loaded,
}

unfoldable pub messages : ℤ → Bytes → Chats → List Message
messages user id st = lookup_or [] id (st.chat_information user)

-- The messages that the rows hold for one session, in the order of the rows.
unfoldable pub stored : Bytes → List (Option Row) → List Message
stored id [] = []
stored id (none ∷ rows) = stored id rows
stored id (some row ∷ rows) =
    if bytes_eq row.session_id id then (row.content, row.ts) ∷ stored id rows else stored id rows

lookup_or-insert :
    (k j : Bytes) (new : List Message) (m : Dict Bytes (List Message))
    → lookup_or [] j (insert k new m) ≡ (if bytes_eq k j then new else lookup_or [] j m)
unfolding lookup_or
lookup_or-insert k j new m = elim (Bool-cases (bytes_eq k j)) [
  | inl e ↦ rw (lookup-insert k j new m, lookup_or) (rw e refl)
  | inr e ↦ rw (lookup-insert k j new m, lookup_or) (rw e refl)
]

-- What a row adds to, when `m` holds `old` under its session.
added :
    (k j : Bytes) (x : Message) (old : List Message) (m : Dict Bytes (List Message))
    → lookup_or [] k m ≡ old
    → lookup_or [] j (insert k (old ++ x ∷ []) m)
      ≡ (if bytes_eq k j then lookup_or [] j m ++ x ∷ [] else lookup_or [] j m)
added k j x old m held = lookup_or-insert k j (old ++ x ∷ []) m ∙ elim (Bool-cases (bytes_eq k j)) [
  | inl e ↦
      let same : k ≡ j = (bytes_eq_iff k j).0 e in
      let there : lookup_or [] j m ≡ old = ap (λ i. lookup_or [] i m) (sym same) ∙ held in
      rw e (ap (λ l. l ++ x ∷ []) (sym there))
  | inr e ↦ rw e refl
]

held_none : (k : Bytes) (m : Dict Bytes (List Message)) → lookup k m ≡ none → lookup_or [] k m ≡ []
unfolding lookup_or
held_none k m e = rw (e, lookup_or) refl

held_some :
    (k : Bytes) (m : Dict Bytes (List Message)) (old : List Message)
    → lookup k m ≡ some old
    → lookup_or [] k m ≡ old
unfolding lookup_or
held_some k m old e = rw (e, lookup_or) refl

restore_row-messages :
    (user : ℤ) (id : Bytes) (st : Chats) (row : Row)
    → messages user id (restore_row user st row) ≡ (
        if bytes_eq row.session_id id
        then messages user id st ++ (row.content, row.ts) ∷ []
        else messages user id st)
unfolding messages restore_row
restore_row-messages user id st row =
    let self = ℤ_eq_self user in
    let chats = st.chat_information user in
    elim (Option-cases (lookup row.session_id (st.chat_information user))) [
      | inl e ↦
          rw (e, restore_row)
            (rw self (
              added row.session_id id (row.content, row.ts) [] chats
                (held_none row.session_id chats e)))
      | inr (old, e) ↦
          rw (e, restore_row)
            (rw self (
              added row.session_id id (row.content, row.ts) old chats
                (held_some row.session_id chats old e)))
    ]

restore_rows-messages :
    (user : ℤ) (id : Bytes) (st : Chats) (rows : List (Option Row))
    → messages user id (restore_rows user st rows) ≡ messages user id st ++ stored id rows
unfolding restore_rows stored
restore_rows-messages user id st [] = sym (append-nil (messages user id st))
restore_rows-messages user id st (none ∷ rows) = restore_rows-messages user id st rows
restore_rows-messages user id st (some row ∷ rows) =
    restore_rows-messages user id (restore_row user st row) rows
    ∙ (ap (λ m. m ++ stored id rows) (restore_row-messages user id st row)
        ∙ (elim (Bool-cases (bytes_eq row.session_id id)) [
          | inl e ↦
              rw e
                (append_assoc (messages user id st) ((row.content, row.ts) ∷ []) (stored id rows))
          | inr e ↦ rw e refl
        ]))

mark_loaded-messages :
    (user : ℤ) (id : Bytes) (st : Chats)
    → messages user id (mark_loaded user st) ≡ messages user id st
unfolding mark_loaded messages
mark_loaded-messages user id st = refl

mark_loaded_lem : (user : ℤ) (st : Chats) → (mark_loaded user st).loaded_users user ≡ true
unfolding mark_loaded
mark_loaded_lem user st = rw (ℤ_eq_self user) refl

-- A user who is not loaded yet, and whose rows the query gave: each session then holds what it held, and
-- behind it the messages that the rows have for it, in their order, and a second call changes nothing,
-- whatever a query would give then.
pub ensure_user_data_loaded-messages :
    (user : ℤ) (rows : List (Option Row)) (st : Chats)
    → st.loaded_users user ≡ false
    → let after = ensure_user_data_loaded user (some rows) st in
      ((id : Bytes) → messages user id after ≡ messages user id st ++ stored id rows)
      × ((again : Option (List (Option Row))) → ensure_user_data_loaded user again after ≡ after)
unfolding ensure_user_data_loaded load_user
ensure_user_data_loaded-messages user rows st fresh =
    let marked : (mark_loaded user (restore_rows user st rows)).loaded_users user ≡ true =
      mark_loaded_lem user (restore_rows user st rows) in
    rw fresh (
      λ id.
          mark_loaded-messages user id (restore_rows user st rows)
          ∙ restore_rows-messages user id st rows,
      λ again. rw marked refl,
    )

-- The check of `loadedUsers_` and the insertion are critical sections of their own. Two threads that both
-- checked before either inserted both restore the user's rows, and each session holds its messages twice.
pub load_user_raced :
    (user : ℤ) (id : Bytes) (rows : List (Option Row)) (st : Chats)
    → st.loaded_users user ≡ false
    → messages user id (load_user user (some rows) (ensure_user_data_loaded user (some rows) st))
      ≡ (messages user id st ++ stored id rows) ++ stored id rows
unfolding ensure_user_data_loaded load_user
load_user_raced user id rows st fresh =
    let first = mark_loaded user (restore_rows user st rows) in
    rw fresh (
      mark_loaded-messages user id (restore_rows user first rows)
      ∙ (restore_rows-messages user id first rows
          ∙ ap (λ m. m ++ stored id rows)
              (mark_loaded-messages user id (restore_rows user st rows)
                ∙ restore_rows-messages user id st rows)))
