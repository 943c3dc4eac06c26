-- ===== src/Chat/Deletion/Statements.antt =====
-- What the deletion of a conversation sends to the database.
use miniaibrowse_cpp.Common.{
  ℕ, ◌≡◌, ◌⊎◌, inl, inr, refl, true, List, [], ◌∷◌, ◌++◌, Option, none, some, Bytes, codes,
  bytes_eq, bytes_key, ℕ_key, ℤ, stoi, Bool-cases,
}
use miniaibrowse_cpp.Http.Request.{HttpRequest}
use miniaibrowse_cpp.Http.Response.{HttpResponse}
use miniaibrowse_cpp.Session.{get_session, value_at}
use miniaibrowse_cpp.Chat.Accounts.{Outcome, returned, threw, Json}
use miniaibrowse_cpp.Chat.History.{Row}
use miniaibrowse_cpp.Chat.Deletion.{
  ServerState, is_session_id, delete_messages_sql, named_session, delete_named, delete_of_user,
  delete_session,
}

-- Nothing more was published, or one statement, whose session id is a number.
abbrev pub OneDeletion : List Bytes → List Bytes → Type 0
OneDeletion before after =
    (after ≡ before)
    ⊎ ((user : ℤ) × (id : Bytes) × (is_session_id id ≡ true)
        × (after ≡ before ++ delete_messages_sql user id ∷ []))

module _ (dump : List (Bytes × Json) → Bytes) (session_id_of : Bytes → Outcome Bytes)
    (rows : ℤ → Option (List (Option Row))) {Rng : Type 0} (draw : Rng → ℕ × Rng) where
  delete_named-OneDeletion :
      (req : HttpRequest) (resp : HttpResponse) (user : ℤ) (st : ServerState Rng)
      (o : Outcome Bytes)
      → OneDeletion st.published
          (delete_named dump session_id_of rows draw req resp user st o).1.published
  unfolding delete_named
  delete_named-OneDeletion req resp user st (threw what) = inl refl
  delete_named-OneDeletion req resp user st (returned id) = elim (Bool-cases (is_session_id id)) [
    | inl e ↦ rw (e, delete_named) (inr (user, id, e, refl))
    | inr e ↦ rw (e, delete_named) (inl refl)
  ]

  delete_of_user-OneDeletion :
      (req : HttpRequest) (resp : HttpResponse) (st : ServerState Rng) (o : Option ℤ)
      → OneDeletion st.published
          (delete_of_user dump session_id_of rows draw req resp st o).1.published
  unfolding delete_of_user
  delete_of_user-OneDeletion req resp st none = inl refl
  delete_of_user-OneDeletion req resp st (some user) =
      delete_named-OneDeletion req resp user _
        (named_session dump session_id_of rows draw req.content)

  -- Whatever a request to delete a conversation holds, it publishes no statement or a single one, and the
  -- session id in that statement is a number: not empty, and digits throughout.
  pub delete_session-OneDeletion :
      (now later : ℕ) (req : HttpRequest) (resp : HttpResponse) (st : ServerState Rng)
      → OneDeletion st.published
          (delete_session dump session_id_of rows draw now later req resp st).1.published
  unfolding delete_session
  delete_session-OneDeletion now later req resp st =
      let p = (get_session draw now later req resp st.store).0 in
      let store = (get_session draw now later req resp st.store).1 in
      let resp' = (get_session draw now later req resp st.store).2 in
      elim (Bool-cases (bytes_eq (value_at store p (codes "isLoggedIn")) (codes "true"))) [
        | inl e ↦
            rw (e, delete_session)
              (delete_of_user-OneDeletion req resp' (record st { store = store })
                (stoi (value_at store p (codes "userId"))))
        | inr e ↦ rw (e, delete_session) (inl refl)
      ]
