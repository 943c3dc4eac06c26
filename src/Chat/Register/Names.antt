-- ===== src/Chat/Register/Names.antt =====
-- A name can be registered once.
use miniaibrowse_cpp.Common.{
  ℕ, pos, codes, [], ◌∷◌, ◌≡◌, refl, ap, List, Option, none, some, Bytes, bytes_key, ℕ_key, ℤ,
}
use miniaibrowse_cpp.Http.Request.{HttpRequest}
use miniaibrowse_cpp.Http.Response.{
  HttpResponse, set_body, set_content_length, set_content_type, set_close_connection,
  set_status_line, add_header,
}
use miniaibrowse_cpp.Chat.Sql.{user_exist_sql}
use miniaibrowse_cpp.Chat.Accounts.{Outcome, returned, Json, text, integer, no_user, answer}
use miniaibrowse_cpp.Chat.Register.{
  insert_user_sql, is_user_exist, inserted_id, insert_user, registered, answered, register,
}

module _ {Db : Type 0} (query : Bytes → Db → Outcome (Option ℤ)) (update : Bytes → Db → Outcome Db)
    (dump : List (Bytes × Json) → Bytes) (credentials : Bytes → Outcome (Bytes × Bytes)) where
  insert_user_taken :
      (username password : Bytes) (db : Db) (id : ℤ)
      → query (user_exist_sql username) db ≡ returned (some id)
      → insert_user query update username password db ≡ (returned no_user, db)
  unfolding insert_user is_user_exist
  insert_user_taken username password db id taken = rw (taken, insert_user, is_user_exist) refl

  insert_user_free :
      (username password : Bytes) (db db' : Db) (id : ℤ)
      → query (user_exist_sql username) db ≡ returned none
      → update (insert_user_sql username password) db ≡ returned db'
      → query (user_exist_sql username) db' ≡ returned (some id)
      → insert_user query update username password db ≡ (returned id, db')
  unfolding insert_user is_user_exist inserted_id
  insert_user_free username password db db' id free inserted found =
      rw (free, insert_user, is_user_exist) (rw inserted (rw (found, inserted_id) refl))

  -- Where the name of the body is in the database, registering it answers 409 and changes nothing.
  register_taken :
      (req : HttpRequest) (resp : HttpResponse) (db : Db) (username password : Bytes) (id : ℤ)
      → credentials req.content ≡ returned (username, password)
      → query (user_exist_sql username) db ≡ returned (some id)
      → register query update dump credentials req resp db
        ≡ (returned (registered query update dump req resp no_user), db)
  unfolding register
  register_taken req resp db username password id given taken =
      rw (given, register)
        (ap (answered query update dump req resp) (insert_user_taken username password db id taken))

  -- What the two answers say.
  registered_lem :
      (req : HttpRequest) (resp : HttpResponse) (n : ℕ)
      → ((registered query update dump req resp (pos n)).status_code ≡ 200)
        × ((registered query update dump req resp (pos n)).body
            ≡ dump (
                (codes "message", text (codes "Register successful"))
                ∷ (codes "status", text (codes "success"))
                ∷ (codes "userId", integer (pos n))
                ∷ []))
        × ((registered query update dump req resp no_user).status_code ≡ 409)
        × ((registered query update dump req resp no_user).body
            ≡ dump (
                (codes "message", text (codes "username already exists"))
                ∷ (codes "status", text (codes "error"))
                ∷ []))
  unfolding registered answer set_body set_content_length set_content_type set_close_connection
      set_status_line add_header
  registered_lem req resp n = (refl, refl, refl, refl)

  -- A name that is free is registered: when the bodies hold it, the statement succeeds and the new row is
  -- found with a number for its id, the answer is 200 with this id, and a second request with this name,
  -- whatever its password, is answered 409, says that the name exists and changes nothing.
  pub register-once :
      (req again : HttpRequest) (resp : HttpResponse) (db db' : Db)
      (username password other : Bytes) (n : ℕ)
      → credentials req.content ≡ returned (username, password)
      → credentials again.content ≡ returned (username, other)
      → query (user_exist_sql username) db ≡ returned none
      → update (insert_user_sql username password) db ≡ returned db'
      → query (user_exist_sql username) db' ≡ returned (some (pos n))
      → ((ok : HttpResponse) × (register query update dump credentials req resp db
            ≡ (returned ok, db'))
          × (ok.status_code ≡ 200)
          × (ok.body
              ≡ dump (
                  (codes "message", text (codes "Register successful"))
                  ∷ (codes "status", text (codes "success"))
                  ∷ (codes "userId", integer (pos n))
                  ∷ [])))
        × ((refused : HttpResponse) × (register query update dump credentials again resp db'
              ≡ (returned refused, db'))
            × (refused.status_code ≡ 409)
            × (refused.body
                ≡ dump (
                    (codes "message", text (codes "username already exists"))
                    ∷ (codes "status", text (codes "error"))
                    ∷ [])))
  unfolding register
  register-once req again resp db db' username password other n given given' free inserted found =
      let first = registered_lem req resp n in
      let second = registered_lem again resp n in
      (
        (
          registered query update dump req resp (pos n),
          rw (given, register)
              (ap (answered query update dump req resp)
                (insert_user_free username password db db' (pos n) free inserted found)),
          first.0,
          first.1,
        ),
        (
          registered query update dump again resp no_user,
          register_taken again resp db' username other (pos n) given' found,
          second.2,
          second.3,
        ),
      )
