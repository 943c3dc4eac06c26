-- ===== src/Chat/Accounts/Login.antt =====
-- What a login leaves in the session and in the list of users online.
use miniaibrowse_cpp.Common.{
  ℕ, ◌≡◌, ◌⊎◌, inl, inr, refl, Bool, true, false, List, Option, none, some, Bytes, codes, bytes_eq,
  bytes_eq_iff, bytes_key, ℕ_key, ℤ, to_string_ℤ, ==_iff, Bool-cases, arith,
}
use miniaibrowse_cpp.Http.Request.{HttpRequest}
use miniaibrowse_cpp.Http.Response.{HttpResponse}
use miniaibrowse_cpp.Session.{Sessions, get_session, set_value, value_at}
use miniaibrowse_cpp.Session.Lifetime.{value_at-set_value}
use miniaibrowse_cpp.Session.Pointers.{Live, set_value-Live, get_session-Live}
use miniaibrowse_cpp.Chat.Accounts.{
  Outcome-cases, ℤ_eq_self, Outcome, returned, Json, ChatState, ℤ_eq, json_request, no_user,
  query_user_id, welcome, login,
}

module _ {Rng : Type 0} where
  -- Three values stored in a row under different keys, each read back.
  three_values :
      (st : Sessions Rng) (p : ℕ) (j k l x y z : Bytes)
      → Live st p
      → bytes_eq j k ≡ false
      → bytes_eq j l ≡ false
      → bytes_eq k l ≡ false
      → bytes_eq k j ≡ false
      → bytes_eq l j ≡ false
      → bytes_eq l k ≡ false
      → let last = set_value (set_value (set_value st p j x) p k y) p l z in
        (value_at last p j ≡ x) × (value_at last p k ≡ y) × (value_at last p l ≡ z)
  three_values st p j k l x y z (s, at) jk jl kl kj lj lk =
      let st1 = set_value st p j x in
      let st2 = set_value st1 p k y in
      let (s1, at1) = set_value-Live st p j x (s, at) in
      let (s2, at2) = set_value-Live st1 p k y (s1, at1) in
      let itself = ==_iff p p in
      (
        ground (
          arith,
          value_at-set_value st2 p p s2 l j z at2,
          value_at-set_value st1 p p s1 k j y at1,
          value_at-set_value st p p s j j x at,
          bytes_eq_iff j j,
        ),
        ground (
          arith,
          value_at-set_value st2 p p s2 l k z at2,
          value_at-set_value st1 p p s1 k k y at1,
          bytes_eq_iff k k,
        ),
        ground (arith, value_at-set_value st2 p p s2 l l z at2, bytes_eq_iff l l),
      )

module _ (dump : List (Bytes × Json) → Bytes) (credentials : Bytes → Outcome (Bytes × Bytes))
    (parses : Bytes → Outcome Bool) (find_user : Bytes → Bytes → Outcome (Option ℤ)) {Rng : Type 0}
    (draw : Rng → ℕ × Rng) where
  -- The state after a login: the session that `getSession` gave carries the user.
  abbrev pub LoggedIn : ℕ → ChatState Rng → Bytes → ℤ → Type 0
  LoggedIn p st username user_id =
      (value_at st.store p (codes "userId") ≡ to_string_ℤ user_id)
      × (value_at st.store p (codes "username") ≡ username)
      × (value_at st.store p (codes "isLoggedIn") ≡ codes "true")
      × (st.online_users user_id ≡ true)

  welcome-LoggedIn :
      (now later : ℕ) (req : HttpRequest) (username : Bytes) (user_id : ℤ) (resp : HttpResponse)
      (st : ChatState Rng)
      → LoggedIn
          (get_session draw now later req resp st.store).0
          (welcome dump credentials parses find_user draw now later req username user_id resp st).1
          username
          user_id
  unfolding welcome bytes_eq
  welcome-LoggedIn now later req username user_id resp st =
      let three =
        three_values (get_session draw now later req resp st.store).1
          (get_session draw now later req resp st.store).0 (codes "userId") (codes "username")
          (codes "isLoggedIn") (to_string_ℤ user_id) username (codes "true")
          (get_session-Live draw now later req resp st.store) refl refl refl refl refl refl in
      (three.0, three.1, three.2, ground (arith, ℤ_eq_self user_id))

  -- When the request is a JSON request, its body holds a name and a password, and the database finds a user
  -- for them whose id is not -1, the session of this request then carries the user's id, the name and the
  -- mark of a login, and the user is listed as online.
  pub login-LoggedIn :
      (now later : ℕ) (req : HttpRequest) (resp : HttpResponse) (st : ChatState Rng)
      (username password : Bytes) (user_id : ℤ)
      → json_request req ≡ true
      → credentials req.content ≡ returned (username, password)
      → find_user username password ≡ returned (some user_id)
      → ℤ_eq user_id no_user ≡ false
      → LoggedIn
          (get_session draw now later req resp st.store).0
          (login dump credentials parses find_user draw now later req resp st).1
          username
          user_id
  unfolding login query_user_id
  login-LoggedIn now later req resp st username password user_id json given found real =
      rw (json, login)
        (rw given (
          rw (found, query_user_id)
            (rw real (welcome-LoggedIn now later req username user_id resp st))))

  -- The database found a user for the name and the password of the body.
  abbrev pub KnownUser : HttpRequest → Type 0
  KnownUser req =
      (username : Bytes) × (password : Bytes) × (user_id : ℤ) × (json_request req ≡ true)
      × (credentials req.content ≡ returned (username, password))
      × (find_user username password ≡ returned (some user_id))

  -- A login changes a session or the list of users online only when the request is a JSON request and the
  -- database found a user for the name and the password in it. Every other request leaves the state as it
  -- was, also when the body cannot be read or the database fails.
  pub login-KnownUser :
      (now later : ℕ) (req : HttpRequest) (resp : HttpResponse) (st : ChatState Rng)
      → ((login dump credentials parses find_user draw now later req resp st).1 ≡ st)
        ⊎ KnownUser req
  unfolding login query_user_id
  login-KnownUser now later req resp st = elim (Bool-cases (json_request req)) [
    | inr e ↦ rw (e, login) (inl refl)
    | inl e ↦ elim (Outcome-cases (credentials req.content)) [
      | inr (what, c) ↦ rw (e, login) (rw c (inl refl))
      | inl ((username, password), c) ↦ elim (Outcome-cases (find_user username password)) [
        | inr (what, f) ↦ rw (e, login) (rw c (rw (f, query_user_id) (inl refl)))
        | inl (none, f) ↦ rw (e, login) (rw c (rw (f, query_user_id) (inl refl)))
        | inl (some id, f) ↦ inr (username, password, id, e, c, f)
      ]
    ]
  ]
