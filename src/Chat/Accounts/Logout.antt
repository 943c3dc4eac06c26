-- ===== src/Chat/Accounts/Logout.antt =====
-- What a logout leaves in the session and in the list of users online.
use miniaibrowse_cpp.Common.{
  ℕ, ◌≡◌, refl, ap, ◌∙◌, Bool, true, false, ◌&&◌, List, [], Option, none, some, Bytes, codes,
  bytes_eq_iff, bytes_key, ℕ_key, lookup, lookup_or, lookup-erase, ℤ, stoi, if◌then◌else◌, arith,
}
use miniaibrowse_cpp.Http.Request.{HttpRequest}
use miniaibrowse_cpp.Http.Response.{HttpResponse}
use miniaibrowse_cpp.Session.{Sessions, get_session, value_at, get_value, clear, destroy_session}
use miniaibrowse_cpp.Session.Pointers.{Live, get_session-Live, update_at-At}
use miniaibrowse_cpp.Chat.Accounts.{
  Outcome, returned, threw, Json, ChatState, ℤ_eq, id_at, json_request, goodbye, logout,
}

module _ (dump : List (Bytes × Json) → Bytes) (credentials : Bytes → Outcome (Bytes × Bytes))
    (parses : Bytes → Outcome Bool) (find_user : Bytes → Bytes → Outcome (Option ℤ)) {Rng : Type 0}
    (draw : Rng → ℕ × Rng) where
  abbrev pub did_parse : Outcome Bool → Bool
  did_parse (returned _) = true
  did_parse (threw what) = false

  goodbye_online :
      (req : HttpRequest) (p : ℕ) (user_id : ℤ) (resp : HttpResponse) (st : ChatState Rng) (u : ℤ)
      (o : Outcome Bool)
      → parses req.content ≡ o
      → (goodbye dump credentials parses find_user draw req p user_id resp st).1.online_users u
        ≡ (if did_parse o && ℤ_eq user_id u then false else st.online_users u)
  unfolding goodbye
  goodbye_online req p user_id resp st u (returned b) e = rw (e, goodbye) refl
  goodbye_online req p user_id resp st u (threw what) e = rw (e, goodbye) refl

  goodbye_store :
      (req : HttpRequest) (p : ℕ) (user_id : ℤ) (resp : HttpResponse) (st : ChatState Rng)
      (o : Outcome Bool)
      → parses req.content ≡ o
      → (goodbye dump credentials parses find_user draw req p user_id resp st).1.store
        ≡ destroy_session (clear st.store p) (id_at (clear st.store p) p)
  unfolding goodbye
  goodbye_store req p user_id resp st (returned b) e = rw (e, goodbye) refl
  goodbye_store req p user_id resp st (threw what) e = rw (e, goodbye) refl

  cleared_values :
      (st : Sessions Rng) (p : ℕ) (key id : Bytes)
      → Live st p
      → value_at (destroy_session (clear st p) id) p key ≡ []
  unfolding value_at destroy_session clear get_value lookup_or lookup
  cleared_values st p key id (s, at) =
      rw (update_at-At st p s (λ t. record t { data_values = [] }) at, value_at) refl

  cleared_id : (st : Sessions Rng) (p : ℕ) → Live st p → id_at (clear st p) p ≡ id_at st p
  unfolding clear
  cleared_id st p (s, at) =
      rw (update_at-At st p s (λ t. record t { data_values = [] }) at, id_at) (rw (at, id_at) refl)

  destroyed : (st : Sessions Rng) (id : Bytes) → lookup id (destroy_session st id).sessions ≡ none
  unfolding destroy_session
  destroyed st id = ground (arith, lookup-erase id id st.sessions, bytes_eq_iff id id)

  -- A JSON request to log out whose session carries the id of a user destroys this session: its id leads to
  -- no session any more, and those who still hold the object find no values in it. The user goes off the
  -- list of users online only when the body is JSON: a body that is not leaves the list as it was, with the
  -- session destroyed.
  pub logout-goodbye :
      (now later : ℕ) (req : HttpRequest) (resp : HttpResponse) (st : ChatState Rng) (user_id : ℤ)
      → json_request req ≡ true
      → stoi (
          value_at
            (get_session draw now later req resp st.store).1
            (get_session draw now later req resp st.store).0
            (codes "userId"))
        ≡ some user_id
      → let p = (get_session draw now later req resp st.store).0 in
        let id = id_at (get_session draw now later req resp st.store).1 p in
        let after = (logout dump credentials parses find_user draw now later req resp st).1 in
        (lookup id after.store.sessions ≡ none)
        × ((key : Bytes) → value_at after.store p key ≡ [])
        × ((u : ℤ)
            → after.online_users u ≡ (
                if did_parse (parses req.content) && ℤ_eq user_id u
                then false
                else st.online_users u))
  unfolding logout
  logout-goodbye now later req resp st user_id json carried =
      let p = (get_session draw now later req resp st.store).0 in
      let store = (get_session draw now later req resp st.store).1 in
      let resp' = (get_session draw now later req resp st.store).2 in
      let live = get_session-Live draw now later req resp st.store in
      let before = record st { store = store } in
      let left = goodbye_store req p user_id resp' before (parses req.content) refl in
      let same = cleared_id store p live in
      rw (json, logout)
        (rw carried (
          ap (λ x. lookup (id_at store p) x.sessions) left
              ∙ (ap (λ i. lookup (id_at store p) (destroy_session (clear store p) i).sessions) same
                  ∙ destroyed (clear store p) (id_at store p)),
          λ key. ap (λ x. value_at x p key) left ∙ cleared_values store p key _ live,
          λ u. goodbye_online req p user_id resp' before u (parses req.content) refl,
        ))
