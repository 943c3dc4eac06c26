-- ===== src/Chat/Accounts.antt =====
-- The handlers of accounts in AIApps/ChatServer/src/handlers: ChatLoginHandler, ChatLogoutHandler and
-- ChatRegisterHandler, and ChatServer::packageResp. The JSON library and MySQL are parameters: what
-- `json::parse` and the reads of the fields give or throw, what a query gives, and how an object is dumped.
pub mod Login
pub mod Logout
use miniaibrowse_cpp.Common.{
  ◌⊎◌, inl, inr, refl, ℕ, ◌≡◌, Bool, true, false, not, ◌||◌, List, [], ◌∷◌, Option, none, some,
  Bytes, codes, length, get_elem?, is_empty, bytes_eq, bytes_key, ℕ_key, ℤ, pos, negsuc, stoi,
  to_string_ℤ, ◌==◌, ==_iff, if◌then◌else◌, arith,
}
use miniaibrowse_cpp.Http.Request.{HttpRequest, get_header}
use miniaibrowse_cpp.Http.Response.{
  HttpResponse, set_status_line, set_version, set_status_code, set_status_message,
  set_close_connection, set_content_type, set_content_length, set_body,
}
use miniaibrowse_cpp.Session.{
  Session, Sessions, get_session, set_value, value_at, clear, destroy_session,
}
use miniaibrowse_cpp.Chat.Sql.{user_exist_sql}

-- A call that returns, or throws an exception whose `what()` is given.
pub data Outcome (A : Type 0) : Type 0 where
  returned : A → Outcome A
  threw : Bytes → Outcome A

pub Outcome-cases :
    {A : Type 0} (o : Outcome A)
    → ((a : A) × (o ≡ returned a)) ⊎ ((what : Bytes) × (o ≡ threw what))
Outcome-cases (returned a) = inl (a, refl)
Outcome-cases (threw what) = inr (what, refl)

-- The values that the handlers store in an object.
pub data Json : Type 0 where
  text : Bytes → Json
  integer : ℤ → Json
  flag : Bool → Json

pub record ChatState (Rng : Type 0) : Type 0 where
  pub store : Sessions Rng
  pub online_users : ℤ → Bool

abbrev pub ℤ_eq : ℤ → ℤ → Bool
ℤ_eq (pos m) (pos n) = m == n
ℤ_eq (negsuc m) (negsuc n) = m == n
ℤ_eq _ _ = false

pub ℤ_eq_self : (z : ℤ) → ℤ_eq z z ≡ true
ℤ_eq_self (pos n) = ground (arith, ==_iff n n)
ℤ_eq_self (negsuc n) = ground (arith, ==_iff n n)

abbrev pub set_online : ℤ → Bool → (ℤ → Bool) → (ℤ → Bool)
set_online user on users u = if ℤ_eq user u then on else users u

-- `session->getId()`.
abbrev pub id_at : {Rng : Type 0} → Sessions Rng → ℕ → Bytes
id_at st p = elim (get_elem? st.heap p) [ none ↦ [] | some s ↦ s.session_id ]

-- `packageResp`, of which no call throws.
unfoldable pub package_resp :
    Bytes → ℕ → Bytes → Bool → Bytes → ℕ → Bytes → HttpResponse → HttpResponse
package_resp version status_code status_msg close content_type content_len body resp =
    let r1 = set_version resp version in
    let r2 = set_status_code r1 status_code in
    let r3 = set_status_message r2 status_msg in
    let r4 = set_close_connection r3 close in
    let r5 = set_content_type r4 content_type in
    let r6 = set_content_length r5 content_len in set_body r6 body

-- The same five calls, as the three handlers write them out.
unfoldable pub answer : HttpRequest → ℕ → Bytes → Bool → Bytes → HttpResponse → HttpResponse
answer req status_code status_msg close body resp =
    let r1 = set_status_line resp req.version status_code status_msg in
    let r2 = set_close_connection r1 close in
    let r3 = set_content_type r2 (codes "application/json") in
    let r4 = set_content_length r3 (length body) in set_body r4 body

abbrev pub json_request : HttpRequest → Bool
json_request req =
    let content_type = get_header req (codes "Content-Type") in
    not (
      is_empty content_type
      || (not (bytes_eq content_type (codes "application/json")) || is_empty req.content))

abbrev pub no_user : ℤ
no_user = negsuc 0

-- What `std::stoi` throws.
abbrev pub stoi_error : Bytes
stoi_error = codes "stoi"

module _ (dump : List (Bytes × Json) → Bytes) (credentials : Bytes → Outcome (Bytes × Bytes))
    (parses : Bytes → Outcome Bool) (find_user : Bytes → Bytes → Outcome (Option ℤ)) where
  unfoldable pub bad_request : HttpRequest → HttpResponse → HttpResponse
  bad_request req resp = answer req 400 (codes "Bad Request") true [] resp

  unfoldable pub failed : HttpRequest → Bytes → HttpResponse → HttpResponse
  failed req what resp =
      answer req 400 (codes "Bad Request") true
        (dump ((codes "message", text what) ∷ (codes "status", text (codes "error")) ∷ [])) resp

  -- `queryUserId`: the first row, or -1.
  unfoldable pub query_user_id : Bytes → Bytes → Outcome ℤ
  query_user_id username password = elim (find_user username password) [
    | threw what ↦ threw what
    | returned none ↦ returned no_user
    | returned (some id) ↦ returned id
  ]

  module _ {Rng : Type 0} (draw : Rng → ℕ × Rng) where
    unfoldable pub welcome :
        ℕ
        → ℕ
        → HttpRequest
        → Bytes
        → ℤ
        → HttpResponse
        → ChatState Rng
        → HttpResponse × ChatState Rng
    welcome now later req username user_id resp st =
        let (p, store, resp') = get_session draw now later req resp st.store in
        let store1 = set_value store p (codes "userId") (to_string_ℤ user_id) in
        let store2 = set_value store1 p (codes "username") username in
        let store3 = set_value store2 p (codes "isLoggedIn") (codes "true") in
        (
          answer req 200 (codes "OK") false
              (dump ((codes "success", flag true) ∷ (codes "userId", integer user_id) ∷ [])) resp',
          record { store = store3; online_users = set_online user_id true st.online_users },
        )

    -- `ChatLoginHandler::handle`.
    unfoldable pub login :
        ℕ → ℕ → HttpRequest → HttpResponse → ChatState Rng → HttpResponse × ChatState Rng
    login now later req resp st =
        if json_request req
        then elim (credentials req.content) [
          | threw what ↦ (failed req what resp, st)
          | returned (username, password) ↦ elim (query_user_id username password) [
            | threw what ↦ (failed req what resp, st)
            | returned user_id ↦
                if ℤ_eq user_id no_user
                then (
                  answer req 401 (codes "Unauthorized") false
                      (dump (
                        (codes "message", text (codes "Invalid username or password"))
                        ∷ (codes "status", text (codes "error"))
                        ∷ []))
                      resp,
                  st,
                )
                else welcome now later req username user_id resp st
          ]
        ]
        else (bad_request req resp, st)

    unfoldable pub goodbye :
        HttpRequest → ℕ → ℤ → HttpResponse → ChatState Rng → HttpResponse × ChatState Rng
    goodbye req p user_id resp st =
        let cleared = clear st.store p in
        let gone = destroy_session cleared (id_at cleared p) in
        elim (parses req.content) [
          | threw what ↦ (failed req what resp, record st { store = gone })
          | returned _ ↦ (
            answer req 200 (codes "OK") true
                (dump ((codes "message", text (codes "logout successful")) ∷ [])) resp,
            record { store = gone; online_users = set_online user_id false st.online_users },
          )
        ]

    -- `ChatLogoutHandler::handle`.
    unfoldable pub logout :
        ℕ → ℕ → HttpRequest → HttpResponse → ChatState Rng → HttpResponse × ChatState Rng
    logout now later req resp st =
        if json_request req
        then (let (p, store, resp') = get_session draw now later req resp st.store in
            elim (stoi (value_at store p (codes "userId"))) [
              | none ↦ (failed req stoi_error resp', record st { store = store })
              | some user_id ↦ goodbye req p user_id resp' (record st { store = store })
            ])
        else (bad_request req resp, st)
