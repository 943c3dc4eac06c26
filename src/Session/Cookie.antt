-- ===== src/Session/Cookie.antt =====
-- The cookie that carries a session's id, there and back.
use miniaibrowse_cpp.Common.{
  [], find, lookup, insert, lookup_or, lookup-insert_self, ℕ, zero, suc, ◌<◌, ◌≡◌, ◌≢◌, refl, ap,
  ◌∙◌, ◌∷◌, ◌++◌, none, some, Bytes, codes, length, take, find?, Lacks, bytes_key, ℕ_key,
  length-append, take-length-append, find_absent, find-append, arith,
}
use miniaibrowse_cpp.Http.Request.{HttpRequest, get_header}
use miniaibrowse_cpp.Http.Response.{HttpResponse, add_header}
use miniaibrowse_cpp.Session.{
  set_session_cookie, get_session_id_from_cookie, hex_digit, find_text, cookie_name, id_in_cookie,
  draw_digits, generate_session_id,
}

id_in_cookie_value :
    (value : Bytes)
    → id_in_cookie (cookie_name ++ value)
      ≡ elim (find? b';' value) [ none ↦ value | some end ↦ take end value ]
unfolding id_in_cookie find_text
id_in_cookie_value value = refl

-- A session id without ';' is read back from the cookie that a browser returns, alone or before other
-- cookies.
pub id_in_cookie-cookie_name :
    (id others : Bytes)
    → Lacks b';' id
    → (id_in_cookie (cookie_name ++ id) ≡ id)
      × (id_in_cookie (cookie_name ++ (id ++ b';' ∷ others)) ≡ id)
unfolding find?
id_in_cookie-cookie_name id others h = (
  id_in_cookie_value id ∙ ground (arith, find_absent b';' id h),
  id_in_cookie_value (id ++ b';' ∷ others)
      ∙ ground (
        arith,
        find-append b';' id others h,
        length-append id (b';' ∷ others),
        take-length-append id (b';' ∷ others),
      ),
)

-- What a browser returns of a cookie: its name and value, up to the attributes.
abbrev pub sent_back : Bytes → Bytes
sent_back value = take (find b';' value) value

sent_back-cookie_name :
    (id attributes : Bytes)
    → Lacks b';' id
    → sent_back (cookie_name ++ (id ++ b';' ∷ attributes)) ≡ cookie_name ++ id
sent_back-cookie_name id attributes h =
    ap (λ n. take n (cookie_name ++ (id ++ b';' ∷ attributes)))
      (find-append b';' (cookie_name ++ id) attributes (ground arith))
    ∙ take-length-append (cookie_name ++ id) (b';' ∷ attributes)

get_header-insert :
    (request : HttpRequest) (value : Bytes)
    → get_header
        (record request { headers = insert (codes "Cookie") value request.headers })
        (codes "Cookie")
      ≡ value
unfolding get_header lookup_or
get_header-insert request value =
    rw (lookup-insert_self (codes "Cookie") value request.headers, lookup_or) refl

get_session_id_from_cookie_lem :
    (request : HttpRequest) (id : Bytes)
    → get_header request (codes "Cookie") ≡ cookie_name ++ id
    → get_session_id_from_cookie request ≡ id_in_cookie (cookie_name ++ id)
unfolding get_session_id_from_cookie
get_session_id_from_cookie_lem request id e = rw (e, get_session_id_from_cookie) refl

module _ {Rng : Type 0} (draw : Rng → ℕ × Rng) (in_range : (rng : Rng) → (draw rng).0 < 16) where
  hex_digit-ne : (d : ℕ) → d < 16 → hex_digit d ≢ b';'
  unfolding hex_digit
  hex_digit-ne d h = ground arith

  draw_digits-Lacks :
      (n : ℕ) (rng : Rng)
      → Lacks b';' (draw_digits draw n rng).0 × (length (draw_digits draw n rng).0 ≡ n)
  unfolding draw_digits
  draw_digits-Lacks zero rng = (tt, refl)
  draw_digits-Lacks (suc n) rng =
      let (lacks, len) = draw_digits-Lacks n (draw rng).1 in
      ((hex_digit-ne (draw rng).0 (in_range rng), lacks), ap suc len)

  -- With draws below 16 a generated id has 32 characters, and comes back: `setSessionCookie` writes a header, a browser returns
  -- what stands in it up to the first ';', and of a request with this cookie the id is read again.
  pub generate_session_id-cookie :
      (rng : Rng) (r : HttpResponse) (request : HttpRequest)
      → let id = (generate_session_id draw rng).0 in
        (length id ≡ 32)
        × (value : Bytes) × (lookup (codes "Set-Cookie") (set_session_cookie id r).headers
            ≡ some value)
        × (get_session_id_from_cookie (record request {
          headers = insert (codes "Cookie") (sent_back value) request.headers;
        })
            ≡ id)
  unfolding generate_session_id set_session_cookie add_header
  generate_session_id-cookie rng r request =
      let (lacks, len) = draw_digits-Lacks 32 rng in
      let id = (draw_digits draw 32 rng).0 in
      let value = cookie_name ++ (id ++ codes "; Path=/; HttpOnly") in
      let back = sent_back-cookie_name id (codes " Path=/; HttpOnly") lacks in
      (
        len,
        value,
        lookup-insert_self (codes "Set-Cookie") value r.headers,
        get_session_id_from_cookie_lem
              (record request {
                headers = insert (codes "Cookie") (sent_back value) request.headers;
              })
              id (get_header-insert request (sent_back value) ∙ back)
            ∙ (id_in_cookie-cookie_name id [] lacks).0,
      )
