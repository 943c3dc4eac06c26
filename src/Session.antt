-- ===== src/Session.antt =====
-- HttpServer/include/session and HttpServer/src/session. Sessions are shared objects: a heap holds them, a
-- pointer is their place in it, and the storage maps ids to pointers. The storage's mutex is held only inside its
-- `load`, `save` and `remove`, and the values of a session have no lock: the operations are those of one thread
-- at a time, and what threads do to one session at once is not modelled. The clock is an argument, in its ticks.
pub mod Cookie
pub mod Invariant
pub mod Lifetime
pub mod Pointers
use miniaibrowse_cpp.Common.{
  ℕ, zero, suc, ◌+◌, ◌-◌, ◌*◌, Bool, true, false, ◌&&◌, List, [], ◌∷◌, ◌++◌, Option, none, some,
  Bytes, codes, length, take, drop, get_elem?, set, is_empty, find?, bytes_key, ℕ_key, Dict, lookup,
  insert, erase, lookup_or, ◌==◌, ltb, if◌then◌else◌,
}
use miniaibrowse_cpp.Http.Request.{HttpRequest, get_header}
use miniaibrowse_cpp.Http.Response.{HttpResponse, add_header}

pub record Session : Type 0 where
  pub session_id : Bytes
  pub data_values : Dict Bytes Bytes
  pub expiry_time : ℕ
  pub max_age : ℕ
  pub has_manager : Bool

-- `storage` and the generator of the manager, beside the heap.
pub record Sessions (Rng : Type 0) : Type 0 where
  pub heap : List Session
  pub sessions : Dict Bytes ℕ
  pub rng : Rng

-- Nanoseconds.
abbrev pub ticks_per_second : ℕ
ticks_per_second = 1000000000

abbrev pub default_max_age : ℕ
default_max_age = 3600

unfoldable pub is_expired : ℕ → Session → Bool
is_expired now s = ltb s.expiry_time now

unfoldable pub refresh : ℕ → Session → Session
refresh now s = record s { expiry_time = now + s.max_age * ticks_per_second }

unfoldable pub new_session : ℕ → Bytes → Session
unfolding refresh
new_session now id = refresh now (record {
  session_id = id;
  data_values = [];
  expiry_time = 0;
  max_age = default_max_age;
  has_manager = true;
})

unfoldable pub get_value : Session → Bytes → Bytes
get_value s key = lookup_or [] key s.data_values

abbrev pub put_value : Bytes → Bytes → Session → Session
put_value key value s = record s { data_values = insert key value s.data_values }

-- `setManager(this)`.
abbrev pub adopt : Session → Session
adopt s = record s { has_manager = true }

-- `std::hex <<`.
unfoldable pub hex_digit : ℕ → ℕ
hex_digit d = if ltb d 10 then b'0' + d else b'a' + (d - 10)

-- `cookie.find(text)`: the offset of the first occurrence.
abbrev pub is_prefix : Bytes → Bytes → Bool
is_prefix [] s = true
is_prefix (x ∷ xs) [] = false
is_prefix (x ∷ xs) (y ∷ s) = x == y && is_prefix xs s

unfoldable pub find_text : Bytes → Bytes → Option ℕ
find_text text [] = if is_prefix text [] then some 0 else none
find_text text (x ∷ s) =
    let rest = find_text text s in
    if is_prefix text (x ∷ s) then some 0 else elim rest [ none ↦ none | some i ↦ some (suc i) ]

abbrev pub cookie_name : Bytes
cookie_name = codes "sessionId="

unfoldable pub id_in_cookie : Bytes → Bytes
unfolding find?
id_in_cookie cookie = elim (find_text cookie_name cookie) [
  | none ↦ []
  | some p ↦
      let value = drop (p + 10) cookie in
      elim (find? b';' value) [ none ↦ value | some end ↦ take end value ]
]

unfoldable pub get_session_id_from_cookie : HttpRequest → Bytes
get_session_id_from_cookie request =
    let cookie = get_header request (codes "Cookie") in
    if is_empty cookie then [] else id_in_cookie cookie

unfoldable pub set_session_cookie : Bytes → HttpResponse → HttpResponse
set_session_cookie id r =
    add_header r (codes "Set-Cookie") (cookie_name ++ (id ++ codes "; Path=/; HttpOnly"))

-- `draw` is `dist(rng_)`, uniform over 0 to 15.
module _ {Rng : Type 0} (draw : Rng → ℕ × Rng) where
  unfoldable pub draw_digits : ℕ → Rng → Bytes × Rng
  draw_digits zero rng = ([], rng)
  draw_digits (suc n) rng =
      let (d, rng') = draw rng in
      let (digits, rng'') = draw_digits n rng' in (hex_digit d ∷ digits, rng'')

  unfoldable pub generate_session_id : Rng → Bytes × Rng
  generate_session_id rng = draw_digits 32 rng

module _ {Rng : Type 0} where
  -- Through a pointer. Shared pointers never dangle; a pointer that is not in the heap changes nothing.
  unfoldable pub update_at : Sessions Rng → ℕ → (Session → Session) → Sessions Rng
  update_at st p f = elim (get_elem? st.heap p) [
    | none ↦ st
    | some s ↦ record st { heap = set st.heap p (f s) }
  ]

  unfoldable pub save : Sessions Rng → ℕ → Sessions Rng
  save st p = elim (get_elem? st.heap p) [
    | none ↦ st
    | some s ↦ record st { sessions = insert s.session_id p st.sessions }
  ]

  -- An expired session is erased as it is found.
  unfoldable pub load : ℕ → Sessions Rng → Bytes → Option ℕ × Sessions Rng
  load now st id = elim (lookup id st.sessions) [
    | none ↦ (none, st)
    | some p ↦ elim (get_elem? st.heap p) [
      | none ↦ (none, st)
      | some s ↦
          if is_expired now s
          then (none, record st { sessions = erase id st.sessions })
          else (some p, st)
    ]
  ]

  unfoldable pub destroy_session : Sessions Rng → Bytes → Sessions Rng
  destroy_session st id = record st { sessions = erase id st.sessions }

  abbrev pub save_managed : Sessions Rng → ℕ → Session → Sessions Rng
  save_managed st p s = if s.has_manager then save st p else st

  unfoldable pub set_value : Sessions Rng → ℕ → Bytes → Bytes → Sessions Rng
  set_value st p key value = elim (get_elem? st.heap p) [
    | none ↦ st
    | some s ↦ save_managed (record st { heap = set st.heap p (put_value key value s) }) p s
  ]

  unfoldable pub value_at : Sessions Rng → ℕ → Bytes → Bytes
  value_at st p key = elim (get_elem? st.heap p) [ none ↦ [] | some s ↦ get_value s key ]

  unfoldable pub remove_value : Sessions Rng → ℕ → Bytes → Sessions Rng
  remove_value st p key = update_at st p (λ s. record s { data_values = erase key s.data_values })

  unfoldable pub clear : Sessions Rng → ℕ → Sessions Rng
  clear st p = update_at st p (λ s. record s { data_values = [] })

  -- The session that the request's cookie names, if it lives.
  unfoldable pub find_session : ℕ → Sessions Rng → Bytes → Option ℕ × Sessions Rng
  find_session now st id = if is_empty id then (none, st) else load now st id

  unfoldable pub touch : ℕ → Sessions Rng → ℕ → Sessions Rng
  touch now st p = save (update_at st p (refresh now)) p

  unfoldable pub expired_at : ℕ → Sessions Rng → ℕ → Bool
  expired_at now st p = elim (get_elem? st.heap p) [ none ↦ true | some s ↦ is_expired now s ]

module _ {Rng : Type 0} (draw : Rng → ℕ × Rng) where
  -- `make_shared<Session>(generateSessionId(), this)`, and its cookie.
  unfoldable pub create_session : ℕ → Sessions Rng → HttpResponse → ℕ × Sessions Rng × HttpResponse
  create_session now st r =
      let (id, rng') = generate_session_id draw st.rng in
      (
        length st.heap,
        record st { heap = st.heap ++ new_session now id ∷ []; rng = rng' },
        set_session_cookie id r,
      )

  unfoldable pub found_or_created :
      ℕ → HttpResponse → Option ℕ × Sessions Rng → ℕ × Sessions Rng × HttpResponse
  found_or_created later r (none, st) = create_session later st r
  found_or_created later r (some p, st) =
      if expired_at later st p then create_session later st r else (p, update_at st p adopt, r)

  -- `now` is the clock when the session is looked up, `later` behind that. No lock is held over the whole: it is
  -- the call of one thread, with no other thread in between.
  unfoldable pub get_session :
      ℕ → ℕ → HttpRequest → HttpResponse → Sessions Rng → ℕ × Sessions Rng × HttpResponse
  get_session now later request r st =
      let (p, st', r') =
        found_or_created later r (find_session now st (get_session_id_from_cookie request)) in
      (p, touch later st' p, r')
