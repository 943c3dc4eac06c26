-- ===== src/Examples/Sessions.antt =====
-- The theorems on sessions and on the pool of connections at concrete inputs.
use miniaibrowse_cpp.Common.{
  true, some, insert, ℕ, ◌+◌, ◌<◌, ◌≡◌, Bool, [], Bytes, codes, length, bytes_key, ℕ_key, lookup,
  ltb, if◌then◌else◌, arith,
}
use miniaibrowse_cpp.Http.Request.{HttpRequest, empty_request}
use miniaibrowse_cpp.Http.Response.{HttpResponse, new_response}
use miniaibrowse_cpp.Session.{
  set_session_cookie, get_session_id_from_cookie, Sessions, get_session, set_value, remove_value,
  clear, destroy_session, generate_session_id,
}
use miniaibrowse_cpp.Session.Invariant.{StoreOk, operations-StoreOk}
use miniaibrowse_cpp.Session.Cookie.{sent_back, generate_session_id-cookie}
use miniaibrowse_cpp.Pool.{acquire, Settings, DbConnectionPool, new_pool, init}
use miniaibrowse_cpp.Pool.Conservation.{
  count, acquires, not_yet, then_init, prepared, then_step, connections-Conserved,
}

abbrev one_digit : ℕ → ℕ × ℕ
one_digit rng = (1, rng)

one_digit_lem : (rng : ℕ) → (one_digit rng).0 < 16
one_digit_lem rng = ground arith

abbrev empty_store : Sessions ℕ
empty_store = record { heap = []; sessions = []; rng = 0 }

empty_store-StoreOk : StoreOk empty_store
unfolding lookup
empty_store-StoreOk id p e = ground arith

operations-StoreOk_example :
    ((now later : ℕ) (request : HttpRequest) (r : HttpResponse)
      → StoreOk (get_session one_digit now later request r empty_store).1)
    × ((p : ℕ) (key value : Bytes) → StoreOk (set_value empty_store p key value))
    × ((p : ℕ) (key : Bytes) → StoreOk (remove_value empty_store p key))
    × ((p : ℕ) → StoreOk (clear empty_store p))
    × ((id : Bytes) → StoreOk (destroy_session empty_store id))
operations-StoreOk_example = operations-StoreOk one_digit empty_store empty_store-StoreOk

generate_session_id-cookie_example :
    (length (generate_session_id one_digit 0).0 ≡ 32)
    × (value : Bytes) × (lookup
          (codes "Set-Cookie")
          (set_session_cookie (generate_session_id one_digit 0).0 (new_response true)).headers
        ≡ some value)
    × (get_session_id_from_cookie
          (record empty_request { headers = insert (codes "Cookie") (sent_back value) [] })
        ≡ (generate_session_id one_digit 0).0)
generate_session_id-cookie_example =
    generate_session_id-cookie one_digit one_digit_lem 0 (new_response true) empty_request

abbrev local_database : Settings
local_database = record { host = []; user = []; password = []; database = [] }

abbrev third_fails : ℕ → Bool
third_fails n = ltb n 2

abbrev two_made : DbConnectionPool
two_made = (init third_fails local_database 3 new_pool).1

-- Two threads have popped a connection each.
abbrev after_two : DbConnectionPool
after_two = (acquire (acquire two_made).1).1

connections-Conserved_example :
    count 1 after_two.connections + count 1 after_two.checking + count 1 after_two.lent
    ≡ (if ltb 1 after_two.created then 1 else 0)
connections-Conserved_example =
    connections-Conserved after_two
      (then_step (then_step (prepared (then_init third_fails local_database 3 not_yet)) acquires)
        acquires)
      1
