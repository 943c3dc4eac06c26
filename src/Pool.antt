-- ===== src/Pool.antt =====
-- HttpServer/include/utils/db/DbConnectionPool.h and HttpServer/src/utils/db/DbConnectionPool.cpp. A
-- connection is known by the count of those made before it. What `getConnection` and the deleter run under the
-- pool's mutex is one step; a connection that was popped is checked outside of it. `init` has its lock commented
-- out, so it is no step among others: it is what one call does while no other thread uses the pool. Whether a
-- connection can be made, answers a ping or can be reconnected is told to the definitions.
pub mod Conservation
use miniaibrowse_cpp.Common.{
  ℕ, zero, suc, Bool, true, false, ◌||◌, List, [], ◌∷◌, ◌++◌, Option, none, some, Bytes, bytes_key,
  ℕ_key, ◌==◌, if◌then◌else◌,
}

pub record Settings : Type 0 where
  pub host : Bytes
  pub user : Bytes
  pub password : Bytes
  pub database : Bytes

-- `checking` holds the connections popped and not checked yet, `lent` those in the hands of callers.
pub record DbConnectionPool : Type 0 where
  pub settings : Option Settings
  pub connections : List ℕ
  pub checking : List ℕ
  pub lent : List ℕ
  pub created : ℕ
  pub initialized : Bool

abbrev pub new_pool : DbConnectionPool
new_pool = record {
  settings = none;
  connections = [];
  checking = [];
  lent = [];
  created = 0;
  initialized = false;
}

-- `connections_.push(conn)`.
unfoldable pub push : ℕ → DbConnectionPool → DbConnectionPool
push conn p = record p { connections = p.connections ++ conn ∷ [] }

-- The loop of `init`, until a connection cannot be made, which throws.
unfoldable pub create_connections : (ℕ → Bool) → ℕ → DbConnectionPool → Bool × DbConnectionPool
unfolding push
create_connections can_make zero p = (true, p)
create_connections can_make (suc n) p =
    let rest =
      create_connections can_make n (push p.created (record p { created = suc p.created })) in
    if can_make p.created then rest else (false, p)

abbrev pub set_up : (ℕ → Bool) → Settings → ℕ → DbConnectionPool → Bool × DbConnectionPool
set_up can_make settings pool_size p =
    let (done, p') =
      create_connections can_make pool_size (record p { settings = some settings }) in
    (done, record p' { initialized = done || p'.initialized })

-- `true` when nothing was thrown. No lock is held: its `lock_guard` is commented out in the source.
unfoldable pub init : (ℕ → Bool) → Settings → ℕ → DbConnectionPool → Bool × DbConnectionPool
init can_make settings pool_size p =
    if p.initialized then (true, p) else set_up can_make settings pool_size p

pub data Acquired : Type 0 where
  popped : ℕ → Acquired
  waits : Acquired
  not_initialized : Acquired

-- One round of the loop of `getConnection`, under the mutex.
unfoldable pub acquire : DbConnectionPool → Acquired × DbConnectionPool
acquire p = elim p.connections [
  | [] ↦ (if p.initialized then waits else not_initialized, p)
  | conn ∷ rest ↦ (popped conn, record p { connections = rest; checking = conn ∷ p.checking })
]

unfoldable pub remove : ℕ → List ℕ → List ℕ
remove c [] = []
remove c (x ∷ xs) = if x == c then xs else x ∷ remove c xs

-- The rest of `getConnection`: `true` and the connection is lent, `false` and it is pushed back as the
-- exception goes on. A lost connection is reconnected first.
unfoldable pub check_connection : Bool → Bool → ℕ → DbConnectionPool → Bool × DbConnectionPool
unfolding push
check_connection pings reconnects conn p =
    let checked = record p { checking = remove conn p.checking } in
    if pings || reconnects
    then (true, record checked { lent = conn ∷ p.lent })
    else (false, push conn checked)

-- The deleter of the pointer that `getConnection` gives.
unfoldable pub release : ℕ → DbConnectionPool → DbConnectionPool
unfolding push
release conn p = push conn (record p { lent = remove conn p.lent })
