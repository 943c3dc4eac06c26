-- ===== src/Pool/Conservation.antt =====
-- Where the connections of a pool are, in every order in which threads can use it.
use miniaibrowse_cpp.Common.{
  if_either, true, ℕ, zero, suc, ◌+◌, ◌<◌, ◌≡◌, inl, inr, refl, ap, ◌∙◌, Bool, List, [], ◌∷◌, ◌++◌,
  some, bytes_key, ℕ_key, ◌==◌, ltb, if◌then◌else◌, Bool-cases, arith,
}
use miniaibrowse_cpp.Pool.{
  Settings, DbConnectionPool, new_pool, set_up, create_connections, init, push, acquire, remove,
  check_connection, release,
}

unfoldable pub count : ℕ → List ℕ → ℕ
count c [] = 0
count c (x ∷ xs) = if x == c then suc (count c xs) else count c xs

count-append : (c : ℕ) (xs ys : List ℕ) → count c (xs ++ ys) ≡ count c xs + count c ys
unfolding count
count-append c [] ys = omega arith
count-append c (x ∷ xs) ys = ground (arith, count-append c xs ys)

count-push : (c d : ℕ) (xs : List ℕ) → count c (xs ++ d ∷ []) ≡ count c (d ∷ xs)
unfolding count
count-push c d xs = ground (arith, count-append c xs (d ∷ []))

count-remove : (c d : ℕ) (xs : List ℕ) → 0 < count d xs → count c (d ∷ remove d xs) ≡ count c xs
unfolding count remove
count-remove c d [] h = ground arith
count-remove c d (x ∷ xs) h = ground (arith, count-remove c d xs)

-- A step of a thread once the pool was set up: a round of the loop of `getConnection`, its check of the
-- connection that it popped, or the release of a connection that is lent.
pub data Step : DbConnectionPool → DbConnectionPool → Type 0 where
  acquires : {p : DbConnectionPool} → Step p (acquire p).1
  checks :
      {p : DbConnectionPool} (pings reconnects : Bool) (conn : ℕ)
      → 0 < count conn p.checking
      → Step p (check_connection pings reconnects conn p).1
  releases : {p : DbConnectionPool} (conn : ℕ) → 0 < count conn p.lent → Step p (release conn p)

-- `init` takes no lock: its calls stand one behind the other, each to its end or to its exception.
pub data Prepared : DbConnectionPool → Type 0 where
  not_yet : Prepared new_pool
  then_init :
      {p : DbConnectionPool} (can_make : ℕ → Bool) (settings : Settings) (pool_size : ℕ)
      → Prepared p
      → Prepared (init can_make settings pool_size p).1

-- Other threads have the pool only when these calls are over.
pub data Reachable : DbConnectionPool → Type 0 where
  prepared : {p : DbConnectionPool} → Prepared p → Reachable p
  then_step : {p q : DbConnectionPool} → Reachable p → Step p q → Reachable q

abbrev pub places : ℕ → DbConnectionPool → ℕ
places c p = count c p.connections + count c p.checking + count c p.lent

-- Each connection made is in one place, and no other is anywhere.
abbrev pub Conserved : DbConnectionPool → Type 0
Conserved p = (c : ℕ) → places c p ≡ (if ltb c p.created then 1 else 0)

push_new-Conserved :
    (p : DbConnectionPool)
    → Conserved p
    → Conserved (push p.created (record p { created = suc p.created }))
unfolding push count
push_new-Conserved p h c = ground (arith, h c, count-push c p.created p.connections)

create_connections-Conserved :
    (can_make : ℕ → Bool) (n : ℕ) (p : DbConnectionPool)
    → Conserved p
    → Conserved (create_connections can_make n p).1
unfolding create_connections
create_connections-Conserved can_make zero p h = h
create_connections-Conserved can_make (suc n) p h = elim (Bool-cases (can_make p.created)) [
  | inl e ↦
      rw (e, create_connections)
        (create_connections-Conserved can_make n
          (push p.created (record p { created = suc p.created })) (push_new-Conserved p h))
  | inr e ↦ rw (e, create_connections) h
]

set_up-Conserved :
    (can_make : ℕ → Bool) (settings : Settings) (pool_size : ℕ) (p : DbConnectionPool)
    → Conserved p
    → Conserved (set_up can_make settings pool_size p).1
set_up-Conserved can_make settings pool_size p h =
    create_connections-Conserved can_make pool_size (record p { settings = some settings }) h

popped_places :
    (c conn : ℕ) (rest : List ℕ) (p : DbConnectionPool)
    → count c p.connections ≡ count c (conn ∷ rest)
    → count c rest + count c (conn ∷ p.checking) + count c p.lent ≡ places c p
unfolding count
popped_places c conn rest p e = ground arith

acquire-Conserved :
    (p : DbConnectionPool) (queue : List ℕ)
    → p.connections ≡ queue
    → Conserved p
    → Conserved (acquire p).1
unfolding acquire
acquire-Conserved p [] e h = rw (e, acquire) h
acquire-Conserved p (conn ∷ rest) e h =
    rw (e, acquire) (λ c. popped_places c conn rest p (ap (count c) e) ∙ h c)

Step-Conserved : (p q : DbConnectionPool) → Step p q → Conserved p → Conserved q
unfolding check_connection release push count
Step-Conserved p _ acquires h = acquire-Conserved p p.connections refl h
Step-Conserved p _ (checks pings reconnects conn lt) h =
    λ c. ground (arith, h c, count-push c conn p.connections, count-remove c conn p.checking lt)
Step-Conserved p _ (releases conn lt) h =
    λ c. ground (arith, h c, count-push c conn p.connections, count-remove c conn p.lent lt)

start_places : (c : ℕ) → places c new_pool ≡ (if ltb c 0 then 1 else 0)
unfolding count
start_places c = ground arith

Prepared-Conserved : (p : DbConnectionPool) → Prepared p → Conserved p
unfolding init
Prepared-Conserved _ not_yet = λ c. start_places c
Prepared-Conserved _ (then_init {p} can_make settings pool_size before) =
    if_either (λ q. Conserved q.1) p.initialized (true, p) (set_up can_make settings pool_size p)
      (Prepared-Conserved p before)
      (set_up-Conserved can_make settings pool_size p (Prepared-Conserved p before))

Reachable-Conserved : (p : DbConnectionPool) → Reachable p → Conserved p
Reachable-Conserved _ (prepared h) = Prepared-Conserved _ h
Reachable-Conserved _ (then_step r s) = Step-Conserved _ _ s (Reachable-Conserved _ r)

-- After calls of `init` one behind the other, whether they made all connections or threw on the way, and in
-- whatever order threads then take, check and release connections, with connections failing as they may: each connection made is once in the queue, once in a check or once in the hands of a caller,
-- never in two of them and never twice in one, and none is lost.
pub connections-Conserved :
    (p : DbConnectionPool)
    → Reachable p
    → (c : ℕ)
    → count c p.connections + count c p.checking + count c p.lent
      ≡ (if ltb c p.created then 1 else 0)
connections-Conserved p r c = Reachable-Conserved p r c
