-- ===== src/Session/Invariant.antt =====
-- What each operation keeps of the storage: an id leads to the session that has it.
use miniaibrowse_cpp.Common.{
  ℕ, ◌≡◌, inl, inr, refl, subst, ◌∙◌, Option, none, some, Bytes, get_elem?, set, is_empty, bytes_eq,
  bytes_eq_iff, bytes_key, ℕ_key, lookup, insert, erase, lookup-insert, lookup-erase, ◌==◌,
  Bool-cases, Option-cases, get_elem?-lt, get_elem?-append, get_elem?-set_self, get_elem?-set_ne,
  arith,
}
use miniaibrowse_cpp.Http.Request.{HttpRequest}
use miniaibrowse_cpp.Http.Response.{HttpResponse}
use miniaibrowse_cpp.Session.{
  Session, Sessions, is_expired, refresh, adopt, put_value, update_at, save, load, destroy_session,
  save_managed, set_value, remove_value, clear, create_session, find_session, touch, expired_at,
  found_or_created, get_session, get_session_id_from_cookie,
}

module _ {Rng : Type 0} where
  -- The object behind a pointer.
  abbrev pub At : Sessions Rng → ℕ → Session → Type 0
  At st p s = get_elem? st.heap p ≡ some s

  -- Every entry of the storage points to a session with the entry's id.
  abbrev pub StoreOk : Sessions Rng → Type 0
  StoreOk st =
      (id : Bytes) (p : ℕ)
      → lookup id st.sessions ≡ some p
      → (s : Session) × At st p s × (s.session_id ≡ id)

  -- `q` still stands, with the id that it had.
  abbrev Stands : Sessions Rng → ℕ → Session → Type 0
  Stands st q s = (s' : Session) × At st q s' × (s'.session_id ≡ s.session_id)

  set_heap-Stands :
      (st : Sessions Rng) (p q : ℕ) (new s sq : Session)
      → At st p s
      → new.session_id ≡ s.session_id
      → At st q sq
      → Stands (record st { heap = set st.heap p new }) q sq
  set_heap-Stands st p q new s sq at same atq = elim (Bool-cases (p == q)) [
    | inl e ↦
        let pq : p ≡ q = ground arith in
        (
          new,
          subst (λ i. get_elem? (set st.heap p new) i ≡ some new) pq
              (get_elem?-set_self st.heap p new (get_elem?-lt st.heap p s at)),
          same ∙ cc,
        )
    | inr n ↦ (sq, get_elem?-set_ne st.heap p q new (ground arith) ∙ atq, refl)
  ]

  set_heap-StoreOk :
      (st : Sessions Rng) (p : ℕ) (new s : Session)
      → At st p s
      → new.session_id ≡ s.session_id
      → StoreOk st
      → StoreOk (record st { heap = set st.heap p new })
  set_heap-StoreOk st p new s at same inv id q e =
      let (sq, atq, named) = inv id q e in
      let (s', at', named') = set_heap-Stands st p q new s sq at same atq in
      (s', at', named' ∙ named)

  update_at-StoreOk :
      (st : Sessions Rng) (p : ℕ) (f : Session → Session)
      → ((s : Session) → (f s).session_id ≡ s.session_id)
      → StoreOk st
      → StoreOk (update_at st p f)
  unfolding update_at
  update_at-StoreOk st p f same inv = elim (Option-cases (get_elem? st.heap p)) [
    | inl e ↦ rw (e, update_at) inv
    | inr (s, e) ↦ rw (e, update_at) (set_heap-StoreOk st p (f s) s e (same s) inv)
  ]

  insert-StoreOk :
      (st : Sessions Rng) (p : ℕ) (s : Session)
      → At st p s
      → StoreOk st
      → StoreOk (record st { sessions = insert s.session_id p st.sessions })
  insert-StoreOk st p s at inv id q e =
      let law = lookup-insert s.session_id id p st.sessions in
      elim (Bool-cases (bytes_eq s.session_id id)) [
        | inl same ↦
            let pq : p ≡ q = ground (arith, law) in
            (s, subst (λ i. At st i s) pq at, (bytes_eq_iff s.session_id id).0 same)
        | inr other ↦ inv id q (ground (arith, law))
      ]

  save-StoreOk : (st : Sessions Rng) (p : ℕ) → StoreOk st → StoreOk (save st p)
  unfolding save
  save-StoreOk st p inv = elim (Option-cases (get_elem? st.heap p)) [
    | inl e ↦ rw (e, save) inv
    | inr (s, e) ↦ rw (e, save) (insert-StoreOk st p s e inv)
  ]

  erase-StoreOk :
      (st : Sessions Rng) (k : Bytes)
      → StoreOk st
      → StoreOk (record st { sessions = erase k st.sessions })
  erase-StoreOk st k inv id q e =
      let law = lookup-erase k id st.sessions in inv id q (ground (arith, law))

  load-StoreOk :
      (now : ℕ) (st : Sessions Rng) (id : Bytes) → StoreOk st → StoreOk (load now st id).1
  unfolding load
  load-StoreOk now st id inv = elim (Option-cases (lookup id st.sessions)) [
    | inl e ↦ rw (e, load) inv
    | inr (p, e) ↦ elim (Option-cases (get_elem? st.heap p)) [
      | inl a ↦ rw (e, load, a) inv
      | inr (s, a) ↦ elim (Bool-cases (is_expired now s)) [
        | inl old ↦ rw (e, load, a, old) (erase-StoreOk st id inv)
        | inr fresh ↦ rw (e, load, a, fresh) inv
      ]
    ]
  ]

  save_managed-StoreOk :
      (st : Sessions Rng) (p : ℕ) (s : Session) → StoreOk st → StoreOk (save_managed st p s)
  save_managed-StoreOk st p s inv = elim (Bool-cases s.has_manager) [
    | inl e ↦ rw e (save-StoreOk st p inv)
    | inr e ↦ rw e inv
  ]

  set_value-StoreOk :
      (st : Sessions Rng) (p : ℕ) (key value : Bytes)
      → StoreOk st
      → StoreOk (set_value st p key value)
  unfolding set_value
  set_value-StoreOk st p key value inv = elim (Option-cases (get_elem? st.heap p)) [
    | inl e ↦ rw (e, set_value) inv
    | inr (s, e) ↦
        rw (e, set_value)
          (save_managed-StoreOk (record st { heap = set st.heap p (put_value key value s) }) p s
            (set_heap-StoreOk st p (put_value key value s) s e refl inv))
  ]

  touch-StoreOk : (now : ℕ) (st : Sessions Rng) (p : ℕ) → StoreOk st → StoreOk (touch now st p)
  unfolding touch refresh
  touch-StoreOk now st p inv =
      save-StoreOk (update_at st p (refresh now)) p
        (update_at-StoreOk st p (refresh now) (λ s. refl) inv)

  find_session-StoreOk :
      (now : ℕ) (st : Sessions Rng) (id : Bytes) → StoreOk st → StoreOk (find_session now st id).1
  unfolding find_session
  find_session-StoreOk now st id inv = elim (Bool-cases (is_empty id)) [
    | inl e ↦ rw (e, find_session) inv
    | inr e ↦ rw (e, find_session) (load-StoreOk now st id inv)
  ]

module _ {Rng : Type 0} (draw : Rng → ℕ × Rng) where
  create_session-StoreOk :
      (now : ℕ) (st : Sessions Rng) (r : HttpResponse)
      → StoreOk st
      → StoreOk (create_session draw now st r).1
  unfolding create_session
  create_session-StoreOk now st r inv id q e =
      let (s, at, named) = inv id q e in (s, get_elem?-append st.heap _ q s at, named)

  found_or_created-StoreOk :
      (later : ℕ) (r : HttpResponse) (q : Option ℕ × Sessions Rng)
      → StoreOk q.1
      → StoreOk (found_or_created draw later r q).1
  unfolding found_or_created
  found_or_created-StoreOk later r (none, st) inv = create_session-StoreOk later st r inv
  found_or_created-StoreOk later r (some p, st) inv = elim (Bool-cases (expired_at later st p)) [
    | inl e ↦ rw (e, found_or_created) (create_session-StoreOk later st r inv)
    | inr e ↦ rw (e, found_or_created) (update_at-StoreOk st p adopt (λ s. refl) inv)
  ]

  -- Every operation keeps the storage in order: each id in it leads to a session in the heap that has
  -- this id. So do `getSession`, `setValue`, `remove`, `clear` and `destroySession`.
  pub operations-StoreOk :
      (st : Sessions Rng)
      → StoreOk st
      → ((now later : ℕ) (request : HttpRequest) (r : HttpResponse)
          → StoreOk (get_session draw now later request r st).1)
        × ((p : ℕ) (key value : Bytes) → StoreOk (set_value st p key value))
        × ((p : ℕ) (key : Bytes) → StoreOk (remove_value st p key))
        × ((p : ℕ) → StoreOk (clear st p))
        × ((id : Bytes) → StoreOk (destroy_session st id))
  unfolding get_session remove_value clear destroy_session
  operations-StoreOk st inv = (
    λ now later request r. touch-StoreOk later _ _ (
        found_or_created-StoreOk later r _
          (find_session-StoreOk now st (get_session_id_from_cookie request) inv)),
    λ p key value. set_value-StoreOk st p key value inv,
    λ p key. update_at-StoreOk st p _ (λ s. refl) inv,
    λ p. update_at-StoreOk st p _ (λ s. refl) inv,
    λ id. erase-StoreOk st id inv,
  )
