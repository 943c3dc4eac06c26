-- ===== src/Session/Pointers.antt =====
-- The pointers that the session manager hands out lead to objects.
use miniaibrowse_cpp.Common.{
  ℕ, ◌≡◌, inl, inr, refl, ap, subst, ◌∙◌, Option, none, some, Bytes, get_elem?, set, is_empty,
  bytes_key, ℕ_key, lookup, Bool-cases, Option-cases, get_elem?-lt, get_elem?_last,
  get_elem?-set_self, arith,
}
use miniaibrowse_cpp.Http.Request.{HttpRequest}
use miniaibrowse_cpp.Http.Response.{HttpResponse}
use miniaibrowse_cpp.Session.{
  Session, Sessions, is_expired, refresh, adopt, put_value, update_at, save, load, save_managed,
  set_value, create_session, find_session, touch, expired_at, found_or_created, get_session,
  get_session_id_from_cookie,
}
use miniaibrowse_cpp.Session.Invariant.{At}
use miniaibrowse_cpp.Session.Lifetime.{save-heap, save_managed-heap}

module _ {Rng : Type 0} where
  abbrev pub Live : Sessions Rng → ℕ → Type 0
  Live st p = (s : Session) × At st p s

  Live-heap : (a b : Sessions Rng) (p : ℕ) → a.heap ≡ b.heap → Live b p → Live a p
  Live-heap a b p e (s, at) = (s, ap (λ h. get_elem? h p) e ∙ at)

  pub update_at-At :
      (st : Sessions Rng) (p : ℕ) (s : Session) (f : Session → Session)
      → At st p s
      → At (update_at st p f) p (f s)
  unfolding update_at
  update_at-At st p s f at =
      rw (at, update_at) (get_elem?-set_self st.heap p (f s) (get_elem?-lt st.heap p s at))

  pub set_value-Live :
      (st : Sessions Rng) (p : ℕ) (key value : Bytes)
      → Live st p
      → Live (set_value st p key value) p
  unfolding set_value
  set_value-Live st p key value (s, at) =
      let new = put_value key value s in
      let written = record st { heap = set st.heap p new } in
      rw (at, set_value)
        (Live-heap (save_managed written p s) written p (save_managed-heap written p s)
          (new, get_elem?-set_self st.heap p new (get_elem?-lt st.heap p s at)))

  touch-Live : (now : ℕ) (st : Sessions Rng) (p : ℕ) → Live st p → Live (touch now st p) p
  unfolding touch
  touch-Live now st p (s, at) =
      let fresh = update_at st p (refresh now) in
      Live-heap (save fresh p) fresh p (save-heap fresh p)
        (refresh now s, update_at-At st p s (refresh now) at)

  -- A session found is one that the heap has.
  Found : Option ℕ × Sessions Rng → Type 0
  Found q = (p : ℕ) → q.0 ≡ some p → Live q.1 p

  load-Found : (now : ℕ) (st : Sessions Rng) (id : Bytes) → Found (load now st id)
  unfolding load Found
  load-Found now st id = elim (Option-cases (lookup id st.sessions)) [
    | inl e ↦ rw (e, load) (λ p f. ground arith)
    | inr (p, e) ↦ elim (Option-cases (get_elem? st.heap p)) [
      | inl a ↦ rw (e, load, a) (λ p f. ground arith)
      | inr (s, a) ↦ elim (Bool-cases (is_expired now s)) [
        | inl old ↦ rw (e, load, a, old) (λ p f. ground arith)
        | inr fresh ↦
            rw (e, load, a, fresh)
              (λ q f. let same : p ≡ q = ground arith in subst (λ i. Live st i) same (s, a))
      ]
    ]
  ]

  find_session-Found : (now : ℕ) (st : Sessions Rng) (id : Bytes) → Found (find_session now st id)
  unfolding find_session Found
  find_session-Found now st id = elim (Bool-cases (is_empty id)) [
    | inl e ↦ rw (e, find_session) (λ p f. ground arith)
    | inr e ↦ rw (e, find_session) (load-Found now st id)
  ]

module _ {Rng : Type 0} (draw : Rng → ℕ × Rng) where
  create_session-Live :
      (now : ℕ) (st : Sessions Rng) (r : HttpResponse)
      → Live (create_session draw now st r).1 (create_session draw now st r).0
  unfolding create_session
  create_session-Live now st r = (_, get_elem?_last st.heap _)

  found_or_created-Live :
      (later : ℕ) (r : HttpResponse) (q : Option ℕ × Sessions Rng)
      → Found q
      → Live (found_or_created draw later r q).1 (found_or_created draw later r q).0
  unfolding found_or_created Found
  found_or_created-Live later r (none, st) h = create_session-Live later st r
  found_or_created-Live later r (some p, st) h = elim (Bool-cases (expired_at later st p)) [
    | inl e ↦ rw (e, found_or_created) (create_session-Live later st r)
    | inr e ↦
        let (s, at) = h p refl in rw (e, found_or_created) (adopt s, update_at-At st p s adopt at)
  ]

  pub get_session-Live :
      (now later : ℕ) (request : HttpRequest) (r : HttpResponse) (st : Sessions Rng)
      → Live (get_session draw now later request r st).1 (get_session draw now later request r st).0
  unfolding get_session
  get_session-Live now later request r st = touch-Live later _ _ (
      found_or_created-Live later r _
        (find_session-Found now st (get_session_id_from_cookie request)))
