-- ===== src/Session/Lifetime.antt =====
-- What a session keeps: the values stored in it.
use miniaibrowse_cpp.Common.{
  ℕ, ◌≡◌, inl, inr, refl, subst, ◌∙◌, ◌&&◌, some, Bytes, get_elem?, set, bytes_eq, bytes_key, ℕ_key,
  lookup_or, lookup-insert, ◌==◌, if◌then◌else◌, Bool-cases, Option-cases, get_elem?-lt,
  get_elem?-set_self, get_elem?-set_ne, arith,
}
use miniaibrowse_cpp.Common.{get_elem?-lt, get_elem?-set_self, get_elem?-set_ne}
use miniaibrowse_cpp.Session.{
  Session, Sessions, get_value, put_value, save, save_managed, set_value, value_at,
}
use miniaibrowse_cpp.Session.Invariant.{At}

get_value-put_value :
    (s : Session) (key j value : Bytes)
    → get_value (put_value key value s) j ≡ (if bytes_eq key j then value else get_value s j)
unfolding get_value lookup_or
get_value-put_value s key j value = ground (arith, lookup-insert key j value s.data_values)

module _ {Rng : Type 0} where
  pub save-heap : (st : Sessions Rng) (p : ℕ) → (save st p).heap ≡ st.heap
  unfolding save
  save-heap st p = elim (Option-cases (get_elem? st.heap p)) [
    | inl e ↦ rw (e, save) refl
    | inr (s, e) ↦ rw (e, save) refl
  ]

  pub save_managed-heap :
      (st : Sessions Rng) (p : ℕ) (s : Session) → (save_managed st p s).heap ≡ st.heap
  save_managed-heap st p s = elim (Bool-cases s.has_manager) [
    | inl e ↦ rw e (save-heap st p)
    | inr e ↦ rw e refl
  ]

  pub value_at_heap :
      (a b : Sessions Rng) (q : ℕ) (j : Bytes) → a.heap ≡ b.heap → value_at a q j ≡ value_at b q j
  unfolding value_at
  value_at_heap a b q j e = rw e refl

  value_at-set :
      (st : Sessions Rng) (p q : ℕ) (s : Session) (key j value : Bytes)
      → At st p s
      → value_at (record st { heap = set st.heap p (put_value key value s) }) q j
        ≡ (if (p == q) && bytes_eq key j then value else value_at st q j)
  unfolding value_at
  value_at-set st p q s key j value at =
      let law = get_value-put_value s key j value in
      let new = put_value key value s in
      elim (Bool-cases (p == q)) [
        | inl e ↦
            let same : p ≡ q = ground arith in
            let here : get_elem? (set st.heap p new) q ≡ some new =
              subst (λ i. get_elem? (set st.heap p new) i ≡ some new) same
                (get_elem?-set_self st.heap p new (get_elem?-lt st.heap p s at)) in
            let there : get_elem? st.heap q ≡ some s =
              subst (λ i. get_elem? st.heap i ≡ some s) same at in
            rw (here, value_at) (rw (there, value_at) (ground (arith, law)))
        | inr n ↦ rw (get_elem?-set_ne st.heap p q new (ground arith), value_at) (ground arith)
      ]

  -- Storing a value under one key of one session is seen under this key of this session, through
  -- whichever pointer leads to it, and changes no other key and no other session.
  pub value_at-set_value :
      (st : Sessions Rng) (p q : ℕ) (s : Session) (key j value : Bytes)
      → At st p s
      → value_at (set_value st p key value) q j
        ≡ (if (p == q) && bytes_eq key j then value else value_at st q j)
  unfolding set_value
  value_at-set_value st p q s key j value at =
      let written = record st { heap = set st.heap p (put_value key value s) } in
      rw (at, set_value)
        (value_at_heap (save_managed written p s) written q j (save_managed-heap written p s)
          ∙ value_at-set st p q s key j value at)
