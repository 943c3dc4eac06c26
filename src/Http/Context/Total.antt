-- ===== src/Http/Context/Total.antt =====
-- The loop of `parseRequest` ends, and what it needs for that.
use miniaibrowse_cpp.Common.{
  ℕ, zero, suc, ◌+◌, ◌<◌, ◌≤◌, ◌≡◌, ◌≢◌, refl, [], ◌∷◌, Option, none, some, Bytes, length,
  length-drop, arith, Option-cases, inl, inr, ap, sym, ◌∙◌,
}
use miniaibrowse_cpp.Http.Buffer.{Buffer, crlf_at}
use miniaibrowse_cpp.Http.Context.{
  HttpContext, ParseState, expect_request_line, expect_headers, expect_body, got_all, Round, again,
  done, raised, aborted, request_line_round, headers_round, body_round, round, next, parse_loop,
  parse_request,
}

pub crlf_at-le : (s : Bytes) (i : ℕ) → crlf_at s ≡ some i → i + 2 ≤ length s
unfolding crlf_at
crlf_at-le [] i h = ground arith
crlf_at-le (x ∷ []) i h = ground arith
crlf_at-le (x ∷ y ∷ s) i h = elim (Option-cases (crlf_at (y ∷ s))) [
  | inl e ↦ ground arith
  | inr (j, e) ↦ ground (arith, crlf_at-le (y ∷ s) j e)
]

module _ (B : Buffer) where
  open B use {Buf, readable, find_crlf, retrieve, find_crlf_lem, readable-retrieve}

  retrieve-lt :
      (b : Buf) (i : ℕ)
      → find_crlf b ≡ some i
      → length (readable (retrieve (i + 2) b)) + 2 ≤ length (readable b)
  retrieve-lt b i h =
      let le = crlf_at-le (readable b) i (sym (find_crlf_lem b) ∙ h) in
      omega
        (arith, le, ap length (readable-retrieve (i + 2) b le), length-drop (i + 2) (readable b))

  -- A round that goes on takes two bytes at least and does not reach `kGotAll`.
  abbrev pub Shrinks : HttpContext → Buf → Buf → Type 0
  Shrinks c' b b' = (c'.state ≢ got_all) × (length (readable b') + 2 ≤ length (readable b))

  request_line_round-again :
      (t : ℕ) (c c' : HttpContext) (b b' : Buf)
      → request_line_round B t c b ≡ again c' b'
      → Shrinks c' b b'
  unfolding request_line_round
  request_line_round-again t c c' b b' h = elim (Option-cases (find_crlf b)) [
    | inl absent ↦ ground arith
    | inr (i, found) ↦ ground (arith, retrieve-lt b i found)
  ]

  headers_round-again :
      (c c' : HttpContext) (b b' : Buf)
      → c.state ≢ got_all
      → headers_round B c b ≡ again c' b'
      → Shrinks c' b b'
  unfolding headers_round
  headers_round-again c c' b b' n h = elim (Option-cases (find_crlf b)) [
    | inl absent ↦ ground arith
    | inr (i, found) ↦ ground (arith, retrieve-lt b i found)
  ]

  body_round-again :
      (c c' : HttpContext) (b b' : Buf) → body_round B c b ≡ again c' b' → Shrinks c' b b'
  unfolding body_round
  body_round-again c c' b b' h = ground arith

  pub round-again :
      (t : ℕ) (s : ParseState) (c c' : HttpContext) (b b' : Buf)
      → s ≡ c.state
      → s ≢ got_all
      → round B t s c b ≡ again c' b'
      → Shrinks c' b b'
  unfolding round
  round-again t expect_request_line c c' b b' e n h = request_line_round-again t c c' b b' h
  round-again t expect_headers c c' b b' e n h = headers_round-again c c' b b' (ground arith) h
  round-again t expect_body c c' b b' e n h = body_round-again c c' b b' h
  round-again t got_all c c' b b' e n h = absurd (n refl)

  next_total :
      (loop : HttpContext → Buf → Option (Round Buf)) (r : Round Buf)
      → ((c : HttpContext) (b : Buf) → r ≡ again c b → (q : Round Buf) × (loop c b ≡ some q))
      → (q : Round Buf) × (next B loop r ≡ some q)
  next_total loop (again c b) h = h c b refl
  next_total loop (done ok c b) h = (done ok c b, refl)
  next_total loop (raised e c b) h = (raised e c b, refl)
  next_total loop aborted h = (aborted, refl)

  parse_loop_total :
      (fuel t : ℕ) (c : HttpContext) (b : Buf)
      → c.state ≢ got_all
      → length (readable b) < fuel
      → (q : Round Buf) × (parse_loop B fuel t c b ≡ some q)
  unfolding parse_loop
  parse_loop_total zero t c b n h = elim h [ ]
  parse_loop_total (suc fuel) t c b n h =
      next_total (parse_loop B fuel t) (round B t c.state c b) λ c' b' e.
        let (n', less) = round-again t c.state c c' b b' refl n e in
        parse_loop_total fuel t c' b' n' (omega arith)

  next_congr :
      (k l : HttpContext → Buf → Option (Round Buf)) (r : Round Buf)
      → ((c : HttpContext) (b : Buf) → r ≡ again c b → k c b ≡ l c b)
      → next B k r ≡ next B l r
  next_congr k l (again c b) h = h c b refl
  next_congr k l (done ok c b) h = refl
  next_congr k l (raised e c b) h = refl
  next_congr k l aborted h = refl

  -- More fuel than bytes changes nothing.
  pub parse_loop_fuel :
      (fuel more t : ℕ) (c : HttpContext) (b : Buf)
      → c.state ≢ got_all
      → length (readable b) < fuel
      → length (readable b) < more
      → parse_loop B fuel t c b ≡ parse_loop B more t c b
  unfolding parse_loop
  parse_loop_fuel zero more t c b n h k = elim h [ ]
  parse_loop_fuel (suc fuel) zero t c b n h k = elim k [ ]
  parse_loop_fuel (suc fuel) (suc more) t c b n h k =
      next_congr (parse_loop B fuel t) (parse_loop B more t) (round B t c.state c b) λ c' b' e.
        let (n', less) = round-again t c.state c c' b b' refl n e in
        parse_loop_fuel fuel more t c' b' n' (omega arith) (omega arith)

  -- From any state but `kGotAll` the loop of `parseRequest` ends: it returns, throws or aborts.
  pub parse_request_total :
      (t : ℕ) (c : HttpContext) (b : Buf)
      → c.state ≢ got_all
      → (q : Round Buf) × (parse_request B t c b ≡ some q)
  unfolding parse_request
  parse_request_total t c b n = parse_loop_total (length (readable b) + 2) t c b n (omega arith)

  -- In `kGotAll`, before `reset`, it never ends, whatever fuel it is given.
  pub parse_loop-got_all :
      (fuel t : ℕ) (c : HttpContext) (b : Buf) → c.state ≡ got_all → parse_loop B fuel t c b ≡ none
  unfolding parse_loop round
  parse_loop-got_all zero t c b e = refl
  parse_loop-got_all (suc fuel) t c b e =
      ap (λ s. next B (parse_loop B fuel t) (round B t s c b)) e ∙ parse_loop-got_all fuel t c b e
