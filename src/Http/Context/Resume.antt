-- ===== src/Http/Context/Resume.antt =====
-- Bytes that arrive in pieces: `parseRequest` on a part of the input and again on the rest.
use miniaibrowse_cpp.Common.{
  ℕ, zero, suc, ◌+◌, ◌<◌, ◌≡◌, ◌≢◌, refl, true, [], ◌∷◌, ◌++◌, Option, some, Bytes, length,
  length-append, take-append_le, drop-append_le, arith, Option-cases, inl, inr, ap, sym, ◌∙◌,
}
use mathlib.Core.Option
use miniaibrowse_cpp.Http.Buffer.{Buffer, crlf_at, bytes_buffer}
use miniaibrowse_cpp.Http.Context.{
  HttpContext, ParseState, expect_request_line, expect_headers, expect_body, got_all, Round, again,
  done, raised, aborted, request_line_round, headers_round, body_round, round, next, parse_loop,
  parse_request,
}
use miniaibrowse_cpp.Http.Context.Total.{crlf_at-le, round-again, parse_loop_fuel}

crlf_at-append : (s u : Bytes) (i : ℕ) → crlf_at s ≡ some i → crlf_at (s ++ u) ≡ some i
unfolding crlf_at
crlf_at-append [] u i h = cc
crlf_at-append (x ∷ []) u i h = cc
crlf_at-append (x ∷ y ∷ s) u i h = elim (Option-cases (crlf_at (y ∷ s))) [
  | inl e ↦ ground arith
  | inr (j, e) ↦ ground (arith, crlf_at-append (y ∷ s) u j e)
]

-- What the outcome of a round becomes when more bytes stand behind those it saw.
abbrev Extends : Bytes → HttpContext → Bytes → Round Bytes → Round Bytes → Type 0
Extends u c s (again c' s') r = r ≡ again c' (s' ++ u)
Extends u c s (done ok c' s') r =
    (ok ≡ true → c'.state ≡ got_all → r ≡ done ok c' (s' ++ u))
    × (ok ≡ true → c'.state ≢ got_all → (c' ≡ c) × (s' ≡ s))
Extends u c s (raised e c' s') r = Unit
Extends u c s aborted r = Unit

module _ (u : Bytes) where
  request_line_round-append :
      (t : ℕ) (c : HttpContext) (s : Bytes)
      → c.state ≢ got_all
      → Extends u c s
          (request_line_round bytes_buffer t c s)
          (request_line_round bytes_buffer t c (s ++ u))
  unfolding request_line_round
  request_line_round-append t c s n = elim (Option-cases (crlf_at s)) [
    | inl e ↦ ground arith
    | inr (i, e) ↦ ground (
      arith,
      crlf_at-append s u i e,
      take-append_le i s u,
      drop-append_le (i + 2) s u,
      crlf_at-le s i e,
    )
  ]

  headers_round-append :
      (c : HttpContext) (s : Bytes)
      → c.state ≢ got_all
      → Extends u c s (headers_round bytes_buffer c s) (headers_round bytes_buffer c (s ++ u))
  unfolding headers_round
  headers_round-append c s n = elim (Option-cases (crlf_at s)) [
    | inl e ↦ ground arith
    | inr (i, e) ↦ ground (
      arith,
      crlf_at-append s u i e,
      take-append_le i s u,
      drop-append_le (i + 2) s u,
      crlf_at-le s i e,
    )
  ]

  body_round-append :
      (c : HttpContext) (s : Bytes)
      → c.state ≢ got_all
      → Extends u c s (body_round bytes_buffer c s) (body_round bytes_buffer c (s ++ u))
  unfolding body_round
  body_round-append c s n = ground (
    arith,
    length-append s u,
    take-append_le c.request.content_length s u,
    drop-append_le c.request.content_length s u,
  )

  round-append :
      (t : ℕ) (st : ParseState) (c : HttpContext) (s : Bytes)
      → st ≡ c.state
      → st ≢ got_all
      → Extends u c s (round bytes_buffer t st c s) (round bytes_buffer t st c (s ++ u))
  unfolding round
  round-append t expect_request_line c s e n = request_line_round-append t c s (ground arith)
  round-append t expect_headers c s e n = headers_round-append c s (ground arith)
  round-append t expect_body c s e n = body_round-append c s (ground arith)
  round-append t got_all c s e n = absurd (n refl)

  abbrev Loop : Type 0
  Loop = HttpContext → Bytes → Option (Round Bytes)

  -- The first call stopped for want of bytes; the second goes on where it stopped.
  next_resume :
      (k l m : Loop) (c c' : HttpContext) (s s' : Bytes) (r q : Round Bytes)
      → Extends u c s r q
      → c'.state ≢ got_all
      → next bytes_buffer k r ≡ some (done true c' s')
      → ((c₁ : HttpContext) (s₁ : Bytes)
          → r ≡ again c₁ s₁
          → k c₁ s₁ ≡ some (done true c' s')
          → l c₁ (s₁ ++ u) ≡ m c' (s' ++ u))
      → (r ≡ done true c' s' → s' ≡ s → next bytes_buffer l q ≡ m c (s ++ u))
      → next bytes_buffer l q ≡ m c' (s' ++ u)
  next_resume k l m c c' s s' (again c₁ s₁) q x n h go stay = rw x (go c₁ s₁ refl h)
  next_resume k l m c c' s s' (done ok c₁ s₁) q x n h go stay =
      let same : done ok c₁ s₁ ≡ done true c' s' = cc in
      let same_context : c₁ ≡ c' = cc in
      let (kept, kept_bytes) = x.1 (cc) (λ g. n (ap (λ z. z.state) (sym same_context) ∙ g)) in
      stay same (cc) ∙ cc
  next_resume k l m c c' s s' (raised e c₁ s₁) q x n h go stay = cc
  next_resume k l m c c' s s' aborted q x n h go stay = cc

  resume_loop :
      (fuel first rest t : ℕ) (c c' : HttpContext) (s s' : Bytes)
      → c.state ≢ got_all
      → c'.state ≢ got_all
      → parse_loop bytes_buffer fuel t c s ≡ some (done true c' s')
      → length (s ++ u) < first
      → length (s' ++ u) < rest
      → parse_loop bytes_buffer first t c (s ++ u) ≡ parse_loop bytes_buffer rest t c' (s' ++ u)
  unfolding parse_loop
  resume_loop zero first rest t c c' s s' n n' h f g = cc
  resume_loop (suc fuel) zero rest t c c' s s' n n' h f g = elim f [ ]
  resume_loop (suc fuel) (suc first) rest t c c' s s' n n' h f g =
      next_resume (parse_loop bytes_buffer fuel t) (parse_loop bytes_buffer first t)
        (parse_loop bytes_buffer rest t) c c' s s' (round bytes_buffer t c.state c s)
        (round bytes_buffer t c.state c (s ++ u)) (round-append t c.state c s refl n) n' h
        (λ c₁ s₁ e k.
          let (n₁, less) = round-again bytes_buffer t c.state c c₁ s s₁ refl n e in
          resume_loop fuel first rest t c₁ c' s₁ s' n₁ n' k
            (omega (arith, length-append s u, length-append s₁ u)) g)
        (λ _ e. parse_loop_fuel bytes_buffer (suc first) rest t c (s ++ u) n f (rw (← e) g))

  -- What `parse_request` gives for the whole input, once it has completed on a part.
  next_complete :
      (k l : Loop) (c c' : HttpContext) (s s' : Bytes) (r q : Round Bytes)
      → Extends u c s r q
      → c'.state ≡ got_all
      → next bytes_buffer k r ≡ some (done true c' s')
      → ((c₁ : HttpContext) (s₁ : Bytes)
          → r ≡ again c₁ s₁
          → k c₁ s₁ ≡ some (done true c' s')
          → l c₁ (s₁ ++ u) ≡ some (done true c' (s' ++ u)))
      → next bytes_buffer l q ≡ some (done true c' (s' ++ u))
  next_complete k l c c' s s' (again c₁ s₁) q x n h go = rw x (go c₁ s₁ refl h)
  next_complete k l c c' s s' (done ok c₁ s₁) q x n h go =
      let same : done ok c₁ s₁ ≡ done true c' s' = cc in
      let same_context : c₁ ≡ c' = cc in rw (x.0 (cc) (ap (λ z. z.state) same_context ∙ n)) (cc)
  next_complete k l c c' s s' (raised e c₁ s₁) q x n h go = cc
  next_complete k l c c' s s' aborted q x n h go = cc

  complete_loop :
      (fuel first t : ℕ) (c c' : HttpContext) (s s' : Bytes)
      → c.state ≢ got_all
      → c'.state ≡ got_all
      → parse_loop bytes_buffer fuel t c s ≡ some (done true c' s')
      → length (s ++ u) < first
      → parse_loop bytes_buffer first t c (s ++ u) ≡ some (done true c' (s' ++ u))
  unfolding parse_loop
  complete_loop zero first t c c' s s' n n' h f = cc
  complete_loop (suc fuel) zero t c c' s s' n n' h f = elim f [ ]
  complete_loop (suc fuel) (suc first) t c c' s s' n n' h f =
      next_complete (parse_loop bytes_buffer fuel t) (parse_loop bytes_buffer first t) c c' s s'
        (round bytes_buffer t c.state c s) (round bytes_buffer t c.state c (s ++ u))
        (round-append t c.state c s refl n) n' h
        (λ c₁ s₁ e k.
          let (n₁, less) = round-again bytes_buffer t c.state c c₁ s s₁ refl n e in
          complete_loop fuel first t c₁ c' s₁ s' n₁ n' k
            (omega (arith, length-append s u, length-append s₁ u)))

-- A round, its buffer read.
abbrev pub view_round : {B : Type 0} → (B → Bytes) → Round B → Round Bytes
view_round readable (again c b) = again c (readable b)
view_round readable (done ok c b) = done ok c (readable b)
view_round readable (raised e c b) = raised e c (readable b)
view_round readable aborted = aborted

module _ (B : Buffer) where
  open B use {Buf, readable, find_crlf, retrieve, find_crlf_lem, readable-retrieve}

  -- One round over any buffer that keeps its promises is one round over its bytes.
  round-view :
      (t : ℕ) (st : ParseState) (c : HttpContext) (b : Buf)
      → view_round readable (round B t st c b) ≡ round bytes_buffer t st c (readable b)
  unfolding round request_line_round headers_round body_round
  round-view t expect_request_line c b = elim (Option-cases (find_crlf b)) [
    | inl e ↦ ground (arith, find_crlf_lem b)
    | inr (i, e) ↦
        ground (arith, find_crlf_lem b, crlf_at-le (readable b) i, readable-retrieve (i + 2) b)
  ]
  round-view t expect_headers c b = elim (Option-cases (find_crlf b)) [
    | inl e ↦ ground (arith, find_crlf_lem b)
    | inr (i, e) ↦
        ground (arith, find_crlf_lem b, crlf_at-le (readable b) i, readable-retrieve (i + 2) b)
  ]
  round-view t expect_body c b = ground (arith, readable-retrieve c.request.content_length b)
  round-view t got_all c b = refl

  next-view :
      (k : HttpContext → Buf → Option (Round Buf)) (l : HttpContext → Bytes → Option (Round Bytes))
      (r : Round Buf)
      → ((c : HttpContext) (b : Buf) → Option.map (view_round readable) (k c b) ≡ l c (readable b))
      → Option.map (view_round readable) (next B k r) ≡ next bytes_buffer l (view_round readable r)
  next-view k l (again c b) h = h c b
  next-view k l (done ok c b) h = refl
  next-view k l (raised e c b) h = refl
  next-view k l aborted h = refl

  parse_loop-view :
      (fuel t : ℕ) (c : HttpContext) (b : Buf)
      → Option.map (view_round readable) (parse_loop B fuel t c b)
        ≡ parse_loop bytes_buffer fuel t c (readable b)
  unfolding parse_loop
  parse_loop-view zero t c b = refl
  parse_loop-view (suc fuel) t c b =
      next-view (parse_loop B fuel t) (parse_loop bytes_buffer fuel t) (round B t c.state c b)
        (parse_loop-view fuel t)
      ∙ ap (next bytes_buffer (parse_loop bytes_buffer fuel t)) (round-view t c.state c b)

  -- `parseRequest` over any buffer with the documented behaviour is `parseRequest` over its bytes:
  -- the same outcome and context, and the bytes that it leaves.
  pub parse_request-view :
      (t : ℕ) (c : HttpContext) (b : Buf)
      → Option.map (view_round readable) (parse_request B t c b)
        ≡ parse_request bytes_buffer t c (readable b)
  unfolding parse_request
  parse_request-view t c b = parse_loop-view (length (readable b) + 2) t c b

-- Input in pieces. If `parseRequest` on `s` asks for more bytes, having left `s'` of them, then calling
-- it again, with the rest behind what was left, gives what one call on the whole input gives.
pub parse_request_resume :
    (t : ℕ) (c c' : HttpContext) (s s' u : Bytes)
    → c.state ≢ got_all
    → parse_request bytes_buffer t c s ≡ some (done true c' s')
    → c'.state ≢ got_all
    → parse_request bytes_buffer t c (s ++ u) ≡ parse_request bytes_buffer t c' (s' ++ u)
unfolding parse_request
parse_request_resume t c c' s s' u n h n' =
    resume_loop u (length s + 2) (length (s ++ u) + 2) (length (s' ++ u) + 2) t c c' s s' n n' h
      (omega arith) (omega arith)

-- Pipelined input. If `parseRequest` completes a request on `s`, it completes the same request
-- whatever follows, and leaves what follows behind what it left of `s`.
pub parse_request_pipelined :
    (t : ℕ) (c c' : HttpContext) (s s' u : Bytes)
    → c.state ≢ got_all
    → parse_request bytes_buffer t c s ≡ some (done true c' s')
    → c'.state ≡ got_all
    → parse_request bytes_buffer t c (s ++ u) ≡ some (done true c' (s' ++ u))
unfolding parse_request
parse_request_pipelined t c c' s s' u n h n' =
    complete_loop u (length s + 2) (length (s ++ u) + 2) t c c' s s' n n' h (omega arith)
