-- ===== src/Http/Context/Messages.antt =====
-- Whole messages through `parseRequest`: what a client prints is what the server reads.
use miniaibrowse_cpp.Common.{
  ℕ, zero, suc, ◌+◌, ◌<◌, ◌^◌, ◌≡◌, refl, Bool, true, false, List, [], ◌∷◌, ◌++◌, some, Bytes,
  codes, length, arith, ap, ◌∙◌, Lacks, bytes_key, insert, All, to_string,
}
use miniaibrowse_cpp.Http.Buffer.{bytes_buffer}
use miniaibrowse_cpp.Http.Request.{
  HttpRequest, Method, invalid, set_version, set_receive_time, get_header, set_content_length,
  set_body,
}
use miniaibrowse_cpp.Http.Request.Query.{insert_all}
use miniaibrowse_cpp.Http.Context.Target.{before, parameters_of, set_target_lem}
use miniaibrowse_cpp.Http.Context.Lines.{
  IsKnown, version_text, request_line, print_line, length-print_line, request_line_round-print,
  IsHeader, header_text, print_headers, headers_round-print, headers_round-end, headers_round-body,
  body_round-print,
}
use miniaibrowse_cpp.Http.Context.{
  HttpContext, expect_request_line, expect_headers, expect_body, got_all, Round, again, done,
  aborted, request_line_round, expects_body, round, next, parse_loop, parse_request,
}

-- `q` is what the loop gives on `s`, with any fuel above its length.
abbrev pub Parses : ℕ → HttpContext → Bytes → Round Bytes → Type 0
Parses t c s q = (fuel : ℕ) → length s < fuel → parse_loop bytes_buffer fuel t c s ≡ some q

Parses-again :
    (t : ℕ) (c c' : HttpContext) (s s' : Bytes) (q : Round Bytes)
    → round bytes_buffer t c.state c s ≡ again c' s'
    → length s' < length s
    → Parses t c' s' q
    → Parses t c s q
unfolding parse_loop
Parses-again t c c' s s' q e l p zero h = elim h [ ]
Parses-again t c c' s s' q e l p (suc fuel) h =
    ap (next bytes_buffer (parse_loop bytes_buffer fuel t)) e ∙ p fuel (omega arith)

pub Parses-done :
    (t : ℕ) (c c' : HttpContext) (s s' : Bytes) (ok : Bool)
    → round bytes_buffer t c.state c s ≡ done ok c' s'
    → Parses t c s (done ok c' s')
unfolding parse_loop
Parses-done t c c' s s' ok e zero h = elim h [ ]
Parses-done t c c' s s' ok e (suc fuel) h =
    ap (next bytes_buffer (parse_loop bytes_buffer fuel t)) e

pub Parses-aborted :
    (t : ℕ) (c : HttpContext) (s : Bytes)
    → round bytes_buffer t c.state c s ≡ aborted
    → Parses t c s aborted
unfolding parse_loop
Parses-aborted t c s e zero h = elim h [ ]
Parses-aborted t c s e (suc fuel) h = ap (next bytes_buffer (parse_loop bytes_buffer fuel t)) e

-- All header lines of a message.
Parses-print_headers :
    (t : ℕ) (r : HttpRequest) (hs : List (Bytes × Bytes)) (rest : Bytes) (q : Round Bytes)
    → All IsHeader hs
    → Parses t
        (record {
          state = expect_headers;
          request = record r { headers = insert_all r.headers hs };
        })
        rest
        q
    → Parses t (record { state = expect_headers; request = r }) (print_headers hs rest) q
unfolding round
Parses-print_headers t r [] rest q h p = p
Parses-print_headers t r ((k, v) ∷ hs) rest q (h, hs_ok) p =
    Parses-again t (record { state = expect_headers; request = r })
      (record { state = expect_headers; request = record r { headers = insert k v r.headers } })
      (print_headers ((k, v) ∷ hs) rest) (print_headers hs rest) q
      (headers_round-print (record { state = expect_headers; request = r }) k v
        (print_headers hs rest) h)
      (length-print_line (header_text (k, v)) (print_headers hs rest))
      (Parses-print_headers t (record r { headers = insert k v r.headers }) hs rest q hs_ok p)

abbrev pub print_message : Method → Bytes → Bool → List (Bytes × Bytes) → Bytes → Bytes
print_message m target v hs rest =
    print_line (request_line m target v) (print_headers hs (13 ∷ 10 ∷ rest))

abbrev pub IsTarget : Bytes → Type 0
IsTarget target = Lacks b' ' target × Lacks 13 target

-- The request with the method, target, version, time and headers of a message stored: the path is what stands
-- before the first '?', the parameters are those behind it.
abbrev pub headed_request :
    ℕ → HttpRequest → Method → Bytes → Bool → List (Bytes × Bytes) → HttpRequest
headed_request t r m target v hs = record r {
  method = m;
  path = before b'?' target;
  query_parameters = parameters_of r.query_parameters target;
  version = version_text v;
  receive_time = t;
  headers = insert_all r.headers hs;
}

-- A request line stores all of it but the headers.
request_line_round-headed :
    (t : ℕ) (r : HttpRequest) (m : Method) (target rest : Bytes) (v : Bool)
    → IsKnown m
    → r.method ≡ invalid
    → IsTarget target
    → request_line_round bytes_buffer t
        (record { state = expect_request_line; request = r })
        (print_line (request_line m target v) rest)
      ≡ again (record { state = expect_headers; request = headed_request t r m target v [] }) rest
unfolding set_receive_time set_version
request_line_round-headed t r m target rest v known fresh plain =
    request_line_round-print t (record { state = expect_request_line; request = r }) m target rest v
      known fresh plain.0 plain.1
    ∙ ap
        (λ r'.
          again
            (record {
              state = expect_headers;
              request = set_receive_time (set_version r' (version_text v)) t;
            })
            rest)
        (set_target_lem (record r { method = m }) target)

module _ (t : ℕ) (r : HttpRequest) (m : Method) (target : Bytes) (v : Bool)
    (hs : List (Bytes × Bytes)) (known : IsKnown m) (fresh : r.method ≡ invalid)
    (plain : IsTarget target) (sendable : All IsHeader hs) where
  abbrev start : HttpContext
  start = record { state = expect_request_line; request = r }

  abbrev headed : HttpContext
  headed = record { state = expect_headers; request = headed_request t r m target v hs }

  -- The head of a message, up to its empty line.
  Parses-head :
      (rest : Bytes) (q : Round Bytes)
      → Parses t headed (13 ∷ 10 ∷ rest) q
      → Parses t start (print_message m target v hs rest) q
  unfolding round
  Parses-head rest q p =
      let started : HttpRequest = headed_request t r m target v [] in
      Parses-again t start (record { state = expect_headers; request = started })
        (print_message m target v hs rest) (print_headers hs (13 ∷ 10 ∷ rest)) q
        (request_line_round-headed t r m target (print_headers hs (13 ∷ 10 ∷ rest)) v known fresh
          plain)
        (length-print_line (request_line m target v) (print_headers hs (13 ∷ 10 ∷ rest)))
        (Parses-print_headers t started hs (13 ∷ 10 ∷ rest) q sendable p)

  -- A message without a body, as a client prints it, is read back: the request is complete, it has
  -- the method, version and headers of the message, the path before the first '?' of its target and the
  -- parameters that the parts behind it give, and what follows stays in the buffer.
  -- The method is known and has no body, the target holds no space and no CR, keys and values can
  -- stand in a header line, and no method was set before.
  pub parse_request-print_message :
      (rest : Bytes)
      → expects_body m ≡ false
      → parse_request bytes_buffer t start (print_message m target v hs rest)
        ≡ some (done true (record headed { state = got_all }) rest)
  unfolding parse_request round
  parse_request-print_message rest e =
      Parses-head rest (done true (record headed { state = got_all }) rest)
        (Parses-done t headed (record headed { state = got_all }) (13 ∷ 10 ∷ rest) rest true
          (headers_round-end headed rest e))
        (length (print_message m target v hs rest) + 2) (omega arith)

  -- A message with a body, as a client prints it, is read back with exactly its body: the bytes that
  -- its Content-Length counts, and what follows stays in the buffer. The method is POST or PUT, the
  -- header says the body's length, which is positive and fits an int, and the rest is as for a
  -- message without a body.
  pub parse_request-print_body :
      (body rest : Bytes)
      → expects_body m ≡ true
      → get_header headed.request (codes "Content-Length") ≡ to_string (length body)
      → 0 < length body
      → length body < 2 ^ 31
      → parse_request bytes_buffer t start (print_message m target v hs (body ++ rest))
        ≡ some (
            done true
              (record {
                state = got_all;
                request = set_body (set_content_length headed.request (length body)) body;
              })
              rest)
  unfolding parse_request round set_content_length
  parse_request-print_body body rest e l p b =
      let waiting : HttpContext = record {
        state = expect_body;
        request = set_content_length headed.request (length body);
      } in
      let complete : HttpContext = record {
        state = got_all;
        request = set_body (set_content_length headed.request (length body)) body;
      } in
      Parses-head (body ++ rest) (done true complete rest)
        (Parses-again t headed waiting (13 ∷ 10 ∷ (body ++ rest)) (body ++ rest)
          (done true complete rest) (headers_round-body headed (body ++ rest) (length body) e l p b)
          (omega arith)
          (Parses-done t waiting complete (body ++ rest) rest true
            (body_round-print waiting body rest refl)))
        (length (print_message m target v hs (body ++ rest)) + 2) (omega arith)
