-- ===== src/Server/Delivery.antt =====
-- From the bytes of a connection to an answer: `onMessage` over the parser.
use miniaibrowse_cpp.Common.{
  ℕ, ◌+◌, ◌<◌, ◌≡◌, ◌≢◌, inl, inr, refl, Bool, false, List, ◌∷◌, ◌++◌, append_assoc,
  take-length-append, Option, none, some, Bytes, length, take, All, find, Lacks, bytes_key, ℕ_key,
  ltb, Bool-cases, arith,
}
use miniaibrowse_cpp.Http.Request.{HttpRequest, Method, invalid, set_method}
use miniaibrowse_cpp.Http.Response.{HttpResponse, Effect}
use miniaibrowse_cpp.Http.Buffer.{bytes_buffer}
use miniaibrowse_cpp.Http.Context.{
  HttpContext, expect_request_line, got_all, done, aborted, is_got_all, parse_request, round,
  request_line_round, process_request_line, reset, expects_body,
}
use miniaibrowse_cpp.Http.Context.Lines.{IsKnown, IsHeader, print_line, crlf_at_line}
use miniaibrowse_cpp.Http.Context.Messages.{
  IsTarget, print_message, headed_request, parse_request-print_message, Parses-done, Parses-aborted,
}
use miniaibrowse_cpp.Middleware.{MiddlewareChain}
use miniaibrowse_cpp.Router.{Router, Target}
use miniaibrowse_cpp.Server.{
  Outcome, State, Delivered, delivered, died, on_request, serve, on_message, bad_request,
}

-- A line that cannot be read as a request line stops the parser where it stands: the line is not
-- taken from the buffer, and the context keeps what was read of it.
parse_request-rejected :
    (t : ℕ) (r r' : HttpRequest) (line rest : Bytes)
    → Lacks 13 line
    → process_request_line r line ≡ some (r', false)
    → parse_request bytes_buffer t
        (record { state = expect_request_line; request = r })
        (print_line line rest)
      ≡ some
          (done false (record { state = expect_request_line; request = r' }) (print_line line rest))
unfolding parse_request round request_line_round
parse_request-rejected t r r' line rest h e =
    let c : HttpContext = record { state = expect_request_line; request = r } in
    let c' : HttpContext = record { state = expect_request_line; request = r' } in
    Parses-done t c c' (print_line line rest) (print_line line rest) false
      (rw
        (crlf_at_line line rest h, request_line_round, take-length-append line (13 ∷ 10 ∷ rest), e))
      (length (print_line line rest) + 2) (omega arith)

set_method-asserts : (r : HttpRequest) (m : Bytes) → r.method ≢ invalid → set_method r m ≡ none
unfolding set_method
set_method-asserts r m n = ground arith

process_request_line-asserts :
    (r : HttpRequest) (line : Bytes)
    → r.method ≢ invalid
    → find b' ' line < length line
    → process_request_line r line ≡ none
unfolding process_request_line
process_request_line-asserts r line n s =
    ground (arith, set_method-asserts r (take (find b' ' line) line) n)

-- With no space in the line no method is read.
process_request_line_space :
    (r r' : HttpRequest) (line : Bytes) (ok : Bool)
    → r.method ≡ invalid
    → process_request_line r line ≡ some (r', ok)
    → r'.method ≢ invalid
    → find b' ' line < length line
unfolding process_request_line
process_request_line_space r r' line ok i e n =
    elim (Bool-cases (ltb (find b' ' line) (length line))) [
      | inl s ↦ ground arith
      | inr s ↦ ground arith
    ]

-- With assertions, a request line whose method is known to the context already fails that of `setMethod`.
parse_request-asserts :
    (t : ℕ) (r : HttpRequest) (line rest : Bytes)
    → Lacks 13 line
    → r.method ≢ invalid
    → find b' ' line < length line
    → parse_request bytes_buffer t
        (record { state = expect_request_line; request = r })
        (print_line line rest)
      ≡ some aborted
unfolding parse_request round request_line_round
parse_request-asserts t r line rest h n s =
    let c : HttpContext = record { state = expect_request_line; request = r } in
    Parses-aborted t c (print_line line rest)
      (rw (
        crlf_at_line line rest h,
        request_line_round,
        take-length-append line (13 ∷ 10 ∷ rest),
        process_request_line-asserts r line n s,
      ))
      (length (print_line line rest) + 2) (omega arith)

module _ {S H C : Type 0} (regex_match : Bytes → Bytes → Option (List Bytes))
    (handle : Target H C → HttpRequest → HttpResponse → S → HttpResponse × S × Outcome)
    (chain : MiddlewareChain) (router : Router H C) where
  abbrev on_bytes : ℕ → ℕ → ℕ → HttpContext → Bytes → State S → Option (Delivered S Bytes)
  on_bytes = on_message regex_match handle chain router bytes_buffer

  -- A message without a body that arrives whole is handed to `onRequest` once, with the method, version and
  -- headers that it names, the path before the first '?' of its target and the parameters that the parts behind it
  -- give; what is sent is what `onRequest` sends; the bytes that
  -- follow the message stay in the buffer, and the context waits for the next request line. The method is
  -- known and has no body, the target holds no space and no CR, keys and values can stand in a header line, and no
  -- method was set before.
  pub on_message-print_message :
      (t now conn : ℕ) (r : HttpRequest) (m : Method) (target : Bytes) (v : Bool)
      (hs : List (Bytes × Bytes)) (rest : Bytes) (st st' : State S) (effects : List Effect)
      → IsKnown m
      → r.method ≡ invalid
      → IsTarget target
      → All IsHeader hs
      → expects_body m ≡ false
      → on_request regex_match handle chain router now conn (headed_request t r m target v hs) st
        ≡ some (st', effects)
      → (c' : HttpContext) × (on_bytes t now conn
            (record { state = expect_request_line; request = r })
            (print_message m target v hs rest)
            st
          ≡ some (delivered c' rest st' effects))
        × (c'.state ≡ expect_request_line)
        × (c'.request.method ≡ invalid)
  unfolding on_message serve reset is_got_all
  on_message-print_message t now conn r m target v hs rest st st' effects known fresh plain sendable
        bodyless answer =
      let c : HttpContext = record {
        state = got_all;
        request = headed_request t r m target v hs;
      } in
      let parsed =
        parse_request-print_message t r m target v hs known fresh plain sendable rest bodyless in
      (reset c, rw (parsed, on_message) (rw (answer, serve) refl), refl, refl)

  -- In a build with assertions (no Release build, which defines NDEBUG) one bad request line ends the process. If
  -- a request line is refused after its method was
  -- recognised, the client gets 400; the line stays in the buffer and the method in the context, and
  -- whatever bytes come next on that connection, the assertion of `setMethod` fails on them.
  pub on_message_dies :
      (t now conn t' now' : ℕ) (r r' : HttpRequest) (line rest more : Bytes) (st st' : State S)
      → Lacks 13 line
      → r.method ≡ invalid
      → process_request_line r line ≡ some (r', false)
      → r'.method ≢ invalid
      → let c' : HttpContext = record { state = expect_request_line; request = r' } in
        (on_bytes t now conn
            (record { state = expect_request_line; request = r })
            (print_line line rest)
            st
          ≡ some (delivered c' (print_line line rest) st bad_request))
        × (on_bytes t' now' conn c' (print_line line rest ++ more) st' ≡ some died)
  unfolding on_message serve is_got_all
  on_message_dies t now conn t' now' r r' line rest more st st' h fresh e n = (
    rw (parse_request-rejected t r r' line rest h e, on_message) refl,
    rw (append_assoc line (13 ∷ 10 ∷ rest) more) (
        rw
          (
            parse_request-asserts t' r' line (rest ++ more) h n
                (process_request_line_space r r' line false fresh e n),
            on_message,
          )
          refl),
  )
