-- ===== src/Http/Context.antt =====
-- HttpServer/include/http/HttpContext.h and HttpServer/src/http/HttpContext.cpp: the parser of a
-- connection's bytes, as rounds of a `while` over the buffer.
pub mod Target
pub mod Total
pub mod Resume
pub mod Lines
pub mod Messages
pub mod Reset
use miniaibrowse_cpp.Common.{
  ℕ, zero, suc, ◌+◌, Bool, true, false, ◌&&◌, ◌||◌, [], Option, none, some, Bytes, codes, length,
  take, drop, find, bytes_eq, is_empty, stoi, to_uint64, ◌==◌, ltb, if◌then◌else◌,
}
use miniaibrowse_cpp.Http.Request.{
  HttpRequest, empty_request, Method, method_eq, set_method, set_path, set_query_parameters,
  set_version, set_receive_time, add_header, get_header, set_body, set_content_length, swap,
}
use miniaibrowse_cpp.Http.Buffer.{Buffer}

pub data ParseState : Type 0 where
  expect_request_line expect_headers expect_body got_all : ParseState

pub record HttpContext : Type 0 where
  pub state : ParseState
  pub request : HttpRequest

abbrev pub new_context : HttpContext
new_context = record { state = expect_request_line; request = empty_request }

unfoldable pub is_got_all : ParseState → Bool
is_got_all got_all = true
is_got_all _ = false

unfoldable pub reset : HttpContext → HttpContext
unfolding swap
reset c = record { state = expect_request_line; request = (swap c.request empty_request).0 }

-- The part between the two spaces: a path, and what follows '?'.
unfoldable pub set_target : HttpRequest → Bytes → HttpRequest
set_target r target =
    let argument_start = find b'?' target in
    if ltb argument_start (length target)
    then set_query_parameters (set_path r (take argument_start target))
        (drop (suc argument_start) target)
    else set_path r target

-- The part behind the second space.
unfoldable pub set_protocol : HttpRequest → Bytes → HttpRequest × Bool
set_protocol r s =
    if length s == 8 && bytes_eq (take 7 s) (codes "HTTP/1.")
    then (if bytes_eq (drop 7 s) (codes "1")
        then (set_version r (codes "HTTP/1.1"), true)
        else if bytes_eq (drop 7 s) (codes "0")
        then (set_version r (codes "HTTP/1.0"), true)
        else (r, false))
    else (r, false)

-- Behind the method and the first space.
unfoldable pub process_target : HttpRequest → Bytes → HttpRequest × Bool
process_target r rest =
    let space = find b' ' rest in
    if ltb space (length rest)
    then set_protocol (set_target r (take space rest)) (drop (suc space) rest)
    else (r, false)

-- `none` is the failed assertion of `setMethod`, in a build with assertions.
unfoldable pub process_request_line : HttpRequest → Bytes → Option (HttpRequest × Bool)
process_request_line r line =
    let space = find b' ' line in
    if ltb space (length line)
    then elim (set_method r (take space line)) [
      | none ↦ none
      | some (r', succeed) ↦
          if succeed then some (process_target r' (drop (suc space) line)) else some (r', false)
    ]
    else some (r, false)

-- How a round of the loop ends: `again` keeps `hasMore`, `done ok` clears it, `raised` is an
-- exception that leaves the function, `aborted` a failed assertion.
pub data Round (B : Type 0) : Type 0 where
  again : HttpContext → B → Round B
  done : Bool → HttpContext → B → Round B
  raised : Bytes → HttpContext → B → Round B
  aborted : Round B

unfoldable pub expects_body : Method → Bool
expects_body m = method_eq m Method.post || method_eq m Method.put

-- The empty line behind the headers.
unfoldable pub end_headers : HttpContext → Option (HttpContext × Bool)
unfolding expects_body
end_headers c =
    if expects_body c.request.method
    then (let content_length = get_header c.request (codes "Content-Length") in
        if is_empty content_length then some (c, false) else elim (stoi content_length) [
          | none ↦ none
          | some n ↦
              let r = set_content_length c.request (to_uint64 n) in
              if ltb 0 (to_uint64 n)
              then some (record { state = expect_body; request = r }, true)
              else some (record { state = got_all; request = r }, true)
        ])
    else some (record c { state = got_all }, true)

unfoldable pub is_expect_body : ParseState → Bool
is_expect_body expect_body = true
is_expect_body _ = false

module _ (B : Buffer) where
  open B use {Buf, readable, find_crlf, retrieve}

  unfoldable pub request_line_round : ℕ → HttpContext → Buf → Round Buf
  request_line_round receive_time c b = elim (find_crlf b) [
    | none ↦ done true c b
    | some crlf ↦ elim (process_request_line c.request (take crlf (readable b))) [
      | none ↦ aborted
      | some (r, ok) ↦
          if ok
          then again (record { state = expect_headers; request = set_receive_time r receive_time })
              (retrieve (crlf + 2) b)
          else done false (record c { request = r }) b
    ]
  ]

  -- One header line, without its CRLF.
  unfoldable pub header_line_round : HttpContext → Bytes → Buf → Buf → Round Buf
  unfolding end_headers is_expect_body
  header_line_round c line b b' =
      let colon = find b':' line in
      if ltb colon (length line)
      then again (record c { request = add_header c.request line colon }) b'
      else if is_empty line
      then elim (end_headers c) [
        | none ↦ raised (codes "stoi") c b
        | some (c', ok) ↦ if is_expect_body c'.state then again c' b' else done ok c' b'
      ]
      else done false c b'

  unfoldable pub headers_round : HttpContext → Buf → Round Buf
  unfolding header_line_round
  headers_round c b = elim (find_crlf b) [
    | none ↦ done true c b
    | some crlf ↦ header_line_round c (take crlf (readable b)) b (retrieve (crlf + 2) b)
  ]

  unfoldable pub body_round : HttpContext → Buf → Round Buf
  body_round c b =
      if ltb (length (readable b)) c.request.content_length
      then done true c b
      else done true
          (record {
            state = got_all;
            request = set_body c.request (take c.request.content_length (readable b));
          })
          (retrieve c.request.content_length b)

  -- In `kGotAll` no branch is taken, and `hasMore` stays.
  unfoldable pub round : ℕ → ParseState → HttpContext → Buf → Round Buf
  round t expect_request_line c b = request_line_round t c b
  round t expect_headers c b = headers_round c b
  round t expect_body c b = body_round c b
  round t got_all c b = again c b

  -- What the `while` does with a round.
  abbrev pub next : (HttpContext → Buf → Option (Round Buf)) → Round Buf → Option (Round Buf)
  next loop (again c b) = loop c b
  next loop (done ok c b) = some (done ok c b)
  next loop (raised e c b) = some (raised e c b)
  next loop aborted = some aborted

  -- The `while`; `none` is fuel run out.
  unfoldable pub parse_loop : ℕ → ℕ → HttpContext → Buf → Option (Round Buf)
  parse_loop zero t c b = none
  parse_loop (suc fuel) t c b = next (parse_loop fuel t) (round t c.state c b)

  -- Every round but one takes at least two bytes.
  unfoldable pub parse_request : ℕ → HttpContext → Buf → Option (Round Buf)
  parse_request t c b = parse_loop (length (readable b) + 2) t c b
