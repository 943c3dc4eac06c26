-- ===== src/Examples/Http.antt =====
-- The theorems on requests, the parser and responses at concrete inputs.
use miniaibrowse_cpp.Common.{
  to_string, digits_from, ◌≡◌, refl, true, false, List, [], ◌∷◌, ◌++◌, some, Bytes, codes, length,
  All, find, bytes_eq, bytes_key, ℕ_key, lookup, insert, lookup_or, to_string, digits_from, arith,
}
use miniaibrowse_cpp.Http.Request.{
  set_receive_time, query_loop, set_path, empty_request, get, post, set_query_parameters,
  get_header, set_version, set_content_length, set_body,
}
use miniaibrowse_cpp.Http.Request.Query.{print_query, insert_all, set_query_parameters-print_query}
use miniaibrowse_cpp.Http.Buffer.{crlf_at, bytes_buffer}
use miniaibrowse_cpp.Http.Context.{
  parse_loop, round, request_line_round, HttpContext, expect_request_line, got_all, new_context,
  Round, done, parse_request, set_target, reset, expects_body,
}
use miniaibrowse_cpp.Http.Context.Total.{parse_request_total}
use miniaibrowse_cpp.Http.Context.Resume.{parse_request_resume, parse_request_pipelined}
use miniaibrowse_cpp.Http.Context.Lines.{IsKnown, IsHeader, print_line, print_headers}
use miniaibrowse_cpp.Http.Context.Messages.{
  IsTarget, print_message, headed_request, parse_request-print_message, parse_request-print_body,
}
use miniaibrowse_cpp.Http.Context.{set_target}
use miniaibrowse_cpp.Http.Context.Target.{before, behind, set_target_lem}
use miniaibrowse_cpp.Http.Request.Query.{split, cons_head}
use miniaibrowse_cpp.Http.Context.Reset.{stale_body}
use miniaibrowse_cpp.Http.Response.{HttpResponse, new_response, append_to_buffer, crlf}
use miniaibrowse_cpp.Http.Response.Layout.{append_to_buffer-print}

set_query_parameters-print_query_example :
    set_query_parameters empty_request
      (print_query ((codes "a", codes "1=1") ∷ (codes "b", []) ∷ []))
    ≡ record empty_request {
      query_parameters = insert_all [] ((codes "a", codes "1=1") ∷ (codes "b", []) ∷ []);
    }
set_query_parameters-print_query_example =
    set_query_parameters-print_query empty_request ((codes "a", codes "1=1") ∷ (codes "b", []) ∷ [])
      (ground arith)

parse_request_total_example :
    (q : Round Bytes) × (parse_request bytes_buffer 0 new_context (codes "GET") ≡ some q)
parse_request_total_example =
    parse_request_total bytes_buffer 0 new_context (codes "GET") (ground arith)

get_no_body : expects_body get ≡ false
unfolding expects_body
get_no_body = refl

post_body : expects_body post ≡ true
unfolding expects_body
post_body = refl

get_IsKnown : IsKnown get
get_IsKnown = (ground arith, ground arith)

post_IsKnown : IsKnown post
post_IsKnown = (ground arith, ground arith)

chat_IsTarget : IsTarget (codes "/chat?a=1")
chat_IsTarget = (ground arith, ground arith)

abbrev one_header : List (Bytes × Bytes)
one_header = (codes "Host", codes "a") ∷ []

one_header-IsHeader : All IsHeader one_header
one_header-IsHeader = ground arith

parse_request-print_message_example :
    parse_request bytes_buffer 0
      (record { state = expect_request_line; request = empty_request })
      (print_message get (codes "/chat?a=1") true one_header (codes "rest"))
    ≡ some (
        done true
          (record {
            state = got_all;
            request = headed_request 0 empty_request get (codes "/chat?a=1") true one_header;
          })
          (codes "rest"))
parse_request-print_message_example =
    parse_request-print_message 0 empty_request get (codes "/chat?a=1") true one_header get_IsKnown
      refl chat_IsTarget one_header-IsHeader (codes "rest") get_no_body

abbrev length_header : List (Bytes × Bytes)
length_header = (codes "Content-Length", codes "2") ∷ []

length_header-IsHeader : All IsHeader length_header
length_header-IsHeader = ground arith

two_bytes :
    get_header
      (headed_request 0 empty_request post (codes "/chat?a=1") true length_header)
      (codes "Content-Length")
    ≡ to_string (length (codes "hi"))
unfolding get_header lookup_or lookup bytes_eq insert to_string digits_from set_receive_time
    set_version set_target find set_query_parameters query_loop set_path
two_bytes = refl

parse_request-print_body_example :
    parse_request bytes_buffer 0
      (record { state = expect_request_line; request = empty_request })
      (print_message post (codes "/chat?a=1") true length_header (codes "hi" ++ codes "rest"))
    ≡ some (
        done true
          (record {
            state = got_all;
            request =
                set_body
                  (set_content_length
                    (headed_request 0 empty_request post (codes "/chat?a=1") true length_header)
                    2)
                  (codes "hi");
          })
          (codes "rest"))
parse_request-print_body_example =
    parse_request-print_body 0 empty_request post (codes "/chat?a=1") true length_header
      post_IsKnown refl chat_IsTarget length_header-IsHeader (codes "hi") (codes "rest") post_body
      two_bytes (ground arith) (ground arith)

stale_body_example :
    (c' : HttpContext) × (parse_request bytes_buffer 0
        (reset
          (record { state = got_all; request = record empty_request { content = codes "old" } }))
        (print_message get (codes "/chat?a=1") true one_header (codes "rest"))
      ≡ some (done true c' (codes "rest")))
    × (c'.state ≡ got_all)
    × (c'.request.content ≡ codes "old")
stale_body_example =
    stale_body 0
      (record { state = got_all; request = record empty_request { content = codes "old" } }) get
      (codes "/chat?a=1") true one_header (codes "rest") get_IsKnown chat_IsTarget
      one_header-IsHeader get_no_body

-- A request line without its end.
abbrev half_line : Bytes
half_line = codes "GET / H"

half_line_waits :
    parse_request bytes_buffer 0 new_context half_line ≡ some (done true new_context half_line)
unfolding parse_request parse_loop round request_line_round crlf_at
half_line_waits = refl

parse_request_resume_example :
    parse_request bytes_buffer 0 new_context (half_line ++ codes "TTP/1.1")
    ≡ parse_request bytes_buffer 0 new_context (half_line ++ codes "TTP/1.1")
parse_request_resume_example =
    parse_request_resume 0 new_context new_context half_line half_line (codes "TTP/1.1")
      (ground arith) half_line_waits (ground arith)

abbrev got_get : HttpContext
got_get = record {
  state = got_all;
  request = headed_request 0 empty_request get (codes "/chat?a=1") true one_header;
}

parse_request_pipelined_example :
    parse_request bytes_buffer 0 new_context
      (print_message get (codes "/chat?a=1") true one_header (codes "rest") ++ codes "next")
    ≡ some (done true got_get (codes "rest" ++ codes "next"))
parse_request_pipelined_example =
    parse_request_pipelined 0 new_context got_get
      (print_message get (codes "/chat?a=1") true one_header (codes "rest")) (codes "rest")
      (codes "next") (ground arith) parse_request-print_message_example refl

set_target_lem_example :
    set_target empty_request (codes "/chat?a=1&b&c=2=3") ≡ record empty_request {
      path = codes "/chat";
      query_parameters = insert (codes "c") (codes "2=3") (insert (codes "a") (codes "1") []);
    }
unfolding before behind split cons_head
set_target_lem_example = set_target_lem empty_request (codes "/chat?a=1&b&c=2=3")

abbrev not_found_answer : HttpResponse
not_found_answer = record (new_response true) {
  http_version = codes "HTTP/1.1";
  status_code = 404;
  status_message = codes "Not Found";
}

append_to_buffer-print_example :
    append_to_buffer not_found_answer
    ≡ print_line
        (codes "HTTP/1.1 404 Not Found")
        (print_headers ((codes "Connection", codes "close") ∷ []) (crlf ++ []))
unfolding to_string digits_from
append_to_buffer-print_example = append_to_buffer-print not_found_answer (ground arith)
