-- ===== src/Http/Context/Reset.antt =====
-- `HttpContext::reset` between the requests of one connection, and what it leaves behind.
use miniaibrowse_cpp.Common.{ℕ, ◌≡◌, refl, Bool, false, true, List, Bytes, some, All}
use miniaibrowse_cpp.Http.Buffer.{bytes_buffer}
use miniaibrowse_cpp.Http.Request.{
  HttpRequest, empty_request, Method, set_version, set_receive_time,
}
use miniaibrowse_cpp.Http.Context.{
  HttpContext, expect_request_line, got_all, done, reset, parse_request, expects_body,
}
use miniaibrowse_cpp.Http.Context.Lines.{IsKnown, IsHeader}
use miniaibrowse_cpp.Http.Context.Messages.{
  IsTarget, print_message, headed_request, parse_request-print_message,
}

-- After `reset` the parser waits for a request line with an empty request, but for the body and the
-- content length: those of the last request stay.
pub reset_lem :
    (c : HttpContext)
    → reset c ≡ record {
      state = expect_request_line;
      request = record empty_request {
        content = c.request.content;
        content_length = c.request.content_length;
      };
    }
unfolding reset
reset_lem c = refl

-- So on a connection that is kept alive, a message without a body that follows an earlier request is
-- delivered with the earlier request's body, for every method that has no body.
pub stale_body :
    (t : ℕ) (c : HttpContext) (m : Method) (target : Bytes) (v : Bool) (hs : List (Bytes × Bytes))
    (rest : Bytes)
    → IsKnown m
    → IsTarget target
    → All IsHeader hs
    → expects_body m ≡ false
    → (c' : HttpContext) × (parse_request bytes_buffer t
          (reset c)
          (print_message m target v hs rest)
        ≡ some (done true c' rest))
      × (c'.state ≡ got_all)
      × (c'.request.content ≡ c.request.content)
unfolding reset set_version set_receive_time
stale_body t c m target v hs rest known plain sendable e =
    let r : HttpRequest = (reset c).request in
    (
      record { state = got_all; request = headed_request t r m target v hs },
      parse_request-print_message t r m target v hs known refl plain sendable rest e,
      refl,
      refl,
    )
