-- ===== src/Http/Response.antt =====
-- HttpServer/include/http/HttpResponse.h and HttpServer/src/http/HttpResponse.cpp. A connection is known
-- by a number; what is sent on it is a list of effects.
pub mod Layout
use miniaibrowse_cpp.Common.{
  ℕ, Bool, true, false, List, [], ◌∷◌, ◌++◌, Option, none, some, Bytes, codes, take, bytes_key,
  ℕ_key, Dict, insert, to_string, if◌then◌else◌,
}

-- What the code does to a connection of the network library.
pub data Effect : Type 0 where
  send : Bytes → Effect
  shutdown : Effect

pub record HttpResponse : Type 0 where
  pub http_version : Bytes
  pub status_code : ℕ
  pub status_message : Bytes
  pub close_connection : Bool
  pub headers : Dict Bytes Bytes
  pub body : Bytes
  pub connection : Option ℕ
  pub streamed : Bool

-- `HttpResponse(bool close = true)`; `kUnknown` is 0.
abbrev pub new_response : Bool → HttpResponse
new_response close = record {
  http_version = [];
  status_code = 0;
  status_message = [];
  close_connection = close;
  headers = [];
  body = [];
  connection = none;
  streamed = false;
}

unfoldable pub set_version : HttpResponse → Bytes → HttpResponse
set_version r v = record r { http_version = v }

unfoldable pub set_status_code : HttpResponse → ℕ → HttpResponse
set_status_code r code = record r { status_code = code }

unfoldable pub set_status_message : HttpResponse → Bytes → HttpResponse
set_status_message r m = record r { status_message = m }

unfoldable pub set_close_connection : HttpResponse → Bool → HttpResponse
set_close_connection r on = record r { close_connection = on }

unfoldable pub add_header : HttpResponse → Bytes → Bytes → HttpResponse
add_header r key value = record r { headers = insert key value r.headers }

unfoldable pub set_content_type : HttpResponse → Bytes → HttpResponse
unfolding add_header
set_content_type r content_type = add_header r (codes "Content-Type") content_type

unfoldable pub set_content_length : HttpResponse → ℕ → HttpResponse
unfolding add_header
set_content_length r n = add_header r (codes "Content-Length") (to_string n)

unfoldable pub set_body : HttpResponse → Bytes → HttpResponse
set_body r body = record r { body = body }

unfoldable pub set_status_line : HttpResponse → Bytes → ℕ → Bytes → HttpResponse
set_status_line r version code message = record r {
  http_version = version;
  status_code = code;
  status_message = message;
}

unfoldable pub set_connection : HttpResponse → ℕ → HttpResponse
set_connection r conn = record r { connection = some conn }

unfoldable pub mark_streamed : HttpResponse → HttpResponse
mark_streamed r = record r { streamed = true }

-- Nothing is sent before a connection was set.
unfoldable pub send_chunk : HttpResponse → Bytes → List Effect
send_chunk r bytes = elim r.connection [ none ↦ [] | some conn ↦ send bytes ∷ [] ]

abbrev pub crlf : Bytes
crlf = 13 ∷ 10 ∷ []

-- `snprintf` into 32 bytes keeps 31 of them.
unfoldable pub status_prefix : HttpResponse → Bytes
status_prefix r = take 31 (r.http_version ++ b' ' ∷ (to_string r.status_code ++ b' ' ∷ []))

unfoldable pub append_headers : Dict Bytes Bytes → Bytes
append_headers [] = []
append_headers ((key, value) ∷ hs) = key ++ (codes ": " ++ (value ++ (crlf ++ append_headers hs)))

-- What follows the status prefix.
unfoldable pub append_rest : HttpResponse → Bytes
append_rest r =
    r.status_message
    ++ (crlf
        ++ ((if r.close_connection
              then codes "Connection: close" ++ crlf
              else codes "Connection: Keep-Alive" ++ crlf)
            ++ (append_headers r.headers ++ (crlf ++ r.body))))

-- The bytes that `appendToBuffer` appends.
unfoldable pub append_to_buffer : HttpResponse → Bytes
unfolding status_prefix append_rest
append_to_buffer r = status_prefix r ++ append_rest r
