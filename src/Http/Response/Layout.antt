-- ===== src/Http/Response/Layout.antt =====
-- The bytes of a response against the printer of a message's lines.
use miniaibrowse_cpp.Common.{
  ℕ, zero, suc, length, length-append, ◌+◌, ◌≤◌, ◌∙◌, ◌≡◌, refl, ap, [], ◌∷◌, ◌++◌, append_assoc,
  Bytes, codes, take, bytes_key, ℕ_key, Dict, to_string, if◌then◌else◌, arith,
}
use miniaibrowse_cpp.Http.Context.Lines.{print_line, print_headers}
use miniaibrowse_cpp.Http.Response.{
  HttpResponse, crlf, status_prefix, append_headers, append_rest, append_to_buffer,
}

abbrev pub connection_header : HttpResponse → Bytes × Bytes
connection_header r =
    (codes "Connection", if r.close_connection then codes "close" else codes "Keep-Alive")

append_headers-print :
    (hs : Dict Bytes Bytes) (rest : Bytes) → append_headers hs ++ rest ≡ print_headers hs rest
unfolding append_headers
append_headers-print [] rest = refl
append_headers-print ((k, v) ∷ hs) rest =
    simp append_assoc
      (ap (λ x. k ++ b':' ∷ b' ' ∷ (v ++ 13 ∷ 10 ∷ x)) (append_headers-print hs rest))

take_whole : (n : ℕ) (s : Bytes) → length s ≤ n → take n s ≡ s
take_whole zero [] h = refl
take_whole zero (x ∷ s) h = absurd (ground arith)
take_whole (suc n) [] h = refl
take_whole (suc n) (x ∷ s) h = ap (λ t. x ∷ t) (take_whole n s (omega arith))

abbrev pub status_line : HttpResponse → Bytes
status_line r = r.http_version ++ b' ' ∷ (to_string r.status_code ++ b' ' ∷ r.status_message)

status_prefix-append :
    (r : HttpResponse)
    → length r.http_version + length (to_string r.status_code) ≤ 29
    → status_prefix r ++ r.status_message ≡ status_line r
unfolding status_prefix
status_prefix-append r h =
    ap (λ s. s ++ r.status_message)
      (take_whole 31 (r.http_version ++ b' ' ∷ (to_string r.status_code ++ b' ' ∷ [])) (
        ground (
          arith,
          length-append r.http_version (b' ' ∷ (to_string r.status_code ++ b' ' ∷ [])),
          length-append (to_string r.status_code) (b' ' ∷ []),
        )))
    ∙ append_assoc r.http_version (b' ' ∷ (to_string r.status_code ++ b' ' ∷ [])) r.status_message
    ∙ ap (λ s. r.http_version ++ b' ' ∷ s)
        (append_assoc (to_string r.status_code) (b' ' ∷ []) r.status_message)

-- `appendToBuffer` writes the lines of a message as a client reads them: the version, the code in decimal and
-- its text, with a space between, then the Connection header and each header of the response on a line of its
-- own, an empty line and the body, and nothing else, when version and code have at most 29 characters.
pub append_to_buffer-print :
    (r : HttpResponse)
    → length r.http_version + length (to_string r.status_code) ≤ 29
    → append_to_buffer r
      ≡ print_line
          (status_line r)
          (print_headers (connection_header r ∷ r.headers) (crlf ++ r.body))
unfolding append_to_buffer
append_to_buffer-print r h =
    ground (
      arith,
      append_assoc (status_prefix r) r.status_message
          (crlf ++ print_headers (connection_header r ∷ r.headers) (crlf ++ r.body)),
      append_headers-print r.headers (crlf ++ r.body),
    )
    ∙ ap (λ s. print_line s (print_headers (connection_header r ∷ r.headers) (crlf ++ r.body)))
        (status_prefix-append r h)

-- With no version set the status line begins with a space: it names no HTTP version.
pub append_to_buffer_versionless :
    (r : HttpResponse) → r.http_version ≡ [] → (rest : Bytes) × (append_to_buffer r ≡ b' ' ∷ rest)
unfolding append_to_buffer status_prefix
append_to_buffer_versionless r e = (
  take 30 (to_string r.status_code ++ b' ' ∷ []) ++ append_rest r,
  ap (λ v. take 31 (v ++ b' ' ∷ (to_string r.status_code ++ b' ' ∷ [])) ++ append_rest r) e,
)
