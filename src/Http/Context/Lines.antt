-- ===== src/Http/Context/Lines.antt =====
-- Printed lines through a round of `parseRequest`: the request line, header lines, the body.
use miniaibrowse_cpp.Common.{
  ℕ, suc, ◌+◌, ◌<◌, ◌^◌, ◌≡◌, ◌≢◌, refl, Bool, true, false, List, [], ◌∷◌, ◌++◌, some, Bytes, codes,
  length, drop, length-append, take-length-append, drop-length-append, drop-suc-length-append,
  append-nil, arith, ap, sym, ◌∙◌, Lacks, Lacks-append, find, find-append, bytes_eq, bytes_key,
  insert, is_space, to_string, stoi-to_string, to_string-is_empty, to_uint64-pos,
}
use miniaibrowse_cpp.Http.Buffer.{crlf_at, bytes_buffer}
use miniaibrowse_cpp.Http.Request.{
  HttpRequest, Method, get, post, put, delete, options, invalid, set_method, set_version,
  set_receive_time, add_header, get_header, set_content_length, set_body,
}
use miniaibrowse_cpp.Http.Request.Headers.{add_header_trims, StartsSolid, EndsSolid}
use miniaibrowse_cpp.Http.Context.{
  HttpContext, expect_headers, expect_body, got_all, again, done, process_request_line,
  process_target, set_protocol, set_target, expects_body, request_line_round, header_line_round,
  headers_round, body_round,
}

-- The methods that `setMethod` knows, by their texts.
abbrev pub method_text : Method → Bytes
method_text get = codes "GET"
method_text post = codes "POST"
method_text put = codes "PUT"
method_text delete = codes "DELETE"
method_text options = codes "OPTIONS"
method_text _ = []

abbrev pub IsKnown : Method → Type 0
IsKnown m = (m ≢ invalid) × (m ≢ Method.head)

abbrev pub version_text : Bool → Bytes
version_text true = codes "HTTP/1.1"
version_text false = codes "HTTP/1.0"

abbrev pub request_line : Method → Bytes → Bool → Bytes
request_line m target v = method_text m ++ b' ' ∷ (target ++ b' ' ∷ version_text v)

method_text-Lacks : (m : Method) → Lacks b' ' (method_text m) × Lacks 13 (method_text m)
method_text-Lacks get = omega arith
method_text-Lacks _ = omega arith

set_method_text :
    (r : HttpRequest) (m : Method)
    → IsKnown m
    → r.method ≡ invalid
    → set_method r (method_text m) ≡ some (record r { method = m }, true)
unfolding set_method bytes_eq
set_method_text r get k e = rw e
set_method_text r post k e = rw e
set_method_text r put k e = rw e
set_method_text r delete k e = rw e
set_method_text r options k e = rw e
set_method_text r invalid k e = absurd (k.0 refl)
set_method_text r Method.head k e = absurd (k.1 refl)

set_protocol_text :
    (r : HttpRequest) (v : Bool)
    → set_protocol r (version_text v) ≡ (set_version r (version_text v), true)
unfolding set_protocol bytes_eq
set_protocol_text r true = refl
set_protocol_text r false = refl

process_target-print :
    (r : HttpRequest) (target : Bytes) (v : Bool)
    → Lacks b' ' target
    → process_target r (target ++ b' ' ∷ version_text v)
      ≡ (set_version (set_target r target) (version_text v), true)
unfolding process_target
process_target-print r target v h = ground (
  arith,
  find-append b' ' target (version_text v) h,
  length-append target (b' ' ∷ version_text v),
  take-length-append target (b' ' ∷ version_text v),
  drop-suc-length-append target b' ' (version_text v),
  set_protocol_text (set_target r target) v,
)

-- A request line as a client prints it is accepted: the method, the target and the version that it
-- names are stored, for each known method and either version. The target holds no space, and no
-- method was set before.
pub process_request_line-print :
    (r : HttpRequest) (m : Method) (target : Bytes) (v : Bool)
    → IsKnown m
    → r.method ≡ invalid
    → Lacks b' ' target
    → process_request_line r (request_line m target v)
      ≡ some (set_version (set_target (record r { method = m }) target) (version_text v), true)
unfolding process_request_line
process_request_line-print r m target v k e h = ground (
  arith,
  find-append b' ' (method_text m) (target ++ b' ' ∷ version_text v) (method_text-Lacks m).0,
  length-append (method_text m) (b' ' ∷ (target ++ b' ' ∷ version_text v)),
  take-length-append (method_text m) (b' ' ∷ (target ++ b' ' ∷ version_text v)),
  drop-suc-length-append (method_text m) b' ' (target ++ b' ' ∷ version_text v),
  set_method_text r m k e,
  process_target-print (record r { method = m }) target v h,
)

pub crlf_at_line :
    (line rest : Bytes) → Lacks 13 line → crlf_at (line ++ 13 ∷ 10 ∷ rest) ≡ some (length line)
unfolding crlf_at
crlf_at_line [] rest h = refl
crlf_at_line (x ∷ []) rest h = ground arith
crlf_at_line (x ∷ y ∷ line) rest h = ground (arith, crlf_at_line (y ∷ line) rest h.1)

drop_line : (line rest : Bytes) → drop (length line + 2) (line ++ 13 ∷ 10 ∷ rest) ≡ rest
drop_line [] rest = refl
drop_line (x ∷ line) rest =
    let e : suc (length line) + 2 ≡ suc (length line + 2) = omega arith in
    ap (λ n. drop n (x ∷ (line ++ 13 ∷ 10 ∷ rest))) e ∙ drop_line line rest

abbrev pub print_line : Bytes → Bytes → Bytes
print_line line rest = line ++ 13 ∷ 10 ∷ rest

pub length-print_line : (line rest : Bytes) → length rest < length (print_line line rest)
length-print_line line rest = omega (arith, length-append line (13 ∷ 10 ∷ rest))

pub request_line_round-print :
    (t : ℕ) (c : HttpContext) (m : Method) (target rest : Bytes) (v : Bool)
    → IsKnown m
    → c.request.method ≡ invalid
    → Lacks b' ' target
    → Lacks 13 target
    → request_line_round bytes_buffer t c (print_line (request_line m target v) rest)
      ≡ again
          (record {
            state = expect_headers;
            request =
                set_receive_time
                  (set_version
                    (set_target (record c.request { method = m }) target)
                    (version_text v))
                  t;
          })
          rest
unfolding request_line_round
request_line_round-print t c m target rest v k e h l =
    let line : Bytes = request_line m target v in
    rw
      (
        crlf_at_line line rest (line_Lacks m v),
        request_line_round,
        take-length-append line (13 ∷ 10 ∷ rest),
        process_request_line-print c.request m target v k e h,
      )
      (ap (again _) (drop_line line rest))
  where
    version_Lacks : (v : Bool) → Lacks 13 (b' ' ∷ version_text v)
    version_Lacks true = omega arith
    version_Lacks false = omega arith

    line_Lacks : (m : Method) (v : Bool) → Lacks 13 (request_line m target v)
    line_Lacks m v =
        Lacks-append 13 (method_text m) (b' ' ∷ (target ++ b' ' ∷ version_text v))
          (method_text-Lacks m).1
          (omega arith, Lacks-append 13 target (b' ' ∷ version_text v) l (version_Lacks v))

-- A header that can be sent: no ':' in the key, no CR, no white space around the value.
abbrev pub IsHeader : Bytes × Bytes → Type 0
IsHeader (k, v) =
    Lacks b':' k × Lacks 13 k × Lacks 13 v × StartsSolid is_space v × EndsSolid is_space v

abbrev pub header_text : Bytes × Bytes → Bytes
header_text (k, v) = k ++ b':' ∷ b' ' ∷ v

abbrev pub print_headers : List (Bytes × Bytes) → Bytes → Bytes
print_headers [] rest = rest
print_headers (h ∷ hs) rest = print_line (header_text h) (print_headers hs rest)

add_header-text :
    (r : HttpRequest) (k v : Bytes)
    → StartsSolid is_space v
    → EndsSolid is_space v
    → add_header r (header_text (k, v)) (length k) ≡ record r { headers = insert k v r.headers }
add_header-text r k v b e =
    ap (λ x. add_header r (k ++ b':' ∷ b' ' ∷ x) (length k)) (sym (append-nil v))
    ∙ add_header_trims r k (b' ' ∷ []) v [] (refl, tt) b e tt

pub headers_round-print :
    (c : HttpContext) (k v rest : Bytes)
    → IsHeader (k, v)
    → headers_round bytes_buffer c (print_line (header_text (k, v)) rest)
      ≡ again
          (record c { request = record c.request { headers = insert k v c.request.headers } })
          rest
unfolding headers_round header_line_round
headers_round-print c k v rest (colon, kc, vc, b, e) =
    let line : Bytes = header_text (k, v) in
    rw
      (
        crlf_at_line line rest
            (Lacks-append 13 k (b':' ∷ b' ' ∷ v) kc (omega arith, (omega arith, vc))),
        headers_round,
        take-length-append line (13 ∷ 10 ∷ rest),
        drop_line line rest,
      )
      (ground (
        arith,
        find-append b':' k (b' ' ∷ v) colon,
        length-append k (b':' ∷ b' ' ∷ v),
        add_header-text c.request k v b e,
      ))

-- The empty line of a message with no body.
pub headers_round-end :
    (c : HttpContext) (rest : Bytes)
    → expects_body c.request.method ≡ false
    → headers_round bytes_buffer c (13 ∷ 10 ∷ rest) ≡ done true (record c { state = got_all }) rest
unfolding headers_round header_line_round crlf_at find
headers_round-end c rest e = ground (arith, e)

-- The empty line of a message whose Content-Length is a positive number.
pub headers_round-body :
    (c : HttpContext) (rest : Bytes) (n : ℕ)
    → expects_body c.request.method ≡ true
    → get_header c.request (codes "Content-Length") ≡ to_string n
    → 0 < n
    → n < 2 ^ 31
    → headers_round bytes_buffer c (13 ∷ 10 ∷ rest)
      ≡ again (record { state = expect_body; request = set_content_length c.request n }) rest
unfolding headers_round header_line_round crlf_at find
headers_round-body c rest n e l p b =
    ground (arith, e, l, to_string-is_empty n, stoi-to_string n b, to_uint64-pos n b)

pub body_round-print :
    (c : HttpContext) (body rest : Bytes)
    → c.request.content_length ≡ length body
    → body_round bytes_buffer c (body ++ rest)
      ≡ done true (record { state = got_all; request = set_body c.request body }) rest
unfolding body_round
body_round-print c body rest e =
    ground
      (arith, length-append body rest, take-length-append body rest, drop-length-append body rest)
