-- ===== src/Http/Request.antt =====
-- HttpServer/include/http/HttpRequest.h and HttpServer/src/http/HttpRequest.cpp. Strings are lists of
-- bytes; a pair of pointers [start, end) is the list of the bytes between them.
pub mod Query
pub mod Headers
use miniaibrowse_cpp.Common.{
  ℕ, zero, suc, Bool, true, false, not, [], ◌∷◌, Option, none, some, Bytes, codes, length, take,
  drop, find?, bytes_eq, is_space, Dict, bytes_key, lookup_or, insert, if◌then◌else◌,
}

pub data Method : Type 0 where
  invalid get post head put delete options : Method

abbrev pub method_eq : Method → Method → Bool
method_eq invalid invalid = true
method_eq get get = true
method_eq post post = true
method_eq head head = true
method_eq put put = true
method_eq delete delete = true
method_eq options options = true
method_eq _ _ = false

pub record HttpRequest : Type 0 where
  pub method : Method
  pub version : Bytes
  pub path : Bytes
  pub path_parameters : Dict Bytes Bytes
  pub query_parameters : Dict Bytes Bytes
  pub receive_time : ℕ
  pub headers : Dict Bytes Bytes
  pub content : Bytes
  pub content_length : ℕ

abbrev pub empty_request : HttpRequest
empty_request = record {
  method = invalid;
  version = codes "Unknown";
  path = [];
  path_parameters = [];
  query_parameters = [];
  receive_time = 0;
  headers = [];
  content = [];
  content_length = 0;
}

unfoldable pub method_of : Bytes → Method
method_of m =
    if bytes_eq m (codes "GET")
    then get
    else if bytes_eq m (codes "POST")
    then post
    else if bytes_eq m (codes "PUT")
    then put
    else if bytes_eq m (codes "DELETE")
    then delete
    else if bytes_eq m (codes "OPTIONS")
    then options
    else invalid

-- `none` is the failure of `assert(method_ == kInvalid)`, in a build with assertions. A Release build defines
-- NDEBUG and checks nothing: there the method is overwritten, which is the same where it is still invalid.
unfoldable pub set_method : HttpRequest → Bytes → Option (HttpRequest × Bool)
unfolding method_of
set_method r m =
    if method_eq r.method invalid
    then some (record r { method = method_of m }, not (method_eq (method_of m) invalid))
    else none

unfoldable pub set_path : HttpRequest → Bytes → HttpRequest
set_path r p = record r { path = p }

unfoldable pub set_path_parameters : HttpRequest → Bytes → Bytes → HttpRequest
set_path_parameters r key value = record r { path_parameters = insert key value r.path_parameters }

unfoldable pub get_path_parameters : HttpRequest → Bytes → Bytes
get_path_parameters r key = lookup_or [] key r.path_parameters

unfoldable pub get_query_parameters : HttpRequest → Bytes → Bytes
get_query_parameters r key = lookup_or [] key r.query_parameters

-- One `pair` of the loop of `setQueryParameters`: a part with no '=' is dropped.
unfoldable pub add_pair : Dict Bytes Bytes → Bytes → Dict Bytes Bytes
unfolding find?
add_pair m pair = elim (find? b'=' pair) [
  | none ↦ m
  | some equal_pos ↦ insert (take equal_pos pair) (drop (suc equal_pos) pair) m
]

-- The loop over `argumentStr.substr(prev)`, and the last pair behind it; `none` is fuel run out.
unfoldable pub query_loop : ℕ → Bytes → Dict Bytes Bytes → Option (Dict Bytes Bytes)
unfolding find?
query_loop zero s m = none
query_loop (suc fuel) s m = elim (find? b'&' s) [
  | none ↦ some (add_pair m s)
  | some pos ↦ query_loop fuel (drop (suc pos) s) (add_pair m (take pos s))
]

unfoldable pub set_query_parameters : HttpRequest → Bytes → HttpRequest
set_query_parameters r s = elim (query_loop (suc (length s)) s r.query_parameters) [
  | none ↦ r
  | some m ↦ record r { query_parameters = m }
]

unfoldable pub set_version : HttpRequest → Bytes → HttpRequest
set_version r v = record r { version = v }

unfoldable pub set_receive_time : HttpRequest → ℕ → HttpRequest
set_receive_time r t = record r { receive_time = t }

-- `while (colon < end && isspace(*colon)) ++colon;`
unfoldable pub trim_start : (ℕ → Bool) → Bytes → Bytes
trim_start blank [] = []
trim_start blank (c ∷ s) = if blank c then trim_start blank s else c ∷ s

abbrev pub drop_blank : (ℕ → Bool) → ℕ → Bytes → Bytes
drop_blank blank c [] = if blank c then [] else c ∷ []
drop_blank blank c (d ∷ s) = c ∷ d ∷ s

-- `while (!value.empty() && isspace(value.back())) value.pop_back();`
unfoldable pub trim_end : (ℕ → Bool) → Bytes → Bytes
trim_end blank [] = []
trim_end blank (c ∷ s) = drop_blank blank c (trim_end blank s)

-- `colon` is the offset of the colon in the header's line.
unfoldable pub add_header : HttpRequest → Bytes → ℕ → HttpRequest
add_header r line colon = record r {
  headers =
      insert (take colon line) (trim_end is_space (trim_start is_space (drop (suc colon) line)))
        r.headers;
}

unfoldable pub get_header : HttpRequest → Bytes → Bytes
get_header r field = lookup_or [] field r.headers

unfoldable pub set_body : HttpRequest → Bytes → HttpRequest
set_body r body = record r { content = body }

unfoldable pub set_content_length : HttpRequest → ℕ → HttpRequest
set_content_length r n = record r { content_length = n }

-- `swap` leaves `content_` and `contentLength_` where they are.
unfoldable pub swap : HttpRequest → HttpRequest → HttpRequest × HttpRequest
swap a b = (
  record b { content = a.content; content_length = a.content_length },
  record a { content = b.content; content_length = b.content_length },
)
