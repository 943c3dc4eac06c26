-- ===== src/Middleware.antt =====
-- HttpServer/include/middleware and HttpServer/src/middleware/MiddlewareChain.cpp. The classes derived from
-- Middleware are a data type; an entry may be a null pointer.
pub mod Cors
pub mod Qps
pub mod Order
use miniaibrowse_cpp.Common.{ℕ, List, [], ◌∷◌, ◌++◌, Option, none, some, bytes_key, ℕ_key}
use miniaibrowse_cpp.Http.Request.{HttpRequest}
use miniaibrowse_cpp.Http.Response.{HttpResponse}
use Cors.{CorsConfig}
use Cors
use Qps.{Metrics}
use Qps

pub data Middleware : Type 0 where
  cors : CorsConfig → Middleware
  qps_metrics : Middleware

abbrev pub MiddlewareChain : Type 0
MiddlewareChain = List (Option Middleware)

-- How `processBefore` ends: normally, by a thrown response, or in a call through a null pointer.
pub data Before : Type 0 where
  passed : Before
  thrown : HttpResponse → Before
  crashed : Before

unfoldable pub add_middleware : MiddlewareChain → Option Middleware → MiddlewareChain
add_middleware chain middleware = chain ++ middleware ∷ []

-- `now` is what the clock shows to the middlewares of one request.
unfoldable pub process_before : ℕ → MiddlewareChain → HttpRequest → Metrics → Metrics × Before
process_before now [] request m = (m, passed)
process_before now (none ∷ chain) request m = (m, crashed)
process_before now (some (cors config) ∷ chain) request m =
    let rest = process_before now chain request m in
    elim (Cors.before config request) [ none ↦ rest | some response ↦ (m, thrown response) ]
process_before now (some qps_metrics ∷ chain) request m =
    process_before now chain request (Qps.before now m)

abbrev pub after_one : Option Middleware → HttpResponse → HttpResponse
after_one none response = response
after_one (some (cors config)) response = Cors.after config response
after_one (some qps_metrics) response = response

-- The loop from `rbegin` to `rend`: the last middleware first.
unfoldable pub process_after : MiddlewareChain → HttpResponse → HttpResponse
process_after [] response = response
process_after (middleware ∷ chain) response = after_one middleware (process_after chain response)
