-- ===== src/Http.antt =====
-- HttpServer/include/http and HttpServer/src/http: requests, the parser of a connection's bytes, and
-- responses.
pub mod Request
pub mod Buffer
pub mod Context
pub mod Response
