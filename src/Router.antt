-- ===== src/Router.antt =====
-- HttpServer/include/router/Router.h and HttpServer/src/router/Router.cpp. Handlers and callbacks are of any
-- two types: the router selects one of them, with the request that it is given. Regular expressions are
-- taken by their pattern's text, and matching a path with one is a parameter, the captures its result.
pub mod Precedence
pub mod Parameters
use miniaibrowse_cpp.Common.{
  ℕ, suc, ◌+◌, ◌≡◌, ◌↔◌, Bool, true, false, not, ◌&&◌, List, [], ◌∷◌, ◌++◌, Option, none, some,
  Bytes, codes, bytes_eq, bytes_eq_iff, Key, bytes_key, ℕ_key, Dict, lookup, insert, to_string,
  ◌==◌, if◌then◌else◌, arith,
}
use miniaibrowse_cpp.Http.Request.{HttpRequest, Method, method_eq, set_path_parameters}

pub record RouteKey : Type 0 where
  pub method : Method
  pub path : Bytes

unfoldable pub route_key_eq : RouteKey → RouteKey → Bool
route_key_eq a b = method_eq a.method b.method && bytes_eq a.path b.path

-- A hash table has no order of its own to keep.
abbrev no_order : RouteKey → RouteKey → Bool
no_order a b = false

method_eq_iff : (a b : Method) → (method_eq a b ≡ true) ↔ (a ≡ b)
method_eq_iff a b = ground arith

pub route_key_eq_iff : (a b : RouteKey) → (route_key_eq a b ≡ true) ↔ (a ≡ b)
unfolding route_key_eq
route_key_eq_iff a b = ground (arith, method_eq_iff a.method b.method, bytes_eq_iff a.path b.path)

instance abbrev pub route_key : Key RouteKey
route_key = record { beq = route_key_eq; blt = no_order; beq_iff = route_key_eq_iff }

-- The text behind a '/' is ":name", a name of one byte at least.
abbrev starts_param : Bytes → Bool
starts_param [] = false
starts_param (x ∷ []) = false
starts_param (x ∷ c ∷ s) = x == b':' && not (c == b'/')

-- `regex_replace` of "/:([^/]+)" by "/([^/]+)"; `skipping` while in a name that is replaced.
unfoldable pub replace_params : Bool → Bytes → Bytes
replace_params skipping [] = []
replace_params skipping (x ∷ s) =
    let skipped = replace_params true s in
    let kept = replace_params false s in
    if skipping && not (x == b'/')
    then skipped
    else if x == b'/' && starts_param s
    then codes "/([^/]+)" ++ skipped
    else x ∷ kept

unfoldable pub convert_to_regex : Bytes → Bytes
unfolding replace_params
convert_to_regex path_pattern = b'^' ∷ (replace_params false path_pattern ++ b'$' ∷ [])

-- Captures are named "param1", "param2" and so on.
unfoldable pub extract_from : ℕ → List Bytes → HttpRequest → HttpRequest
extract_from i [] request = request
extract_from i (capture ∷ captures) request =
    extract_from (suc i) captures
      (set_path_parameters request (codes "param" ++ to_string i) capture)

unfoldable pub extract_path_parameters : List Bytes → HttpRequest → HttpRequest
unfolding extract_from
extract_path_parameters captures request = extract_from 1 captures request

pub record RegexRoute (A : Type 0) : Type 0 where
  pub method : Method
  pub path_regex : Bytes
  pub target : A

pub record Router (H C : Type 0) : Type 0 where
  pub handlers : Dict RouteKey H
  pub callbacks : Dict RouteKey C
  pub regex_handlers : List (RegexRoute H)
  pub regex_callbacks : List (RegexRoute C)

pub data Target (H C : Type 0) : Type 0 where
  to_handler : H → Target H C
  to_callback : C → Target H C

module _ {H C : Type 0} where
  unfoldable pub register_handler : Router H C → Method → Bytes → H → Router H C
  register_handler r method path handler = record r {
    handlers = insert (record { method = method; path = path }) handler r.handlers;
  }

  unfoldable pub register_callback : Router H C → Method → Bytes → C → Router H C
  register_callback r method path callback = record r {
    callbacks = insert (record { method = method; path = path }) callback r.callbacks;
  }

  unfoldable pub add_regex_handler : Router H C → Method → Bytes → H → Router H C
  add_regex_handler r method path handler = record r {
    regex_handlers =
        r.regex_handlers
        ++ record { method = method; path_regex = convert_to_regex path; target = handler } ∷ [];
  }

  unfoldable pub add_regex_callback : Router H C → Method → Bytes → C → Router H C
  add_regex_callback r method path callback = record r {
    regex_callbacks =
        r.regex_callbacks
        ++ record { method = method; path_regex = convert_to_regex path; target = callback } ∷ [];
  }

-- The parameter is `std::regex_match`: the captures, if the pattern matches the whole path.
module _ (regex_match : Bytes → Bytes → Option (List Bytes)) where
  unfoldable pub match_route : {A : Type 0} → RegexRoute A → HttpRequest → Option (List Bytes)
  match_route route request =
      if method_eq route.method request.method
      then regex_match route.path_regex request.path
      else none

  module _ {H C : Type 0} where
    -- A handler is given the request with its path parameters.
    unfoldable pub route_regex_handlers :
        List (RegexRoute H) → HttpRequest → Option (Target H C × HttpRequest)
    route_regex_handlers [] request = none
    route_regex_handlers (r ∷ rs) request =
        let rest = route_regex_handlers rs request in
        elim (match_route r request) [
          | none ↦ rest
          | some captures ↦ some (to_handler r.target, extract_path_parameters captures request)
        ]

    -- A callback is given the request as it came.
    unfoldable pub route_regex_callbacks :
        List (RegexRoute C) → HttpRequest → Option (Target H C × HttpRequest)
    route_regex_callbacks [] request = none
    route_regex_callbacks (r ∷ rs) request =
        let rest = route_regex_callbacks rs request in
        elim (match_route r request) [
          | none ↦ rest
          | some captures ↦ some (to_callback r.target, request)
        ]

    abbrev pub or_else :
        Option (Target H C × HttpRequest)
        → Option (Target H C × HttpRequest)
        → Option (Target H C × HttpRequest)
    or_else none other = other
    or_else (some found) other = some found

    -- `none` is the result `false`.
    unfoldable pub route : Router H C → HttpRequest → Option (Target H C × HttpRequest)
    route r request =
        let key : RouteKey = record { method = request.method; path = request.path } in
        elim (lookup key r.handlers) [
          | some handler ↦ some (to_handler handler, request)
          | none ↦ elim (lookup key r.callbacks) [
            | some callback ↦ some (to_callback callback, request)
            | none ↦
                or_else (route_regex_handlers r.regex_handlers request)
                  (route_regex_callbacks r.regex_callbacks request)
          ]
        ]
