-- ===== src/Router/Parameters.antt =====
-- The path parameters that a handler for a pattern is given.
use miniaibrowse_cpp.Common.{
  ℕ, zero, suc, ◌+◌, ◌^◌, ◌<◌, ◌≡◌, ◌≢◌, inl, inr, refl, ◌∙◌, false, List, [], ◌∷◌, ◌++◌, some,
  Bytes, codes, length, get_elem?, bytes_eq, bytes_eq_iff, bytes_key, ℕ_key, lookup, lookup_or,
  lookup-insert, lookup-insert_self, to_string, stoi-to_string, Bool-cases, arith,
}
use native.Mathlib.Nat.{add-zero}
use miniaibrowse_cpp.Http.Request.{HttpRequest, set_path_parameters, get_path_parameters}
use miniaibrowse_cpp.Router.{extract_from, extract_path_parameters}

abbrev pub param_key : ℕ → Bytes
param_key i = codes "param" ++ to_string i

param_key-ne :
    (i j : ℕ) → i < 2 ^ 31 → j < 2 ^ 31 → i ≢ j → bytes_eq (param_key i) (param_key j) ≡ false
param_key-ne i j hi hj n = elim (Bool-cases (bytes_eq (param_key i) (param_key j))) [
  | inl e ↦ absurd (n (same ((bytes_eq_iff (param_key i) (param_key j)).0 e)))
  | inr e ↦ e
]
  where
    same : param_key i ≡ param_key j → i ≡ j
    same e = cc (stoi-to_string i hi, stoi-to_string j hj)

-- Later captures leave the parameters before them.
extract_from-earlier :
    (i j : ℕ) (captures : List Bytes) (request : HttpRequest)
    → j < i
    → i + length captures < 2 ^ 31
    → lookup (param_key j) (extract_from i captures request).path_parameters
      ≡ lookup (param_key j) request.path_parameters
unfolding extract_from set_path_parameters
extract_from-earlier i j [] request h b = refl
extract_from-earlier i j (capture ∷ captures) request h b =
    extract_from-earlier (suc i) j captures (set_path_parameters request (param_key i) capture)
      (omega arith) (omega arith)
    ∙ lookup-insert (param_key i) (param_key j) capture request.path_parameters
    ∙ rw (param_key-ne i j (omega arith) (omega arith) (omega arith))

extract_from-capture :
    (i k : ℕ) (captures : List Bytes) (request : HttpRequest) (capture : Bytes)
    → get_elem? captures k ≡ some capture
    → i + length captures < 2 ^ 31
    → lookup (param_key (i + k)) (extract_from i captures request).path_parameters ≡ some capture
unfolding extract_from set_path_parameters
extract_from-capture i k [] request capture e b = cc
extract_from-capture i zero (c ∷ captures) request capture e b = rw (add-zero i) (
    extract_from-earlier (suc i) i captures (set_path_parameters request (param_key i) c)
      (omega arith) (omega arith)
    ∙ lookup-insert_self (param_key i) c request.path_parameters
    ∙ e)
extract_from-capture i (suc k) (c ∷ captures) request capture e b =
    let shift : i + suc k ≡ suc i + k = omega arith in
    rw shift (
      extract_from-capture (suc i) k captures (set_path_parameters request (param_key i) c) capture
        e (omega arith))

-- The handler reads the n-th capture of the pattern as the parameter "param" followed by n, counted
-- from 1, for every capture.
pub get_path_parameters-extract :
    (k : ℕ) (captures : List Bytes) (request : HttpRequest) (capture : Bytes)
    → get_elem? captures k ≡ some capture
    → 1 + length captures < 2 ^ 31
    → get_path_parameters (extract_path_parameters captures request) (param_key (1 + k)) ≡ capture
unfolding get_path_parameters extract_path_parameters lookup_or
get_path_parameters-extract k captures request capture e b =
    rw (extract_from-capture 1 k captures request capture e b, lookup_or)
