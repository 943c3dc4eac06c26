-- ===== src/Http/Request/Query.antt =====
-- The query string of HttpRequest.cpp against a reference: split at '&', then add each part.
use miniaibrowse_cpp.Common.{
  ℕ, zero, suc, ◌<◌, ◌≡◌, refl, ap, ◌∙◌, false, List, [], ◌∷◌, some, Bytes, length, take, drop,
  find, find?, length-drop, Dict, insert, if◌then◌else◌, arith, ltb, Lacks, find-append, ◌++◌,
  take-length-append, drop-suc-length-append, ◌==◌, length-append, Lacks-append, bytes_key,
}
use miniaibrowse_cpp.Http.Request.{HttpRequest, add_pair, query_loop, set_query_parameters}

unfoldable pub cons_head : ℕ → List Bytes → List Bytes
cons_head x [] = (x ∷ []) ∷ []
cons_head x (p ∷ ps) = (x ∷ p) ∷ ps

-- The parts of a text between the separators, always one more than there are separators.
unfoldable pub split : ℕ → Bytes → List Bytes
split c [] = [] ∷ []
split c (x ∷ s) = if x == c then [] ∷ split c s else cons_head x (split c s)

abbrev pub fold_pairs : Dict Bytes Bytes → List Bytes → Dict Bytes Bytes
fold_pairs m [] = m
fold_pairs m (p ∷ ps) = fold_pairs (add_pair m p) ps

split_found :
    (c : ℕ) (s : Bytes)
    → find c s < length s
    → split c s ≡ take (find c s) s ∷ split c (drop (suc (find c s)) s)
unfolding split find cons_head
split_found c [] h = elim h [ ]
split_found c (x ∷ s) h = ground (arith, split_found c s)

split_absent : (c : ℕ) (s : Bytes) → ltb (find c s) (length s) ≡ false → split c s ≡ s ∷ []
unfolding split find cons_head
split_absent c [] h = refl
split_absent c (x ∷ s) h = ground (arith, split_absent c s)

query_loop-split :
    (fuel : ℕ) (s : Bytes) (m : Dict Bytes Bytes)
    → length s < fuel
    → query_loop fuel s m ≡ some (fold_pairs m (split b'&' s))
unfolding query_loop find?
query_loop-split zero s m h = elim h [ ]
query_loop-split (suc fuel) s m h = ground (
  arith,
  split_found b'&' s,
  split_absent b'&' s,
  length-drop (suc (find b'&' s)) s,
  query_loop-split fuel (drop (suc (find b'&' s)) s) (add_pair m (take (find b'&' s) s)),
)

-- `setQueryParameters` always ends, and its scan with `find` and `substr` is the reference: the parts
-- between the '&'s are added from left to right, onto the parameters that the request had.
pub set_query_parameters-split :
    (r : HttpRequest) (s : Bytes)
    → set_query_parameters r s
      ≡ record r { query_parameters = fold_pairs r.query_parameters (split b'&' s) }
unfolding set_query_parameters
set_query_parameters-split r s =
    rw (query_loop-split (suc (length s)) s r.query_parameters (omega arith), set_query_parameters)

split-append : (c : ℕ) (p s : Bytes) → Lacks c p → split c (p ++ c ∷ s) ≡ p ∷ split c s
unfolding split cons_head
split-append c [] s h = ground arith
split-append c (x ∷ p) s h = ground (arith, split-append c p s h.1)

split_whole : (c : ℕ) (p : Bytes) → Lacks c p → split c p ≡ p ∷ []
unfolding split cons_head
split_whole c [] h = refl
split_whole c (x ∷ p) h = ground (arith, split_whole c p h.1)

abbrev pub print_pair : Bytes × Bytes → Bytes
print_pair (k, v) = k ++ b'=' ∷ v

-- A query string as a client writes it, "k1=v1&k2=v2".
abbrev pub print_query : List (Bytes × Bytes) → Bytes
print_query [] = []
print_query (p ∷ []) = print_pair p
print_query (p ∷ q ∷ ps) = print_pair p ++ b'&' ∷ print_query (q ∷ ps)

abbrev pub insert_all : Dict Bytes Bytes → List (Bytes × Bytes) → Dict Bytes Bytes
insert_all m [] = m
insert_all m ((k, v) ∷ ps) = insert_all (insert k v m) ps

-- Keys hold neither '=' nor '&', values hold no '&'.
abbrev pub IsQuery : List (Bytes × Bytes) → Type 0
IsQuery [] = Unit
IsQuery ((k, v) ∷ ps) = Lacks b'=' k × Lacks b'&' k × Lacks b'&' v × IsQuery ps

add_pair-print_pair :
    (m : Dict Bytes Bytes) (k v : Bytes) → Lacks b'=' k → add_pair m (k ++ b'=' ∷ v) ≡ insert k v m
unfolding add_pair
add_pair-print_pair m k v h = ground (
  arith,
  find-append b'=' k v h,
  length-append k (b'=' ∷ v),
  take-length-append k (b'=' ∷ v),
  drop-suc-length-append k b'=' v,
)

Lacks-print_pair : (k v : Bytes) → Lacks b'&' k → Lacks b'&' v → Lacks b'&' (k ++ b'=' ∷ v)
Lacks-print_pair k v h l = Lacks-append b'&' k (b'=' ∷ v) h (omega arith, l)

fold_pairs-print_query :
    (m : Dict Bytes Bytes) (ps : List (Bytes × Bytes))
    → IsQuery ps
    → fold_pairs m (split b'&' (print_query ps)) ≡ insert_all m ps
unfolding split add_pair find? find
fold_pairs-print_query m [] h = refl
fold_pairs-print_query m ((k, v) ∷ []) (ke, ka, va, h) =
    rw (split_whole b'&' (print_pair (k, v)) (Lacks-print_pair k v ka va))
      (add_pair-print_pair m k v ke)
fold_pairs-print_query m ((k, v) ∷ q ∷ ps) (ke, ka, va, h) =
    ap (fold_pairs m)
      (split-append b'&' (print_pair (k, v)) (print_query (q ∷ ps)) (Lacks-print_pair k v ka va))
    ∙ ap (λ n. fold_pairs n (split b'&' (print_query (q ∷ ps)))) (add_pair-print_pair m k v ke)
    ∙ fold_pairs-print_query (insert k v m) (q ∷ ps) h

-- Printing key-value pairs as a query string and reading it with `setQueryParameters` stores exactly
-- those pairs, from left to right, so of a repeated key the last value; keys hold neither '=' nor
-- '&', and values no '&'.
pub set_query_parameters-print_query :
    (r : HttpRequest) (ps : List (Bytes × Bytes))
    → IsQuery ps
    → set_query_parameters r (print_query ps)
      ≡ record r { query_parameters = insert_all r.query_parameters ps }
set_query_parameters-print_query r ps h =
    set_query_parameters-split r (print_query ps)
    ∙ ap (λ m. record r { query_parameters = m }) (fold_pairs-print_query r.query_parameters ps h)
