-- ===== src/Http/Context/Target.antt =====
-- The target of a request line, read by `processRequestLine` and `setQueryParameters`, against a description of
-- its own: the path before the first '?', and the parameters behind it.
use miniaibrowse_cpp.Common.{
  ℕ, suc, ◌<◌, ◌≡◌, inl, inr, refl, ap, ◌∙◌, false, List, [], ◌∷◌, Option, none, some, Bytes,
  length, take, drop, find, find?, Dict, insert, if◌then◌else◌, arith, ltb, ◌==◌, bytes_key, ℕ_key,
  Bool-cases, sym,
}
use miniaibrowse_cpp.Http.Request.{HttpRequest, add_pair, set_path}
use miniaibrowse_cpp.Http.Request.Query.{split, fold_pairs, set_query_parameters-split}
use miniaibrowse_cpp.Http.Context.{set_target}

-- What stands before the first `c`: everything, when there is none.
unfoldable pub before : ℕ → Bytes → Bytes
before c [] = []
before c (x ∷ s) = if x == c then [] else x ∷ before c s

-- What stands behind the first `c`, when there is one.
unfoldable pub behind : ℕ → Bytes → Option Bytes
behind c [] = none
behind c (x ∷ s) = if x == c then some s else behind c s

-- A part "key=value" stores its value; a part without '=' stores nothing.
abbrev store_part : Dict Bytes Bytes → Bytes → Dict Bytes Bytes
store_part m part = elim (behind b'=' part) [
  | none ↦ m
  | some value ↦ insert (before b'=' part) value m
]

abbrev store_parts : Dict Bytes Bytes → List Bytes → Dict Bytes Bytes
store_parts m [] = m
store_parts m (part ∷ parts) = store_parts (store_part m part) parts

-- The parameters behind the first '?', from left to right, stored onto those that are there.
abbrev pub parameters_of : Dict Bytes Bytes → Bytes → Dict Bytes Bytes
parameters_of m target = elim (behind b'?' target) [
  | none ↦ m
  | some query ↦ store_parts m (split b'&' query)
]

take-find : (c : ℕ) (s : Bytes) → take (find c s) s ≡ before c s
unfolding find before
take-find c [] = refl
take-find c (x ∷ s) = ground (arith, take-find c s)

behind_found :
    (c : ℕ) (s : Bytes) → find c s < length s → behind c s ≡ some (drop (suc (find c s)) s)
unfolding find behind
behind_found c [] h = elim h [ ]
behind_found c (x ∷ s) h = ground (arith, behind_found c s)

behind_absent :
    (c : ℕ) (s : Bytes) → ltb (find c s) (length s) ≡ false → (behind c s ≡ none) × (before c s ≡ s)
unfolding find behind before
behind_absent c [] h = (refl, refl)
behind_absent c (x ∷ s) h = ground (arith, behind_absent c s)

add_pair-store_part : (m : Dict Bytes Bytes) (part : Bytes) → add_pair m part ≡ store_part m part
unfolding add_pair find?
add_pair-store_part m part = elim (Bool-cases (ltb (find b'=' part) (length part))) [
  | inl e ↦
      rw (behind_found b'=' part (ground arith), store_part)
        (rw (e, add_pair)
          (ap (λ k. insert k (drop (suc (find b'=' part)) part) m) (take-find b'=' part)))
  | inr e ↦ rw ((behind_absent b'=' part e).0, store_part) (rw (e, add_pair) refl)
]

fold_pairs-store_parts :
    (m : Dict Bytes Bytes) (parts : List Bytes) → fold_pairs m parts ≡ store_parts m parts
fold_pairs-store_parts m [] = refl
fold_pairs-store_parts m (part ∷ parts) =
    fold_pairs-store_parts (add_pair m part) parts
    ∙ ap (λ n. store_parts n parts) (add_pair-store_part m part)

-- Of every target, `processRequestLine` stores what stands before the first '?' as the path, and from left to
-- right what each part "key=value" between the '&'s behind it says, split at its first '='; a part without '='
-- stores nothing, and without '?' the parameters stay as they were.
pub set_target_lem :
    (r : HttpRequest) (target : Bytes)
    → set_target r target ≡ record r {
      path = before b'?' target;
      query_parameters = parameters_of r.query_parameters target;
    }
unfolding set_target set_path
set_target_lem r target = elim (Bool-cases (ltb (find b'?' target) (length target))) [
  | inl e ↦
      rw (behind_found b'?' target (ground arith), parameters_of)
        (rw (e, set_target)
          (set_query_parameters-split (record r { path = take (find b'?' target) target })
              (drop (suc (find b'?' target)) target)
            ∙ ap (λ m. record r { path = take (find b'?' target) target; query_parameters = m })
                (fold_pairs-store_parts r.query_parameters
                  (split b'&' (drop (suc (find b'?' target)) target)))
            ∙ ap
                (λ p. record r {
                  path = p;
                  query_parameters =
                      store_parts r.query_parameters
                        (split b'&' (drop (suc (find b'?' target)) target));
                })
                (take-find b'?' target)))
  | inr e ↦
      rw ((behind_absent b'?' target e).0, parameters_of)
        (rw (e, set_target)
          (ap (λ p. record r { path = p }) (sym ((behind_absent b'?' target e).1))))
]
