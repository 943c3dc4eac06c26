-- ===== src/Chat/Utf8/Prefix.antt =====
-- Cutting a text off behind whole characters.
use miniaibrowse_cpp.Common.{
  if_either, if_no, ℕ, zero, suc, ◌+◌, ◌*◌, ◌≤◌, ◌<◌, ◌≡◌, inl, inr, refl, sym, ap, ◌∙◌, List, [],
  ◌∷◌, ◌++◌, append_assoc, append-nil, none, some, Bytes, length, take, drop, get_elem?, All,
  bytes_key, ℕ_key, ltb, Bool-cases, Option-cases, length-append, take-length-append, arith,
}
use miniaibrowse_cpp.Chat.Sse.Lines.{concat}
use miniaibrowse_cpp.Chat.Utf8.{step, truncate_from, utf8_truncate_to_chars}

pub step_le : (c : ℕ) → step c ≤ 4
unfolding step
step_le c = ground arith

pub step_pos : (c : ℕ) → 0 < step c
unfolding step
step_pos c = ground arith

truncate_from-bound :
    (s : Bytes) (chars bytes : ℕ) → bytes ≤ length s → truncate_from s chars bytes ≤ length s
unfolding truncate_from
truncate_from-bound s zero bytes h = h
truncate_from-bound s (suc chars) bytes h = elim (Option-cases (get_elem? s bytes)) [
  | inl e ↦ rw (e, truncate_from) h
  | inr (c, e) ↦
      rw (e, truncate_from)
        (elim (Bool-cases (ltb (length s) (bytes + step c))) [
          | inl l ↦ rw l h
          | inr l ↦ rw l (truncate_from-bound s chars (bytes + step c) (ground arith))
        ])
]

truncate_from-chars :
    (s : Bytes) (chars bytes : ℕ) → truncate_from s chars bytes ≤ bytes + chars * 4
unfolding truncate_from
truncate_from-chars s zero bytes = ground arith
truncate_from-chars s (suc chars) bytes = elim (Option-cases (get_elem? s bytes)) [
  | inl e ↦ rw (e, truncate_from) (ground arith)
  | inr (c, e) ↦
      rw (e, truncate_from)
        (if_either (λ n. n ≤ bytes + suc chars * 4) (ltb (length s) (bytes + step c)) bytes
          (truncate_from s chars (bytes + step c)) (ground arith)
          (ground (arith, step_le c, truncate_from-chars s chars (bytes + step c))))
]

-- What is kept ends at the end of the text at the latest, and takes at most four bytes a character.
pub utf8_truncate_to_chars-bounds :
    (s : Bytes) (max_chars : ℕ)
    → (utf8_truncate_to_chars s max_chars ≤ length s)
      × (utf8_truncate_to_chars s max_chars ≤ max_chars * 4)
unfolding utf8_truncate_to_chars
utf8_truncate_to_chars-bounds s max_chars = (
  truncate_from-bound s max_chars 0 (ground arith),
  omega (arith, truncate_from-chars s max_chars 0),
)

abbrev IsContinuation : ℕ → Type 0
IsContinuation c = (128 ≤ c) × (c < 192)

-- The bytes of one character in UTF-8: one byte below 128, or a first byte that says how many continuation
-- bytes follow, and those.
abbrev pub IsChar : Bytes → Type 0
IsChar [] = ⊥
IsChar (c ∷ []) = c < 128
IsChar (c ∷ x ∷ []) = (192 ≤ c) × (c < 224) × IsContinuation x
IsChar (c ∷ x ∷ y ∷ []) = (224 ≤ c) × (c < 240) × IsContinuation x × IsContinuation y
IsChar (c ∷ x ∷ y ∷ z ∷ []) =
    (240 ≤ c) × (c < 248) × IsContinuation x × IsContinuation y × IsContinuation z
IsChar (c ∷ x ∷ y ∷ z ∷ a ∷ u) = ⊥

-- The first byte of a character tells `step` how many bytes it has.
length-IsChar : (c : ℕ) (u : Bytes) → IsChar (c ∷ u) → length (c ∷ u) ≡ step c
unfolding step
length-IsChar c [] h = ground arith
length-IsChar c (x ∷ []) h = ground arith
length-IsChar c (x ∷ y ∷ []) h = ground arith
length-IsChar c (x ∷ y ∷ z ∷ []) h = ground arith
length-IsChar c (x ∷ y ∷ z ∷ a ∷ u) h = elim h [ ]

get_elem?-past : {A : Type 0} (xs : List A) → get_elem? xs (length xs) ≡ none
get_elem?-past [] = refl
get_elem?-past (x ∷ xs) = get_elem?-past xs

get_elem?_behind :
    {A : Type 0} (xs ys : List A) (y : A) → get_elem? (xs ++ y ∷ ys) (length xs) ≡ some y
get_elem?_behind [] ys y = refl
get_elem?_behind (x ∷ xs) ys y = get_elem?_behind xs ys y

-- One round of the loop at a whole character.
truncate_from-char :
    (before after u : Bytes) (c chars : ℕ)
    → IsChar (c ∷ u)
    → truncate_from (before ++ c ∷ (u ++ after)) (suc chars) (length before)
      ≡ truncate_from (before ++ c ∷ (u ++ after)) chars (length (before ++ c ∷ u))
unfolding truncate_from
truncate_from-char before after u c chars h =
    let s = before ++ c ∷ (u ++ after) in
    rw (get_elem?_behind before (u ++ after) c, truncate_from)
      (if_no (ltb (length s) (length before + step c)) (length before)
          (truncate_from s chars (length before + step c))
          (ground (
            arith,
            length-IsChar c u h,
            length-append before (c ∷ (u ++ after)),
            length-append u after,
          ))
        ∙ ap (λ n. truncate_from s chars n)
            (omega (arith, length-IsChar c u h, length-append before (c ∷ u))))

truncate_from-concat :
    (before : Bytes) (us : List Bytes) (chars : ℕ)
    → All IsChar us
    → truncate_from (before ++ concat us) chars (length before)
      ≡ length (before ++ concat (take chars us))
unfolding truncate_from
truncate_from-concat before us zero h = ap length (sym (append-nil before))
truncate_from-concat before [] (suc chars) h =
    rw (append-nil before, truncate_from) (rw (get_elem?-past before, truncate_from) refl)
truncate_from-concat before ([] ∷ us) (suc chars) h = elim h.0 [ ]
truncate_from-concat before ((c ∷ u) ∷ us) (suc chars) h =
    truncate_from-char before (concat us) u c chars h.0
    ∙ ap (λ t. truncate_from t chars (length (before ++ c ∷ u)))
        (sym (append_assoc before (c ∷ u) (concat us)))
    ∙ truncate_from-concat (before ++ c ∷ u) us chars h.1
    ∙ ap length (append_assoc before (c ∷ u) (concat (take chars us)))

concat-take-drop : (n : ℕ) (us : List Bytes) → concat us ≡ concat (take n us) ++ concat (drop n us)
concat-take-drop zero us = refl
concat-take-drop (suc n) [] = refl
concat-take-drop (suc n) (u ∷ us) =
    ap (λ t. u ++ t) (concat-take-drop n us)
    ∙ sym (append_assoc u (concat (take n us)) (concat (drop n us)))

-- A text of whole UTF-8 characters is cut to its first `max_chars` characters, none of them torn.
pub take-utf8_truncate_to_chars :
    (us : List Bytes) (max_chars : ℕ)
    → All IsChar us
    → take (utf8_truncate_to_chars (concat us) max_chars) (concat us) ≡ concat (take max_chars us)
unfolding utf8_truncate_to_chars
take-utf8_truncate_to_chars us n h =
    ap (λ k. take k (concat us)) (truncate_from-concat [] us n h)
    ∙ ap (take (length (concat (take n us)))) (concat-take-drop n us)
    ∙ take-length-append (concat (take n us)) (concat (drop n us))
