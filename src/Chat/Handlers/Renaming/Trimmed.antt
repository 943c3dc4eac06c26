-- ===== src/Chat/Handlers/Renaming/Trimmed.antt =====
-- Which names a renaming saves.
use miniaibrowse_cpp.Common.{
  if_either, ℕ, suc, ◌≤◌, ◌≡◌, inl, inr, false, ◌&&◌, [], ◌∷◌, Bytes, length, take, is_empty,
  bytes_key, ℕ_key, if◌then◌else◌, Bool-cases, arith,
}
use miniaibrowse_cpp.Chat.Utf8.{utf8_truncate_to_chars}
use miniaibrowse_cpp.Chat.Utf8.Prefix.{utf8_truncate_to_chars-bounds}
use miniaibrowse_cpp.Chat.Handlers.Listing.Names.{length-take_le}
use miniaibrowse_cpp.Chat.Handlers.Renaming.{is_blank_char, trim_end, trim_front, saved_name}

-- No blank at the end, none at the front.
abbrev pub IsTrimmedEnd : Bytes → Type 0
IsTrimmedEnd [] = Unit
IsTrimmedEnd (c ∷ []) = is_blank_char c ≡ false
IsTrimmedEnd (c ∷ d ∷ s) = IsTrimmedEnd (d ∷ s)

abbrev pub IsTrimmedFront : Bytes → Type 0
IsTrimmedFront [] = Unit
IsTrimmedFront (c ∷ s) = is_blank_char c ≡ false

trim_front-IsTrimmedFront : (s : Bytes) → IsTrimmedFront (trim_front s)
unfolding trim_front
trim_front-IsTrimmedFront [] = tt
trim_front-IsTrimmedFront (c ∷ s) = elim (Bool-cases (is_blank_char c)) [
  | inl e ↦ rw (e, trim_front) (trim_front-IsTrimmedFront s)
  | inr e ↦ rw (e, trim_front) e
]

IsTrimmedEnd-tail : (c : ℕ) (s : Bytes) → IsTrimmedEnd (c ∷ s) → IsTrimmedEnd s
IsTrimmedEnd-tail c [] h = tt
IsTrimmedEnd-tail c (d ∷ s) h = h

trim_front-IsTrimmedEnd : (s : Bytes) → IsTrimmedEnd s → IsTrimmedEnd (trim_front s)
unfolding trim_front
trim_front-IsTrimmedEnd [] h = tt
trim_front-IsTrimmedEnd (c ∷ s) h =
    if_either IsTrimmedEnd (is_blank_char c) (trim_front s) (c ∷ s)
      (trim_front-IsTrimmedEnd s (IsTrimmedEnd-tail c s h)) h

kept-IsTrimmedEnd :
    (rest : Bytes) (c : ℕ)
    → IsTrimmedEnd rest
    → IsTrimmedEnd (if is_empty rest && is_blank_char c then [] else c ∷ rest)
kept-IsTrimmedEnd [] c h = elim (Bool-cases (is_blank_char c)) [ inl e ↦ rw e tt | inr e ↦ rw e e ]
kept-IsTrimmedEnd (d ∷ rest) c h = h

trim_end-IsTrimmedEnd : (s : Bytes) → IsTrimmedEnd (trim_end s)
unfolding trim_end
trim_end-IsTrimmedEnd [] = tt
trim_end-IsTrimmedEnd (c ∷ s) = kept-IsTrimmedEnd (trim_end s) c (trim_end-IsTrimmedEnd s)

length-trim_end : (s : Bytes) → length (trim_end s) ≤ length s
unfolding trim_end
length-trim_end [] = ground arith
length-trim_end (c ∷ s) =
    if_either (λ t. length t ≤ suc (length s)) (is_empty (trim_end s) && is_blank_char c) []
      (c ∷ trim_end s) (ground arith) (ground (arith, length-trim_end s))

length-trim_front : (s : Bytes) → length (trim_front s) ≤ length s
unfolding trim_front
length-trim_front [] = ground arith
length-trim_front (c ∷ s) =
    if_either (λ t. length t ≤ suc (length s)) (is_blank_char c) (trim_front s) (c ∷ s)
      (ground (arith, length-trim_front s)) (ground arith)

-- A saved name takes at most 240 bytes, sixty characters of at most four, and neither begins nor ends with a
-- space or a tab.
pub saved_name-bounds :
    (name : Bytes)
    → (length (saved_name name) ≤ 240)
      × IsTrimmedFront (saved_name name)
      × IsTrimmedEnd (saved_name name)
unfolding saved_name
saved_name-bounds name =
    let kept = take (utf8_truncate_to_chars name 60) name in
    (
      ground (
        arith,
        length-trim_front (trim_end kept),
        length-trim_end kept,
        length-take_le (utf8_truncate_to_chars name 60) name,
        (utf8_truncate_to_chars-bounds name 60).1,
      ),
      trim_front-IsTrimmedFront (trim_end kept),
      trim_front-IsTrimmedEnd (trim_end kept) (trim_end-IsTrimmedEnd kept),
    )
