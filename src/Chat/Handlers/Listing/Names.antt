-- ===== src/Chat/Handlers/Listing/Names.antt =====
-- How long the automatic name of a session is.
use miniaibrowse_cpp.Common.{
  ℕ, zero, suc, ◌≤◌, ◌≡◌, inl, inr, refl, false, List, [], ◌∷◌, Option, none, some, Bytes, length,
  take, bytes_key, ℕ_key, ltb, Bool-cases, length-append, arith,
}
use miniaibrowse_cpp.Chat.Utf8.{utf8_truncate_to_chars}
use miniaibrowse_cpp.Chat.Utf8.Prefix.{utf8_truncate_to_chars-bounds}
use miniaibrowse_cpp.Chat.Handlers.Listing.{without, ellipsis, abbreviate, is_blank, auto_name}

pub length-take_le : {A : Type 0} (n : ℕ) (xs : List A) → length (take n xs) ≤ n
length-take_le zero xs = ground arith
length-take_le (suc n) [] = ground arith
length-take_le (suc n) (x ∷ xs) = ground (arith, length-take_le n xs)

length-abbreviate : (content : Bytes) → length (abbreviate content) ≤ 51
unfolding abbreviate
length-abbreviate content =
    let (within, short) = utf8_truncate_to_chars-bounds content 12 in
    let safe_bytes = utf8_truncate_to_chars content 12 in
    elim (Bool-cases (ltb safe_bytes (length content))) [
      | inl e ↦
          rw (e, abbreviate)
            (ground (
              arith,
              length-append (take safe_bytes content) ellipsis,
              length-take_le safe_bytes content,
            ))
      | inr e ↦ rw (e, abbreviate) (ground arith)
    ]

-- The automatic name of a session takes at most 51 bytes, twelve characters of at most four and the ellipsis,
-- and is not empty or blank, whatever its first message.
pub auto_name-bounds :
    (first_message : Option Bytes)
    → (length (auto_name first_message) ≤ 51) × (is_blank (auto_name first_message) ≡ false)
unfolding auto_name
auto_name-bounds none = (ground arith, refl)
auto_name-bounds (some content) =
    let name = abbreviate (without 9 (without 13 (without 10 content))) in
    elim (Bool-cases (is_blank name)) [
      | inl e ↦ rw (e, auto_name) (ground arith, refl)
      | inr e ↦
          rw (e, auto_name) (length-abbreviate (without 9 (without 13 (without 10 content))), e)
    ]
