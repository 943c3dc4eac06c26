-- ===== src/Chat/Sse/Lines.antt =====
-- How AIHelper::executeCurlStream cuts the bytes of a transfer into lines.
use miniaibrowse_cpp.Common.{
  ◌≡◌, inl, inr, refl, sym, ap, ◌∙◌, Bool, not, ◌&&◌, List, [], ◌∷◌, ◌++◌, Bytes, is_empty,
  bytes_key, ℕ_key, ◌==◌, if◌then◌else◌, Bool-cases,
}
use miniaibrowse_cpp.Chat.Sse.{write_data, write_pieces, stream_lines}

abbrev after_end : Bytes × List Bytes → Bytes × List Bytes → Bytes × List Bytes
after_end (buffer, lines) (rest, more) = (rest, lines ++ more)

abbrev pub concat : List Bytes → Bytes
concat [] = []
concat (piece ∷ pieces) = piece ++ concat pieces

abbrev then_write : Bytes → Bytes × List Bytes → Bytes × List Bytes
then_write t (buffer, lines) = ((write_data buffer t).0, lines ++ (write_data buffer t).1)

write_data-append :
    (buffer s t : Bytes) → write_data buffer (s ++ t) ≡ then_write t (write_data buffer s)
unfolding write_data
write_data-append buffer [] t = refl
write_data-append buffer (c ∷ s) t = elim (Bool-cases (c == 10)) [
  | inr e ↦ rw (e, write_data) (write_data-append (buffer ++ c ∷ []) s t)
  | inl e ↦ elim (Bool-cases (is_empty buffer)) [
    | inl f ↦ rw (e, write_data) (rw f (write_data-append [] s t))
    | inr f ↦ rw (e, write_data) (rw f (ap (λ q. (q.0, buffer ∷ q.1)) (write_data-append [] s t)))
  ]
]

write_pieces-concat :
    (buffer : Bytes) (pieces : List Bytes)
    → write_pieces buffer pieces ≡ write_data buffer (concat pieces)
unfolding write_pieces write_data
write_pieces-concat buffer [] = refl
write_pieces-concat buffer (piece ∷ pieces) =
    let q = write_data buffer piece in
    ap (λ r. (r.0, q.1 ++ r.1)) (write_pieces-concat q.0 pieces)
    ∙ sym (write_data-append buffer piece (concat pieces))

-- The lines that the strategy is given do not depend on how the network cut the transfer into pieces: two
-- transfers of the same bytes, both ending well or both failing, give the same lines.
pub stream_lines-concat :
    (ok : Bool) (pieces others : List Bytes)
    → concat pieces ≡ concat others
    → stream_lines ok pieces ≡ stream_lines ok others
unfolding stream_lines
stream_lines-concat ok pieces others same =
    ap (λ q. if ok && not (is_empty q.0) then q.1 ++ q.0 ∷ [] else q.1)
      (write_pieces-concat [] pieces
        ∙ (ap (write_data []) same ∙ sym (write_pieces-concat [] others)))
