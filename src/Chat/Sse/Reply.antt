-- ===== src/Chat/Sse/Reply.antt =====
-- Which message the thread of ChatStreamHandler adds for the assistant.
use miniaibrowse_cpp.Common.{
  ℕ, ◌≡◌, inl, inr, refl, sym, ap, subst, ◌∙◌, List, [], ◌∷◌, ◌++◌, append_assoc, append-nil,
  Option, Bytes, codes, is_empty, bytes_eq, bytes_eq_iff, bytes_key, ℕ_key, if◌then◌else◌,
  Bool-cases, arith,
}
use miniaibrowse_cpp.Chat.Sse.{on_chunk, on_chunks, all_chunks, stream_lines, succeeded, run_stream}

-- The texts of the chunks of kind `content`, in order.
unfoldable pub content_of : List (Bytes × Bytes) → Bytes
content_of [] = []
content_of ((kind, text) ∷ chunks) =
    if bytes_eq kind (codes "content") then text ++ content_of chunks else content_of chunks

content_chunk :
    (reply : Bytes) (c : ℕ) (text : Bytes)
    → (on_chunk reply (codes "content") (c ∷ text)).0
      ≡ (if bytes_eq (codes "content") (codes "content") then reply ++ c ∷ text else reply)
unfolding on_chunk bytes_eq
content_chunk reply c text = refl

on_chunk-content :
    (reply kind text : Bytes)
    → (on_chunk reply kind text).0
      ≡ (if bytes_eq kind (codes "content") then reply ++ text else reply)
unfolding on_chunk
on_chunk-content reply kind [] = ground (arith, append-nil reply)
on_chunk-content reply kind (c ∷ text) = elim (Bool-cases (bytes_eq kind (codes "content"))) [
  | inl e ↦
      let is_content : kind ≡ codes "content" = (bytes_eq_iff kind (codes "content")).0 e in
      subst
        (λ k.
          (on_chunk reply k (c ∷ text)).0
          ≡ (if bytes_eq k (codes "content") then reply ++ c ∷ text else reply))
        (sym is_content) (content_chunk reply c text)
  | inr e ↦ ground arith
]

on_chunks-content :
    (reply : Bytes) (chunks : List (Bytes × Bytes))
    → (on_chunks reply chunks).0 ≡ reply ++ content_of chunks
unfolding on_chunks content_of
on_chunks-content reply [] = sym (append-nil reply)
on_chunks-content reply ((kind, text) ∷ chunks) =
    on_chunks-content (on_chunk reply kind text).0 chunks
    ∙ (ap (λ r. r ++ content_of chunks) (on_chunk-content reply kind text)
        ∙ elim (Bool-cases (bytes_eq kind (codes "content"))) [
          | inl e ↦ rw e (append_assoc reply text (content_of chunks))
          | inr e ↦ rw e refl
        ])

-- Each stream adds one message for the assistant: the texts of its chunks of kind `content`, in order, or,
-- when there are none, the placeholder. Reasoning, errors and a failed transfer do not enter into it.
pub run_stream-reply :
    (parse : Bytes → List (Bytes × Bytes)) (placeholder : Bytes) (failure : Option Bytes)
    (pieces : List Bytes)
    → let said = content_of (all_chunks parse (stream_lines (succeeded failure) pieces)) in
      (run_stream parse placeholder failure pieces).0
      ≡ (if is_empty said then placeholder else said)
unfolding run_stream
run_stream-reply parse placeholder failure pieces =
    ap (λ r. if is_empty r then placeholder else r)
      (on_chunks-content [] (all_chunks parse (stream_lines (succeeded failure) pieces)))
