-- ===== src/Chat/Strategy/Streaming.antt =====
-- From the bytes that a language model streams to the message that is stored.
use miniaibrowse_cpp.Common.{
  ◌≡◌, refl, sym, ap, ◌∙◌, true, false, List, [], ◌∷◌, ◌++◌, append_assoc, append-nil, Option, none,
  some, Bytes, codes, is_empty, All, bytes_eq, Lacks, Lacks-append, bytes_key, ℕ_key, ◌==◌,
  if◌then◌else◌, arith,
}
use miniaibrowse_cpp.Chat.Json.{JsonLibrary}
use miniaibrowse_cpp.Chat.Strategy.{
  sse_prefix, first_choice, chunk_of, choice_chunks, frame_chunks, parse_response_streaming,
}
use miniaibrowse_cpp.Chat.Sse.{write_data, write_pieces, stream_lines, all_chunks, run_stream}
use miniaibrowse_cpp.Chat.Sse.Lines.{concat, stream_lines-concat}
use miniaibrowse_cpp.Chat.Sse.Reply.{content_of, run_stream-reply}

-- The lines of a transfer, each with its end.
abbrev pub print_lines : List Bytes → Bytes
print_lines [] = []
print_lines (line ∷ lines) = line ++ 10 ∷ print_lines lines

-- A line that is passed on: it has no end of a line in it and is not empty.
abbrev pub IsLine : Bytes → Type 0
IsLine line = Lacks 10 line × (is_empty line ≡ false)

write_data-line :
    (buffer line rest : Bytes)
    → Lacks 10 line
    → is_empty (buffer ++ line) ≡ false
    → write_data buffer (line ++ 10 ∷ rest)
      ≡ ((write_data [] rest).0, (buffer ++ line) ∷ (write_data [] rest).1)
unfolding write_data
write_data-line buffer [] rest h full =
    let whole = append-nil buffer in
    let some_byte : is_empty buffer ≡ false = ap is_empty (sym whole) ∙ full in
    rw some_byte (ap (λ b. ((write_data [] rest).0, b ∷ (write_data [] rest).1)) (sym whole))
write_data-line buffer (c ∷ line) rest h full =
    let other : (c == 10) ≡ false = ground arith in
    let moved = append_assoc buffer (c ∷ []) line in
    rw (other, write_data)
      (write_data-line (buffer ++ c ∷ []) line rest h.1 (ap is_empty moved ∙ full)
        ∙ ap (λ b. ((write_data [] rest).0, b ∷ (write_data [] rest).1)) moved)

write_data-print_lines :
    (lines : List Bytes) → All IsLine lines → write_data [] (print_lines lines) ≡ ([], lines)
unfolding write_data
write_data-print_lines [] h = refl
write_data-print_lines (line ∷ lines) h =
    write_data-line [] line (print_lines lines) h.0.0 h.0.1
    ∙ ap (λ q. (q.0, line ∷ q.1)) (write_data-print_lines lines h.1)

stream_lines-print_lines :
    (lines : List Bytes) → All IsLine lines → stream_lines true (print_lines lines ∷ []) ≡ lines
unfolding stream_lines write_pieces
stream_lines-print_lines lines h =
    rw (write_data-print_lines lines h, stream_lines, write_pieces) (append-nil lines)

module _ (J : JsonLibrary) (getenv : Bytes → Option Bytes) where
  open J use {Value, parse, member, elements, get_text, is_null, has_none}

  -- A frame of a stream that brings a piece of the answer, and nothing else.
  pub record Brings (json_str text : Bytes) : Type 0 where
    pub choice : Value
    pub delta : Value
    pub content : Value
    pub frame : Value
    pub parsed : parse json_str ≡ some frame
    pub chosen : first_choice J getenv frame ≡ some (some choice)
    pub unfinished : member (codes "finish_reason") choice ≡ none
    pub has_delta : member (codes "delta") choice ≡ some delta
    pub no_reasoning : member (codes "reasoning_content") delta ≡ none
    pub has_content : member (codes "content") delta ≡ some content
    pub content_null : is_null content ≡ false
    pub content_text : get_text content ≡ some text
    pub not_done : bytes_eq json_str (codes "[DONE]") ≡ false

  choice_chunks-Brings :
      (json_str text : Bytes) (b : Brings json_str text)
      → choice_chunks J getenv b.choice ≡ chunk_of J getenv (codes "content") text
  unfolding choice_chunks bytes_eq
  choice_chunks-Brings json_str text b =
      rw (b.unfinished, choice_chunks)
        (rw b.has_delta
          (rw (b.no_reasoning) (rw b.has_content (rw b.content_null (rw b.content_text refl)))))

  parse_response_streaming-Brings :
      (json_str text : Bytes) (b : Brings json_str text)
      → parse_response_streaming J getenv (sse_prefix J getenv ++ json_str)
        ≡ chunk_of J getenv (codes "content") text
  unfolding parse_response_streaming
  parse_response_streaming-Brings json_str text b =
      rw (b.not_done, parse_response_streaming)
        (rw b.parsed (rw (b.chosen, frame_chunks) (choice_chunks-Brings json_str text b)))

  content_of-chunk_of :
      (text : Bytes) (rest : List (Bytes × Bytes))
      → content_of (chunk_of J getenv (codes "content") text ++ rest) ≡ text ++ content_of rest
  unfolding content_of bytes_eq
  content_of-chunk_of [] rest = refl
  content_of-chunk_of (c ∷ text) rest = refl

  -- The data of a stream: each frame's text in JSON, with the piece of the answer that it brings.
  abbrev pub data_lines : List (Bytes × Bytes) → List Bytes
  data_lines [] = []
  data_lines ((json_str, text) ∷ frames) = (sse_prefix J getenv ++ json_str) ∷ data_lines frames

  abbrev pub texts : List (Bytes × Bytes) → Bytes
  texts [] = []
  texts ((json_str, text) ∷ frames) = text ++ texts frames

  abbrev pub IsFrame : Bytes × Bytes → Type 0
  IsFrame (json_str, text) = Lacks 10 json_str × Brings json_str text

  content_of-data_lines :
      (frames : List (Bytes × Bytes))
      → All IsFrame frames
      → content_of (all_chunks (parse_response_streaming J getenv) (data_lines frames))
        ≡ texts frames
  unfolding content_of
  content_of-data_lines [] h = refl
  content_of-data_lines ((json_str, text) ∷ frames) h =
      let rest = all_chunks (parse_response_streaming J getenv) (data_lines frames) in
      ap (λ c. content_of (c ++ rest)) (parse_response_streaming-Brings json_str text h.0.1)
      ∙ (content_of-chunk_of text rest ∙ ap (λ t. text ++ t) (content_of-data_lines frames h.1))

  data_lines-IsLine :
      (frames : List (Bytes × Bytes)) → All IsFrame frames → All IsLine (data_lines frames)
  data_lines-IsLine [] h = ground arith
  data_lines-IsLine ((json_str, text) ∷ frames) h = (
    (Lacks-append 10 (sse_prefix J getenv) json_str (ground arith) h.0.0, refl),
    data_lines-IsLine frames h.1,
  )

  -- A language model streams its answer in frames, each on a line of its own behind "data: ", and a transfer
  -- that succeeds brings these lines cut into any pieces. Then the message stored for the assistant is the
  -- whole answer, the texts of the frames in order, or the placeholder if they are all empty. Each frame is
  -- JSON that the library reads, without an end of a line, without a reasoning and a reason to finish.
  pub run_stream-data_lines :
      (placeholder : Bytes) (frames : List (Bytes × Bytes)) (pieces : List Bytes)
      → All IsFrame frames
      → concat pieces ≡ print_lines (data_lines frames)
      → (run_stream (parse_response_streaming J getenv) placeholder none pieces).0
        ≡ (if is_empty (texts frames) then placeholder else texts frames)
  run_stream-data_lines placeholder frames pieces h same =
      let one = print_lines (data_lines frames) in
      let lines =
        stream_lines-concat true pieces (one ∷ []) (same ∙ sym (append-nil one))
        ∙ stream_lines-print_lines (data_lines frames) (data_lines-IsLine frames h) in
      run_stream-reply (parse_response_streaming J getenv) placeholder none pieces
      ∙ ap (λ said. if is_empty said then placeholder else said)
          (ap (λ ls. content_of (all_chunks (parse_response_streaming J getenv) ls)) lines
            ∙ content_of-data_lines frames h)
