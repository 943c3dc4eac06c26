-- ===== src/Chat/Sse.antt =====
-- The event stream of AIApps/ChatServer: `escapeForJson`, `onChunk` and the thread of
-- src/handlers/ChatStreamHandler.cpp, and the line buffer of AIHelper::executeCurlStream in
-- src/AIUtil/AIHelper.cpp. What the strategy reads off a line is a parameter.
pub mod Frames
pub mod Lines
pub mod Reply
use miniaibrowse_cpp.Common.{
  ℕ, ◌/◌, ◌%◌, Bool, true, false, not, ◌&&◌, List, [], ◌∷◌, ◌++◌, Option, none, some, Bytes, codes,
  is_empty, bytes_eq, bytes_key, ℕ_key, ◌==◌, ltb, if◌then◌else◌,
}
use miniaibrowse_cpp.Http.Response.{Effect, send, shutdown}
use miniaibrowse_cpp.Session.{hex_digit}

abbrev backslash : ℕ → Bytes
backslash c = 92 ∷ c ∷ []

-- `snprintf` with a `u` behind a backslash and `%04x`, below 32.
unfoldable pub escape_control : ℕ → Bytes
escape_control c = 92 ∷ b'u' ∷ b'0' ∷ b'0' ∷ hex_digit (c / 16) ∷ hex_digit (c % 16) ∷ []

unfoldable pub escape_char : ℕ → Bytes
escape_char c =
    if c == 34
    then backslash 34
    else if c == 92
    then backslash 92
    else if c == 10
    then backslash b'n'
    else if c == 13
    then backslash b'r'
    else if c == 9
    then backslash b't'
    else if c == 8
    then backslash b'b'
    else if c == 12
    then backslash b'f'
    else if ltb c 32
    then escape_control c
    else c ∷ []

unfoldable pub escape_for_json : Bytes → Bytes
escape_for_json [] = []
escape_for_json (c ∷ s) = escape_char c ++ escape_for_json s

-- `data: {"name": "text"}` and an empty line.
unfoldable pub frame : Bytes → Bytes → Bytes
frame name text =
    codes "data: {"
    ++ (34 ∷ (name ++ (34 ∷ (codes ": " ++ (34 ∷ (text ++ (34 ∷ (codes "}" ++ (10 ∷ 10 ∷ [])))))))))

-- `onChunk`: `fullReply`, and what is sent.
unfoldable pub on_chunk : Bytes → Bytes → Bytes → Bytes × List Effect
unfolding frame
on_chunk full_reply kind text =
    if is_empty text
    then (full_reply, [])
    else if bytes_eq kind (codes "reasoning")
    then (full_reply, send (frame (codes "reasoning") (escape_for_json text)) ∷ [])
    else if bytes_eq kind (codes "content")
    then (full_reply ++ text, send (frame (codes "content") (escape_for_json text)) ∷ [])
    else if bytes_eq kind (codes "error")
    then (full_reply, send (frame (codes "error") (escape_for_json text)) ∷ [])
    else (full_reply, [])

-- `WRITEFUNCTION` on one piece: the line buffer behind it, and the lines handed to the strategy.
unfoldable pub write_data : Bytes → Bytes → Bytes × List Bytes
write_data line_buffer [] = (line_buffer, [])
write_data line_buffer (c ∷ contents) = elim (c == 10) [
  | true ↦
      let (rest, lines) = write_data [] contents in
      if is_empty line_buffer then (rest, lines) else (rest, line_buffer ∷ lines)
  | false ↦ write_data (line_buffer ++ c ∷ []) contents
]

unfoldable pub write_pieces : Bytes → List Bytes → Bytes × List Bytes
write_pieces line_buffer [] = (line_buffer, [])
write_pieces line_buffer (piece ∷ pieces) =
    let (buffer, lines) = write_data line_buffer piece in
    let (rest, more) = write_pieces buffer pieces in (rest, lines ++ more)

-- The lines parsed when the transfer brought `pieces`; the last one may lack its end when the transfer
-- succeeded.
unfoldable pub stream_lines : Bool → List Bytes → List Bytes
stream_lines ok pieces =
    let (buffer, lines) = write_pieces [] pieces in
    if ok && not (is_empty buffer) then lines ++ buffer ∷ [] else lines

unfoldable pub on_chunks : Bytes → List (Bytes × Bytes) → Bytes × List Effect
on_chunks full_reply [] = (full_reply, [])
on_chunks full_reply ((kind, text) ∷ chunks) =
    let (reply, sent) = on_chunk full_reply kind text in
    let (last, more) = on_chunks reply chunks in (last, sent ++ more)

abbrev pub all_chunks : (Bytes → List (Bytes × Bytes)) → List Bytes → List (Bytes × Bytes)
all_chunks parse [] = []
all_chunks parse (line ∷ lines) = parse line ++ all_chunks parse lines

-- The error of a transfer is the text of the exception that `executeCurlStream` throws.
abbrev pub error_frame : Option Bytes → List Effect
error_frame none = []
error_frame (some what) = send (frame (codes "error") what) ∷ []

abbrev pub succeeded : Option Bytes → Bool
succeeded none = true
succeeded (some what) = false

-- The frame that ends a stream.
abbrev pub done_frame : Bytes
done_frame = codes "data: [DONE]" ++ (10 ∷ 10 ∷ [])

-- The thread: the assistant's message that it adds, and what it does to the connection. `placeholder` is
-- the message stored for a failed stream.
unfoldable pub run_stream :
    (Bytes → List (Bytes × Bytes)) → Bytes → Option Bytes → List Bytes → Bytes × List Effect
unfolding frame
run_stream parse placeholder failure pieces =
    let (full_reply, sent) =
      on_chunks [] (all_chunks parse (stream_lines (succeeded failure) pieces)) in
    (
      if is_empty full_reply then placeholder else full_reply,
      sent ++ (error_frame failure ++ send done_frame ∷ shutdown ∷ []),
    )
