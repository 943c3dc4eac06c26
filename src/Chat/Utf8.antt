-- ===== src/Chat/Utf8.antt =====
-- utf8TruncateToChars of AIApps/ChatServer/src/handlers/ChatSessionsHandler.cpp, and the same loop in
-- ChatRenameSessionHandler.cpp.
pub mod Prefix
use miniaibrowse_cpp.Common.{
  ℕ, zero, suc, ◌+◌, ◌/◌, none, some, Bytes, length, get_elem?, ◌==◌, ltb, if◌then◌else◌,
}

-- The bytes that a character takes by its first byte; `c & 0xE0` and its like are read off the quotient.
unfoldable pub step : ℕ → ℕ
step c =
    if ltb c 128
    then 1
    else if c / 32 == 6
    then 2
    else if c / 16 == 14
    then 3
    else if c / 8 == 30
    then 4
    else 1

-- The loop, with `chars` characters still allowed.
unfoldable pub truncate_from : Bytes → ℕ → ℕ → ℕ
truncate_from s zero bytes = bytes
truncate_from s (suc chars) bytes = elim (get_elem? s bytes) [
  | none ↦ bytes
  | some c ↦
      let rest = truncate_from s chars (bytes + step c) in
      if ltb (length s) (bytes + step c) then bytes else rest
]

-- `utf8TruncateToChars`.
unfoldable pub utf8_truncate_to_chars : Bytes → ℕ → ℕ
utf8_truncate_to_chars s max_chars = truncate_from s max_chars 0
