-- ===== src/Chat/Sse/Frames.antt =====
-- What a reader of JSON finds in the frames that ChatStreamHandler sends.
use miniaibrowse_cpp.Common.{
  Bool, ◌&&◌, ◌||◌, ℕ, zero, suc, ◌+◌, ◌-◌, ◌*◌, ◌/◌, ◌%◌, ◌≤◌, ◌<◌, ◌≡◌, refl, ap, ◌∙◌, true,
  false, [], ◌∷◌, ◌++◌, append_assoc, Option, none, some, Bytes, All, bytes_key, ℕ_key, ◌==◌, ltb,
  leb, if◌then◌else◌, arith,
}
use miniaibrowse_cpp.Session.{hex_digit}
use miniaibrowse_cpp.Chat.Sse.{escape_control, escape_char, escape_for_json}

-- A byte that JSON allows inside a string: no control character.
abbrev Printable : Bytes → Type 0
Printable s = All (λ c. 32 ≤ c) s

Printable-append : (s t : Bytes) → Printable s → Printable t → Printable (s ++ t)
Printable-append [] t h k = k
Printable-append (x ∷ s) t h k = (h.0, Printable-append s t h.1 k)

hex_digit_ge : (d : ℕ) → 32 ≤ hex_digit d
unfolding hex_digit
hex_digit_ge d = ground arith

escape_char-Printable : (c : ℕ) → Printable (escape_char c)
unfolding escape_char escape_control
escape_char-Printable c = ground (arith, hex_digit_ge (c / 16), hex_digit_ge (c % 16))

-- An escaped text holds no control character, and so no end of a line: its frame ends where
-- `ChatStreamHandler` ends it.
pub escape_for_json-Printable : (s : Bytes) → Printable (escape_for_json s)
unfolding escape_for_json
escape_for_json-Printable [] = ground arith
escape_for_json-Printable (c ∷ s) =
    Printable-append (escape_char c) (escape_for_json s) (escape_char-Printable c)
      (escape_for_json-Printable s)

abbrev is_hex : ℕ → Bool
is_hex c = (leb b'0' c && leb c b'9') || ((leb b'a' c && leb c b'f') || (leb b'A' c && leb c b'F'))

abbrev hex_value : ℕ → ℕ
hex_value h = if leb h b'9' then h - b'0' else if leb h b'F' then h - b'A' + 10 else h - b'a' + 10

is_hex-hex_digit : (d : ℕ) → d < 16 → is_hex (hex_digit d) ≡ true
unfolding hex_digit
is_hex-hex_digit d h = ground arith

hex_value-hex_digit : (d : ℕ) → d < 16 → hex_value (hex_digit d) ≡ d
unfolding hex_digit
hex_value-hex_digit d h = ground arith

-- The characters that JSON lets stand behind a backslash, `u` left aside, and what they mean.
unfoldable pub unescaped : ℕ → Option ℕ
unescaped c =
    if c == 34
    then some 34
    else if c == 92
    then some 92
    else if c == 47
    then some 47
    else if c == b'n'
    then some 10
    else if c == b'r'
    then some 13
    else if c == b't'
    then some 9
    else if c == b'b'
    then some 8
    else if c == b'f'
    then some 12
    else none

abbrev more : ℕ → Option (Bytes × Bytes) → Option (Bytes × Bytes)
more c none = none
more c (some (s, rest)) = some (c ∷ s, rest)

-- Where a reader stands in a string: between characters, behind a backslash, or behind `u` with so many
-- digits to come and this value of those that came.
pub data Place : Type 0 where
  between escaped : Place
  digits : ℕ → ℕ → Place

-- A string of JSON behind its opening quote: its value, and the text behind its closing quote; none where it
-- is no valid JSON, or has an escape by number beyond ASCII.
unfoldable pub read_string : Place → Bytes → Option (Bytes × Bytes)
unfolding unescaped
read_string place [] = none
read_string between (c ∷ s) = elim (c == 92) [
  | true ↦ read_string escaped s
  | false ↦
      let rest = read_string between s in
      if c == 34 then some ([], s) else if ltb c 32 then none else more c rest
]
read_string escaped (c ∷ s) = elim (c == b'u') [
  | true ↦ read_string (digits 3 0) s
  | false ↦ elim (unescaped c) [ none ↦ none | some d ↦ more d (read_string between s) ]
]
read_string (digits zero v) (c ∷ s) = elim (is_hex c && ltb (v * 16 + hex_value c) 128) [
  | true ↦ more (v * 16 + hex_value c) (read_string between s)
  | false ↦ none
]
read_string (digits (suc n) v) (c ∷ s) = elim (is_hex c) [
  | true ↦ read_string (digits n (v * 16 + hex_value c)) s
  | false ↦ none
]

read_string-digit :
    (n v d : ℕ) (s : Bytes)
    → d < 16
    → read_string (digits (suc n) v) (hex_digit d ∷ s) ≡ read_string (digits n (v * 16 + d)) s
unfolding read_string
read_string-digit n v d s h =
    rw (is_hex-hex_digit d h, read_string)
      (ap (λ x. read_string (digits n (v * 16 + x)) s) (hex_value-hex_digit d h))

read_string_last_digit :
    (v d : ℕ) (s : Bytes)
    → d < 16
    → v * 16 + d < 128
    → read_string (digits zero v) (hex_digit d ∷ s) ≡ more (v * 16 + d) (read_string between s)
unfolding read_string
read_string_last_digit v d s h l =
    let ok : (is_hex (hex_digit d) && ltb (v * 16 + hex_value (hex_digit d)) 128) ≡ true =
      ground (arith, is_hex-hex_digit d h, hex_value-hex_digit d h) in
    rw (ok, read_string)
      (ap (λ x. more (v * 16 + x) (read_string between s)) (hex_value-hex_digit d h))

read_string-control :
    (c : ℕ) (s : Bytes)
    → c < 32
    → read_string between (escape_control c ++ s) ≡ more c (read_string between s)
unfolding read_string escape_control
read_string-control c s h =
    read_string-digit 0 0 (c / 16) (hex_digit (c % 16) ∷ s) (omega arith)
    ∙ read_string_last_digit (0 * 16 + c / 16) (c % 16) s (omega arith) (omega arith)
    ∙ ap (λ x. more x (read_string between s)) (omega arith)

read_string-escape_char :
    (c : ℕ) (s : Bytes) → read_string between (escape_char c ++ s) ≡ more c (read_string between s)
unfolding escape_char read_string unescaped
read_string-escape_char c s = ground (arith, read_string-control c s)

-- A strict reader of JSON that finds a text escaped by `escapeForJson` between quotes reads this text, and goes on
-- behind the closing quote.
pub read_string-escape_for_json :
    (s rest : Bytes) → read_string between (escape_for_json s ++ 34 ∷ rest) ≡ some (s, rest)
unfolding escape_for_json read_string
read_string-escape_for_json [] rest = refl
read_string-escape_for_json (c ∷ s) rest =
    ap (read_string between) (append_assoc (escape_char c) (escape_for_json s) (34 ∷ rest))
    ∙ (read_string-escape_char c (escape_for_json s ++ 34 ∷ rest)
        ∙ ap (more c) (read_string-escape_for_json s rest))
