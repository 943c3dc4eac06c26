-- ===== src/Chat/Sql/Literals.antt =====
-- What MySQL reads where AIHelper::escapeString and ChatRegisterHandler write a string literal.
use miniaibrowse_cpp.Common.{
  ℕ, ◌≡◌, ◌≢◌, inl, inr, refl, ap, ◌∙◌, true, false, [], ◌∷◌, ◌++◌, append_assoc, Option, none,
  some, Bytes, drop, Lacks, bytes_key, ℕ_key, ◌==◌, if◌then◌else◌, Bool-cases, arith,
}
use miniaibrowse_cpp.Chat.Sql.{escape_char, escape_string, user_exist_sql}

-- The character that a backslash and `c` stand for.
unfoldable pub unescaped : ℕ → ℕ
unescaped c =
    if c == b'n'
    then 10
    else if c == b'r'
    then 13
    else if c == b't'
    then 9
    else if c == b'0'
    then 0
    else if c == b'b'
    then 8
    else if c == b'Z'
    then 26
    else c

abbrev more : ℕ → Option (Bytes × Bytes) → Option (Bytes × Bytes)
more c none = none
more c (some (s, rest)) = some (c ∷ s, rest)

-- A literal of MySQL behind its opening quote: its value, and the text behind its closing quote. Two
-- quotes are one character of the value.
unfoldable pub read_literal : Bytes → Option (Bytes × Bytes)
read_literal [] = none
read_literal (c ∷ []) = if c == 39 then some ([], []) else none
read_literal (c ∷ d ∷ s) = elim (c == 92) [
  | true ↦ more (unescaped d) (read_literal s)
  | false ↦ elim (c == 39) [
    | true ↦ elim (d == 39) [ true ↦ more 39 (read_literal s) | false ↦ some ([], d ∷ s) ]
    | false ↦ more c (read_literal (d ∷ s))
  ]
]

abbrev pub NoQuote : Bytes → Type 0
NoQuote s = (t : Bytes) → s ≢ 39 ∷ t

abbrev first_or : ℕ → Bytes → ℕ
first_or d [] = d
first_or d (c ∷ s) = c

pub cons-NoQuote : (c : ℕ) (s : Bytes) → c ≢ 39 → NoQuote (c ∷ s)
cons-NoQuote c s h t e = h (ap (first_or 0) e)

read_literal-close : (rest : Bytes) → NoQuote rest → read_literal (39 ∷ rest) ≡ some ([], rest)
unfolding read_literal
read_literal-close [] h = refl
read_literal-close (d ∷ s) h = elim (Bool-cases (d == 39)) [
  | inl e ↦ let is_quote : d ≡ 39 = ground arith in elim (h s (ap (λ x. x ∷ s) is_quote)) [ ]
  | inr e ↦ rw (e, read_literal) refl
]

read_literal-backslash :
    (d : ℕ) (s : Bytes) → read_literal (92 ∷ d ∷ s) ≡ more (unescaped d) (read_literal s)
unfolding read_literal
read_literal-backslash d s = refl

-- A byte that is neither a backslash nor a quote stands for itself, whatever follows.
read_literal-plain :
    (c : ℕ) (s : Bytes) → c ≢ 92 → c ≢ 39 → read_literal (c ∷ s) ≡ more c (read_literal s)
unfolding read_literal
read_literal-plain c [] b q = ground arith
read_literal-plain c (d ∷ s) b q =
    let nb : (c == 92) ≡ false = ground arith in
    let nq : (c == 39) ≡ false = ground arith in rw (nb, read_literal) (rw nq refl)

read_literal-escape_char :
    (c : ℕ) (s : Bytes) → read_literal (escape_char c ++ s) ≡ more c (read_literal s)
unfolding escape_char unescaped
read_literal-escape_char c s = elim (Bool-cases (c == 92)) [
  | inl e ↦ rw e (read_literal-backslash 92 s ∙ ap (λ x. more x (read_literal s)) (ground arith))
  | inr e ↦ elim (Bool-cases (c == 39)) [
    | inl f ↦
        rw (e, f) (read_literal-backslash 39 s ∙ ap (λ x. more x (read_literal s)) (ground arith))
    | inr f ↦ ground (
      arith,
      read_literal-backslash 34 s,
      read_literal-backslash b'n' s,
      read_literal-backslash b'r' s,
      read_literal-backslash b't' s,
      read_literal-plain c s,
    )
  ]
]

-- Where a text escaped by `escapeString` stands between quotes, and no third quote follows, MySQL reads
-- this text and nothing behind it: no text ends its literal early.
pub read_literal-escape_string :
    (s rest : Bytes) → NoQuote rest → read_literal (escape_string s ++ 39 ∷ rest) ≡ some (s, rest)
unfolding escape_string
read_literal-escape_string [] rest h = read_literal-close rest h
read_literal-escape_string (c ∷ s) rest h =
    ap read_literal (append_assoc (escape_char c) (escape_string s) (39 ∷ rest))
    ∙ (read_literal-escape_char c (escape_string s ++ 39 ∷ rest)
        ∙ ap (more c) (read_literal-escape_string s rest h))

read_literal-unescaped :
    (s payload : Bytes)
    → Lacks 39 s
    → Lacks 92 s
    → NoQuote payload
    → read_literal (s ++ 39 ∷ payload) ≡ some (s, payload)
read_literal-unescaped [] payload q b h = read_literal-close payload h
read_literal-unescaped (c ∷ s) payload q b h =
    read_literal-plain c (s ++ 39 ∷ payload) b.0 q.0
    ∙ ap (more c) (read_literal-unescaped s payload q.1 b.1 h)

-- `isUserExist` does not escape the name: a name with a quote in it ends the literal there, and the rest of
-- the name stands in the statement as SQL. `s` is the name up to its first quote and has no backslash, and
-- no second quote follows the first.
pub user_exist_sql-injected :
    (s payload : Bytes)
    → Lacks 39 s
    → Lacks 92 s
    → NoQuote (payload ++ 39 ∷ [])
    → read_literal (drop 39 (user_exist_sql (s ++ 39 ∷ payload))) ≡ some (s, payload ++ 39 ∷ [])
unfolding user_exist_sql
user_exist_sql-injected s payload q b h =
    ap read_literal (append_assoc s (39 ∷ payload) (39 ∷ []))
    ∙ read_literal-unescaped s (payload ++ 39 ∷ []) q b h
