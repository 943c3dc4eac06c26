-- ===== src/Chat/Sql/Rows.antt =====
-- The row that an INSERT statement of pushMessageToMysql adds, read off its text.
use miniaibrowse_cpp.Common.{
  drop-suc-length-append, digits_from, digits_value, to_string_value, digits_value-append,
  to_string-IsDigits, IsDigits, ℕ, zero, suc, ◌==◌, ◌≡◌, refl, ap, ◌∙◌, Bool, true, false, [], ◌∷◌,
  ◌++◌, none, some, Bytes, codes, length, take, drop, find, Lacks, bytes_key, ℕ_key, ℤ, pos, negsuc,
  to_string, to_string_ℤ, if◌then◌else◌, take-length-append, find-append, arith,
}
use miniaibrowse_cpp.Chat.Sql.{escape_string, insert_message_sql}
use miniaibrowse_cpp.Chat.Sql.Literals.{
  read_literal, NoQuote, cons-NoQuote, read_literal-escape_string,
}

-- What stands before the first `c`, and what behind it.
abbrev split_at : ℕ → Bytes → Bytes × Bytes
split_at c s = (take (find c s) s, drop (suc (find c s)) s)

split_at-append : (c : ℕ) (s t : Bytes) → Lacks c s → split_at c (s ++ c ∷ t) ≡ (s, t)
split_at-append c s t h =
    ap (λ n. (take n (s ++ c ∷ t), drop (suc n) (s ++ c ∷ t))) (find-append c s t h)
    ∙ ap (λ l. (l, drop (suc (length s)) (s ++ c ∷ t))) (take-length-append s (c ∷ t))
    ∙ ap (λ l. (s, l)) (drop-suc-length-append s c t)

IsDigits-Lacks : (s : Bytes) → IsDigits s → Lacks 44 s
IsDigits-Lacks [] h = tt
IsDigits-Lacks (c ∷ s) h = (ground arith, IsDigits-Lacks s h.1)

to_string_ℤ-Lacks : (z : ℤ) → Lacks 44 (to_string_ℤ z)
unfolding to_string_ℤ
to_string_ℤ-Lacks (pos n) = IsDigits-Lacks (to_string n) (to_string-IsDigits n)
to_string_ℤ-Lacks (negsuc n) =
    (ground arith, IsDigits-Lacks (to_string (suc n)) (to_string-IsDigits (suc n)))

-- The text of a literal, from behind its first quote, and what follows it.
abbrev literal : Bytes → Bytes × Bytes
literal s = elim (read_literal s) [ none ↦ ([], []) | some r ↦ r ]

-- The row of `chat_message` that a statement adds, its columns in the order of the statement.
pub record SqlRow : Type 0 where
  pub user_id : ℤ
  pub user_name : Bytes
  pub session_id : ℕ
  pub is_user : Bool
  pub content : Bytes
  pub ts : ℕ

literal-escape_string :
    (s rest : Bytes) → NoQuote rest → literal (escape_string s ++ 39 ∷ rest) ≡ (s, rest)
literal-escape_string s rest h = rw (read_literal-escape_string s rest h, literal) refl

abbrev and_time : Bytes × Bytes → Bytes × ℕ
and_time r = (r.0, digits_value 0 (drop 2 r.1))

abbrev and_row : ℤ → Bytes → ℕ → Bool → Bytes → ℕ → SqlRow
and_row user name session is_user content ms = record {
  user_id = user;
  user_name = name;
  session_id = session;
  is_user = is_user;
  content = content;
  ts = ms;
}

abbrev negative : ℕ → ℤ
negative zero = pos 0
negative (suc n) = negsuc n

abbrev read_ℤ : Bytes → ℤ
read_ℤ [] = pos 0
read_ℤ (c ∷ s) = if c == b'-' then negative (digits_value 0 s) else pos (digits_value 0 (c ∷ s))

abbrev bit_of : Bytes → Bool
bit_of [] = false
bit_of (c ∷ s) = c == b'1'

abbrev and_content : ℤ → Bytes → Bytes × Bytes → SqlRow
and_content user name r =
    let q = and_time (literal (drop 5 r.1)) in
    record {
      user_id = user;
      user_name = name;
      session_id = digits_value 0 r.0;
      is_user = bit_of (drop 1 r.1);
      content = q.0;
      ts = q.1;
    }

abbrev from_session : ℤ → Bytes × Bytes → SqlRow
from_session user r = and_content user r.0 (split_at 44 (drop 2 r.1))

abbrev from_name : Bytes × Bytes → SqlRow
from_name r = from_session (read_ℤ r.0) (literal (drop 2 r.1))

-- The values of the six columns, as a reader of the statement finds them: numbers up to the next comma, texts
-- as literals.
unfoldable pub read_row : Bytes → SqlRow
read_row sql = from_name (split_at 44 (drop 82 sql))

IsDigits-read_ℤ : (s : Bytes) → IsDigits s → read_ℤ s ≡ pos (digits_value 0 s)
unfolding digits_value
IsDigits-read_ℤ [] h = refl
IsDigits-read_ℤ (c ∷ s) h = ground arith

read_ℤ-to_string_ℤ : (z : ℤ) → read_ℤ (to_string_ℤ z) ≡ z
unfolding to_string_ℤ
read_ℤ-to_string_ℤ (pos n) =
    IsDigits-read_ℤ (to_string n) (to_string-IsDigits n) ∙ ap pos (to_string_value n)
read_ℤ-to_string_ℤ (negsuc n) = ap negative (to_string_value (suc n))

and_content-append :
    (user : ℤ) (name sid content : Bytes) (bit ms : ℕ)
    → and_content user name (
      sid,
      32 ∷ bit ∷ 44 ∷ 32 ∷ 39 ∷ (escape_string content ++ 39 ∷ 44 ∷ 32 ∷ (to_string ms ++ 41 ∷ [])),
    )
      ≡ record {
        user_id = user;
        user_name = name;
        session_id = digits_value 0 sid;
        is_user = bit == b'1';
        content = content;
        ts = ms;
      }
and_content-append user name sid content bit ms =
    ap (λ (q : Bytes × ℕ). and_row user name (digits_value 0 sid) (bit == b'1') q.0 q.1)
      (ap and_time (literal-escape_string content _ (cons-NoQuote 44 _ (ground arith)))
        ∙ ap (λ n. (content, n))
            (digits_value-append 0 41 (to_string ms) [] refl (to_string-IsDigits ms)
              ∙ to_string_value ms))

one_bit :
    (user : ℤ) (name : Bytes) (is_user : Bool) (content : Bytes) (ms : ℕ) (sid : Bytes)
    → and_content user name (
      sid,
      codes " "
          ++ (to_string (if is_user then 1 else 0)
              ++ (codes ", '"
                  ++ (escape_string content ++ (codes "', " ++ (to_string ms ++ codes ")"))))),
    )
      ≡ record {
        user_id = user;
        user_name = name;
        session_id = digits_value 0 sid;
        is_user = is_user;
        content = content;
        ts = ms;
      }
unfolding to_string digits_from
one_bit user name true content ms sid = and_content-append user name sid content 49 ms
one_bit user name false content ms sid = and_content-append user name sid content 48 ms

pub read_row-insert_message_sql :
    (user : ℤ) (name : Bytes) (is_user : Bool) (content : Bytes) (ms session : ℕ)
    → read_row (insert_message_sql user name is_user content ms (to_string session)) ≡ record {
      user_id = user;
      user_name = name;
      session_id = session;
      is_user = is_user;
      content = content;
      ts = ms;
    }
unfolding read_row insert_message_sql
read_row-insert_message_sql user name is_user content ms session =
    ap from_name (split_at-append 44 (to_string_ℤ user) _ (to_string_ℤ-Lacks user))
    ∙ ap (from_session (read_ℤ (to_string_ℤ user)))
        (literal-escape_string name _ (cons-NoQuote 44 _ (ground arith)))
    ∙ ap (and_content (read_ℤ (to_string_ℤ user)) name) (
        split_at-append 44 (to_string session) _
          (IsDigits-Lacks (to_string session) (to_string-IsDigits session)))
    ∙ one_bit (read_ℤ (to_string_ℤ user)) name is_user content ms (to_string session)
    ∙ ap (λ u. and_row u name (digits_value 0 (to_string session)) is_user content ms)
        (read_ℤ-to_string_ℤ user)
    ∙ ap (λ n. and_row user name n is_user content ms) (to_string_value session)
