-- ===== src/Common/Text.antt =====
-- `std::string` as the list of its bytes, and the searches of <algorithm> and <string> on it.
use Prim.Native.Nat.{ℕ, suc, ◌+◌, ◌/◌, ◌%◌, ◌≤◌, ◌<◌}
use Prim.Native.Char.{code}
use Prim.Native.String.{String}
use mathlib.Core.Path.{◌≡◌, refl}
use mathlib.Core.Logic.{◌↔◌, ◌≢◌}
use mathlib.Core.Bool.{Bool, true, false, ◌&&◌, ◌||◌}
use mathlib.Core.List.{List, [], ◌∷◌, ◌++◌}
use mathlib.Core.Option.{Option, none, some}
use native.Mathlib.Omega.{arith}
use miniaibrowse_cpp.Common.Tests.{◌==◌, ltb, leb, if◌then◌else◌}
use miniaibrowse_cpp.Common.Lists.{length, All}

abbrev pub Bytes : Type 0
Bytes = List ℕ

-- The bytes of an ASCII literal.
abbrev pub codes : String → Bytes
codes String.[] = []
codes (String.◌∷◌ c s) = code c ∷ codes s

-- The bytes of a code point, and of a literal that is not ASCII.
abbrev pub utf8_char : ℕ → Bytes
utf8_char c =
    if ltb c 128
    then c ∷ []
    else if ltb c 2048
    then (192 + c / 64) ∷ (128 + c % 64) ∷ []
    else if ltb c 65536
    then (224 + c / 4096) ∷ (128 + c / 64 % 64) ∷ (128 + c % 64) ∷ []
    else (240 + c / 262144) ∷ (128 + c / 4096 % 64) ∷ (128 + c / 64 % 64) ∷ (128 + c % 64) ∷ []

abbrev pub utf8 : String → Bytes
utf8 String.[] = []
utf8 (String.◌∷◌ c s) = utf8_char (code c) ++ utf8 s

unfoldable pub bytes_eq : Bytes → Bytes → Bool
bytes_eq [] [] = true
bytes_eq [] (y ∷ ys) = false
bytes_eq (x ∷ xs) [] = false
bytes_eq (x ∷ xs) (y ∷ ys) = x == y && bytes_eq xs ys

pub bytes_eq_iff : (xs ys : Bytes) → (bytes_eq xs ys ≡ true) ↔ (xs ≡ ys)
unfolding bytes_eq
bytes_eq_iff [] [] = ground arith
bytes_eq_iff [] (y ∷ ys) = ground arith
bytes_eq_iff (x ∷ xs) [] = ground arith
bytes_eq_iff (x ∷ xs) (y ∷ ys) = ground (arith, bytes_eq_iff xs ys)

-- `operator<` of std::string: lexicographic.
unfoldable pub bytes_lt : Bytes → Bytes → Bool
bytes_lt [] [] = false
bytes_lt [] (y ∷ ys) = true
bytes_lt (x ∷ xs) [] = false
bytes_lt (x ∷ xs) (y ∷ ys) = ltb x y || (x == y && bytes_lt xs ys)

-- `std::find(first, last, c)` as the offset from `first`; at `last` it is the length.
unfoldable pub find : ℕ → Bytes → ℕ
find c [] = 0
find c (x ∷ xs) = if x == c then 0 else suc (find c xs)

-- `s.find(c)`; `none` is `npos`.
unfoldable pub find? : ℕ → Bytes → Option ℕ
unfolding find
find? c s = if ltb (find c s) (length s) then some (find c s) else none

abbrev pub Lacks : ℕ → Bytes → Type 0
Lacks c s = All (λ x. x ≢ c) s

pub find-le : (c : ℕ) (s : Bytes) → find c s ≤ length s
unfolding find
find-le c [] = omega arith
find-le c (x ∷ xs) = ground (arith, find-le c xs)

-- The first occurrence, read off from a text that is split there.
pub find-append : (c : ℕ) (s t : Bytes) → Lacks c s → find c (s ++ c ∷ t) ≡ length s
unfolding find
find-append c [] t h = ground arith
find-append c (x ∷ s) t h = ground (arith, find-append c s t h.1)

pub find_absent : (c : ℕ) (s : Bytes) → Lacks c s → find c s ≡ length s
unfolding find
find_absent c [] h = refl
find_absent c (x ∷ s) h = ground (arith, find_absent c s h.1)

-- A search that succeeds in a prefix gives the same place in the whole.
pub find-prefix : (c : ℕ) (s t : Bytes) → find c s < length s → find c (s ++ t) ≡ find c s
unfolding find
find-prefix c [] t h = elim h [ ]
find-prefix c (x ∷ s) t h = ground (arith, find-prefix c s t)

-- `isspace` in the "C" locale.
abbrev pub is_space : ℕ → Bool
is_space c = c == 32 || (leb 9 c && leb c 13)

-- `isdigit`.
abbrev pub is_digit : ℕ → Bool
is_digit c = leb b'0' c && leb c b'9'

pub Lacks-append : (c : ℕ) (s t : Bytes) → Lacks c s → Lacks c t → Lacks c (s ++ t)
Lacks-append c [] t h k = k
Lacks-append c (x ∷ s) t h k = (h.0, Lacks-append c s t h.1 k)
