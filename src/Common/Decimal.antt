-- ===== src/Common/Decimal.antt =====
-- `std::to_string` and `std::stoi`. Integers are ℤ, where `negsuc n` is -(n + 1).
use Prim.Native.Nat.{ℕ, zero, suc, ◌+◌, ◌-◌, ◌*◌, ◌/◌, ◌%◌, ◌^◌, ◌<◌}
use mathlib.Core.Path.{◌≡◌, refl, ap, ◌∙◌}
use mathlib.Core.Bool.{Bool, true, false}
use mathlib.Core.Option.{Option, none, some}
use mathlib.Core.List.{◌++◌, [], ◌∷◌}
use native.Mathlib.Omega.{arith}
use miniaibrowse_cpp.Common.Tests.{◌==◌, ltb, leb, if◌then◌else◌}
use miniaibrowse_cpp.Common.Lists.{All, is_empty}
use miniaibrowse_cpp.Common.Text.{Bytes, is_space, is_digit}

pub data ℤ : Type 0 where
  pos : ℕ → ℤ
  negsuc : ℕ → ℤ

-- Digits in front of `acc`, the last first; `fuel` above the number is enough.
unfoldable pub digits_from : ℕ → ℕ → Bytes → Bytes
digits_from zero n acc = acc
digits_from (suc fuel) n acc =
    let rest = digits_from fuel (n / 10) ((b'0' + n % 10) ∷ acc) in
    if ltb n 10 then (b'0' + n) ∷ acc else rest

unfoldable pub to_string : ℕ → Bytes
to_string n = digits_from (suc n) n []

unfoldable pub to_string_ℤ : ℤ → Bytes
unfolding to_string
to_string_ℤ (pos n) = to_string n
to_string_ℤ (negsuc n) = b'-' ∷ to_string (suc n)

-- The value of the digits that a text begins with, over `acc`.
unfoldable pub digits_value : ℕ → Bytes → ℕ
digits_value acc [] = acc
digits_value acc (c ∷ s) = if is_digit c then digits_value (acc * 10 + (c - b'0')) s else acc

starts_digit : Bytes → Bool
starts_digit [] = false
starts_digit (c ∷ s) = is_digit c

-- The range of a 32-bit `int`; outside `stoi` throws `out_of_range`.
in_int : Bool → ℕ → Option ℤ
in_int negative n =
    if negative
    then (if leb n 2147483648 then some (elim n [ zero ↦ pos 0 | suc k ↦ negsuc k ]) else none)
    else (if leb n 2147483647 then some (pos n) else none)

-- With no digit `stoi` throws `invalid_argument`.
magnitude : Bool → Bytes → Option ℤ
unfolding starts_digit in_int digits_value
magnitude negative s = if starts_digit s then in_int negative (digits_value 0 s) else none

signed : Bytes → Option ℤ
unfolding magnitude
signed [] = none
signed (c ∷ s) =
    if c == b'-'
    then magnitude true s
    else if c == b'+'
    then magnitude false s
    else magnitude false (c ∷ s)

-- `stoi(s)`; `none` is an exception, whose `what()` is "stoi" for either kind.
unfoldable pub stoi : Bytes → Option ℤ
unfolding signed
stoi [] = none
stoi (c ∷ s) = if is_space c then stoi s else signed (c ∷ s)

-- The conversion of an `int` to `uint64_t`.
unfoldable pub to_uint64 : ℤ → ℕ
to_uint64 (pos n) = n % 2 ^ 64
to_uint64 (negsuc n) = (2 ^ 64 - suc n) % 2 ^ 64

abbrev pub IsDigits : Bytes → Type 0
IsDigits = All (λ c. is_digit c ≡ true)

digits_from-IsDigits :
    (fuel n : ℕ) (acc : Bytes) → n < fuel → IsDigits acc → IsDigits (digits_from fuel n acc)
unfolding digits_from
digits_from-IsDigits zero n acc h k = k
digits_from-IsDigits (suc fuel) n acc h k =
    ground (arith, digits_from-IsDigits fuel (n / 10) ((b'0' + n % 10) ∷ acc))

pub to_string-IsDigits : (n : ℕ) → IsDigits (to_string n)
unfolding to_string
to_string-IsDigits n = digits_from-IsDigits (suc n) n [] (omega arith) tt

-- The digits of `n` in front of a text multiply what stands before them by a power of ten.
digits_from_value :
    (fuel n : ℕ) (acc : Bytes)
    → n < fuel
    → digits_value 0 (digits_from fuel n acc) ≡ digits_value n acc
unfolding digits_from digits_value
digits_from_value zero n acc h = elim h [ ]
digits_from_value (suc fuel) n acc h =
    ground (arith, digits_from_value fuel (n / 10) ((b'0' + n % 10) ∷ acc))

digits_from-starts_digit :
    (fuel n : ℕ) (acc : Bytes) → n < fuel → starts_digit (digits_from fuel n acc) ≡ true
unfolding digits_from starts_digit
digits_from-starts_digit zero n acc h = elim h [ ]
digits_from-starts_digit (suc fuel) n acc h =
    ground (arith, digits_from-starts_digit fuel (n / 10) ((b'0' + n % 10) ∷ acc))

stoi_digits :
    (s : Bytes)
    → starts_digit s ≡ true
    → digits_value 0 s < 2 ^ 31
    → stoi s ≡ some (pos (digits_value 0 s))
unfolding stoi starts_digit signed magnitude in_int
stoi_digits [] h k = ground arith
stoi_digits (c ∷ s) h k = ground arith

pub to_string_value : (n : ℕ) → digits_value 0 (to_string n) ≡ n
unfolding to_string digits_value
to_string_value n = digits_from_value (suc n) n [] (omega arith)

to_string-starts_digit : (n : ℕ) → starts_digit (to_string n) ≡ true
unfolding to_string
to_string-starts_digit n = digits_from-starts_digit (suc n) n [] (omega arith)

-- Reading back a printed number.
pub stoi-to_string : (n : ℕ) → n < 2 ^ 31 → stoi (to_string n) ≡ some (pos n)
stoi-to_string n h =
    stoi_digits (to_string n) (to_string-starts_digit n) (omega (arith, to_string_value n))
    ∙ ap (λ k. some (pos k)) (to_string_value n)

pub to_string-is_empty : (n : ℕ) → is_empty (to_string n) ≡ false
unfolding starts_digit
to_string-is_empty n = go (to_string n) (to_string-starts_digit n)
  where
    go : (s : Bytes) → starts_digit s ≡ true → is_empty s ≡ false
    go [] h = cc
    go (c ∷ s) h = refl

pub to_uint64-pos : (n : ℕ) → n < 2 ^ 31 → to_uint64 (pos n) ≡ n
unfolding to_uint64
to_uint64-pos n h = omega arith

-- A number ends at the first byte that is no digit.
pub digits_value-append :
    (acc c : ℕ) (s t : Bytes)
    → is_digit c ≡ false
    → IsDigits s
    → digits_value acc (s ++ c ∷ t) ≡ digits_value acc s
unfolding digits_value
digits_value-append acc c [] t e h = rw (e, digits_value) refl
digits_value-append acc c (d ∷ s) t e h =
    rw (h.0, digits_value) (digits_value-append (acc * 10 + (d - b'0')) c s t e h.1)
