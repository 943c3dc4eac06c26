-- ===== src/Chat/Conversation/Popped.antt =====
-- What is left of a list after two messages were taken off behind the results of tool calls.
use miniaibrowse_cpp.Common.{
  ℕ, suc, ◌≡◌, refl, ap, ◌∙◌, List, [], ◌∷◌, ◌++◌, append_assoc, length, bytes_key, ℕ_key, arith,
}
use miniaibrowse_cpp.Chat.Helper.{but_last}

but_last-append_cons :
    {A : Type 0} (xs ys : List A) (y : A) → but_last (xs ++ y ∷ ys) ≡ xs ++ but_last (y ∷ ys)
but_last-append_cons [] ys y = refl
but_last-append_cons (x ∷ []) ys y = refl
but_last-append_cons (x ∷ z ∷ xs) ys y = ap (λ l. x ∷ l) (but_last-append_cons (z ∷ xs) ys y)

length-but_last : {A : Type 0} (ys : List A) (y : A) → length (but_last (y ∷ ys)) ≡ length ys
length-but_last [] y = refl
length-but_last (z ∷ ys) y = ap suc (length-but_last ys z)

but_last-cons : {A : Type 0} (ys : List A) (y z : A) → but_last (y ∷ z ∷ ys) ≡ y ∷ but_last (z ∷ ys)
but_last-cons ys y z = refl

-- Two messages taken off behind `xs`, when three or more, or just two, follow it.
pop_two :
    {A : Type 0} (xs ys : List A) (y z : A)
    → (left : List A) × (but_last (but_last (xs ++ y ∷ z ∷ ys)) ≡ xs ++ left)
      × (length left ≡ length ys)
pop_two xs [] y z =
    ([], ap but_last (but_last-append_cons xs (z ∷ []) y) ∙ but_last-append_cons xs [] y, refl)
pop_two xs (w ∷ ys) y z = (
  y ∷ but_last (but_last (z ∷ w ∷ ys)),
  ap but_last (but_last-append_cons xs (z ∷ w ∷ ys) y)
      ∙ but_last-append_cons xs (z ∷ but_last (w ∷ ys)) y,
  ap suc (length-but_last (but_last (w ∷ ys)) z ∙ length-but_last ys w),
)

-- The question, the call and its results: with two taken off, the question and all results but one are left.
pub question_left :
    {A : Type 0} (before results : List A) (question prompt : A) (n : ℕ)
    → length results ≡ suc n
    → (left : List A) × (but_last (but_last (((before ++ question ∷ []) ++ prompt ∷ []) ++ results))
        ≡ before ++ question ∷ left)
      × (length left ≡ n)
question_left before [] question prompt n e = absurd (ground arith)
question_left before (r ∷ results) question prompt n e =
    let (left, m, k) = pop_two (before ++ question ∷ []) results prompt r in
    (
      left,
      ap (λ l. but_last (but_last l))
            (append_assoc (before ++ question ∷ []) (prompt ∷ []) (r ∷ results))
          ∙ m
          ∙ append_assoc before (question ∷ []) left,
      k ∙ ground arith,
    )
