-- ===== src/Http/Buffer.antt =====
-- What HttpContext.cpp uses of `muduo::net::Buffer`, which is not part of the repository: the bytes
-- between `peek()` and `beginWrite()`, the place of the first CRLF among them, and `retrieve`.
use miniaibrowse_cpp.Common.{
  ℕ, suc, ◌≤◌, ◌≡◌, refl, ◌&&◌, [], ◌∷◌, Option, none, some, Bytes, length, drop, ◌==◌,
  if◌then◌else◌,
}
use mathlib.Core.Option

-- The offset of the first CRLF.
unfoldable pub crlf_at : Bytes → Option ℕ
crlf_at [] = none
crlf_at (x ∷ []) = none
crlf_at (x ∷ y ∷ s) = if x == 13 && y == 10 then some 0 else Option.map suc (crlf_at (y ∷ s))

pub record Buffer : Type 1 where
  pub Buf : Type 0
  pub readable : Buf → Bytes
  pub find_crlf : Buf → Option ℕ
  pub retrieve : ℕ → Buf → Buf
  pub find_crlf_lem : (b : Buf) → find_crlf b ≡ crlf_at (readable b)
  pub readable-retrieve :
      (n : ℕ) (b : Buf) → n ≤ length (readable b) → readable (retrieve n b) ≡ drop n (readable b)

-- A buffer that is just its readable bytes.
abbrev pub bytes_buffer : Buffer
bytes_buffer = record {
  Buf = Bytes;
  readable = λ b. b;
  find_crlf = crlf_at;
  retrieve = drop;
  find_crlf_lem = λ b. refl;
  readable-retrieve = λ n b h. refl;
}
