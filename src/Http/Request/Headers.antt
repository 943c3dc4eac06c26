-- ===== src/Http/Request/Headers.antt =====
-- Header lines of HttpRequest.cpp: what `addHeader` stores.
use miniaibrowse_cpp.Common.{
  ℕ, ◌≡◌, refl, ap, ◌∙◌, Bool, true, false, [], ◌∷◌, ◌++◌, Bytes, All, length, is_space, bytes_key,
  insert, take-length-append, drop-suc-length-append, arith,
}
use miniaibrowse_cpp.Http.Request.{HttpRequest, trim_start, trim_end, add_header}

module _ (blank : ℕ → Bool) where
  abbrev pub AllBlank : Bytes → Type 0
  AllBlank = All (λ c. blank c ≡ true)

  -- A text that is empty or begins and ends with a byte that is not blank.
  abbrev pub StartsSolid : Bytes → Type 0
  StartsSolid [] = Unit
  StartsSolid (c ∷ s) = blank c ≡ false

  abbrev pub EndsSolid : Bytes → Type 0
  EndsSolid [] = Unit
  EndsSolid (c ∷ []) = blank c ≡ false
  EndsSolid (c ∷ d ∷ s) = EndsSolid (d ∷ s)

  trim_start-blank :
      (pre s : Bytes) → AllBlank pre → trim_start blank (pre ++ s) ≡ trim_start blank s
  unfolding trim_start
  trim_start-blank [] s h = refl
  trim_start-blank (c ∷ pre) s h = ground (arith, trim_start-blank pre s h.1)

  trim_end_blank : (post : Bytes) → AllBlank post → trim_end blank post ≡ []
  unfolding trim_end
  trim_end_blank [] h = refl
  trim_end_blank (c ∷ post) h = ground (arith, trim_end_blank post h.1)

  trim_end-solid : (s post : Bytes) → EndsSolid s → AllBlank post → trim_end blank (s ++ post) ≡ s
  unfolding trim_end
  trim_end-solid [] post e h = trim_end_blank post h
  trim_end-solid (c ∷ []) post e h = ground (arith, trim_end_blank post h)
  trim_end-solid (c ∷ d ∷ s) post e h = ground (arith, trim_end-solid (d ∷ s) post e h)

  trim_start_solid :
      (s post : Bytes)
      → StartsSolid s
      → EndsSolid s
      → AllBlank post
      → trim_end blank (trim_start blank (s ++ post)) ≡ s
  unfolding trim_start
  trim_start_solid [] [] b e h = trim_end_blank [] h
  trim_start_solid [] (c ∷ post) b e h = ground (arith, trim_start_solid [] post b e h.1)
  trim_start_solid (c ∷ s) post b e h = ground (arith, trim_end-solid (c ∷ s) post e h)

  pub trim_lem :
      (pre s post : Bytes)
      → AllBlank pre
      → StartsSolid s
      → EndsSolid s
      → AllBlank post
      → trim_end blank (trim_start blank (pre ++ (s ++ post))) ≡ s
  trim_lem pre s post hp b e h =
      ap (trim_end blank) (trim_start-blank pre (s ++ post) hp) ∙ trim_start_solid s post b e h

-- A header line "key:value" with white space around the value is stored as the key and the bare
-- value, in place of what the key had before.
pub add_header_trims :
    (r : HttpRequest) (key pre value post : Bytes)
    → AllBlank is_space pre
    → StartsSolid is_space value
    → EndsSolid is_space value
    → AllBlank is_space post
    → add_header r (key ++ b':' ∷ (pre ++ (value ++ post))) (length key)
      ≡ record r { headers = insert key value r.headers }
unfolding add_header
add_header_trims r key pre value post hp b e h = rw (
  take-length-append key (b':' ∷ (pre ++ (value ++ post))),
  drop-suc-length-append key b':' (pre ++ (value ++ post)),
  trim_lem is_space pre value post hp b e h,
  add_header,
)
