-- ===== src/Frames/Header.antt =====
-- The header that a frame begins with: how far it is read, and the length that it states.
use synth_hires_bridge.Prelude.Text.{
  codes, has_prefix, onto_first, bytes_eq, to_lower, trim, trim_start, is_whitespace, between,
}
use synth_hires_bridge.Prelude.Decimal.{
  decimal, IsDigit, decimal-IsDigit, length-decimal-le, parse_usize-decimal, max_usize,
}
use synth_hires_bridge.Prelude.{
  ℕ, ◌+◌, ◌^◌, ◌≤◌, ◌<◌, String, Option, none, some, true, false, List, [], ◌∷◌, ◌++◌, ◌≡◌, ◌≢◌,
  refl, ap, ◌∙◌, reverse, length, length-append, All, All-append, All-imp, arith, ltb, ◌==◌,
}
use mathlib.Core.List.{reverse-cons, append_assoc, reverse-append, reverse-reverse, append-nil}
use synth_hires_bridge.Pairing.{split_once, before_all}
use synth_hires_bridge.Frames.{
  crlf, read_header, header_end, split_crlf, content_length, is_content_length,
}

module _ (failure : Option String) (label : String) where
  -- A line without line feeds is read to its end.
  read_header-line :
      (acc s t : List ℕ)
      → All (λ b. b ≢ 10) s
      → length acc + length s ≤ 8192
      → read_header failure label acc (s ++ t) ≡ read_header failure label (reverse s ++ acc) t
  unfolding read_header has_prefix
  read_header-line acc [] t h k = refl
  read_header-line acc (b ∷ s) t h k =
      rw (reverse-cons b s, append_assoc (reverse s) (b ∷ []) acc, other, few)
        (read_header-line (b ∷ acc) s t h.1 (omega arith))
    where
      other : (10 == b) ≡ false
      other = ground (arith, h.0)

      few : ltb 8192 (length (b ∷ acc)) ≡ false
      few = ground arith

-- Text without a carriage return stays one line.
split_crlf-line :
    (s t : List ℕ)
    → All (λ b. b ≢ 13) s
    → split_crlf false (s ++ (crlf ++ t)) ≡ s ∷ split_crlf false t
unfolding split_crlf has_prefix onto_first
split_crlf-line [] t h = refl
split_crlf-line (b ∷ s) t h = rw (other, split_crlf-line s t h.1) refl
  where
    other : (13 == b) ≡ false
    other = ground (arith, h.0)

not_space : (c : ℕ) → IsDigit c → is_whitespace c ≡ false
unfolding is_whitespace between
not_space c h = ground (arith, h)

trim_start-digits : (s : List ℕ) → All IsDigit s → trim_start s ≡ s
unfolding trim_start
trim_start-digits [] h = refl
trim_start-digits (c ∷ s) h = rw (not_space c h.0) refl

All-reverse : (P : ℕ → Type 0) (s : List ℕ) → All P s → All P (reverse s)
All-reverse P [] h = tt
All-reverse P (c ∷ s) h =
    rw (reverse-cons c s) ((All-append P (reverse s) (c ∷ [])).1 (All-reverse P s h.1, (h.0, tt)))

pub length-reverse : (s : List ℕ) → length (reverse s) ≡ length s
length-reverse [] = refl
length-reverse (c ∷ s) =
    rw (reverse-cons c s) (omega (arith, length-append (reverse s) (c ∷ []), length-reverse s))

-- The digits of a number after one blank are all that is left of it.
trim-digits : (s : List ℕ) → All IsDigit s → trim (32 ∷ s) ≡ s
unfolding trim trim_start is_whitespace between
trim-digits s h =
    rw (trim_start-digits s h, trim_start-digits (reverse s) (All-reverse IsDigit s h))
      (reverse-reverse s)

-- The line that frames a body, as the code writes and reads it.
abbrev pub length_line : ℕ → List ℕ
length_line n = codes "Content-Length: " ++ decimal n

named : is_content_length (codes "Content-Length") ≡ true
unfolding is_content_length trim trim_start is_whitespace between to_lower bytes_eq
named = refl

content_length-line :
    (n : ℕ) → n ≤ max_usize → content_length none (length_line n ∷ [] ∷ [] ∷ []) ≡ some n
unfolding content_length split_once before_all has_prefix
content_length-line n h =
    rw (named, trim-digits (decimal n) (decimal-IsDigit n), parse_usize-decimal n h) refl

-- What holds of the line's own letters and of digits holds of the line.
pub line-All :
    (P : ℕ → Type 0) (n : ℕ)
    → All P (codes "Content-Length: ")
    → ((c : ℕ) → IsDigit c → P c)
    → All P (length_line n)
line-All P n h k =
    (All-append P (codes "Content-Length: ") (decimal n)).1
      (h, All-imp IsDigit P (decimal n) k (decimal-IsDigit n))

line-Clean : (c : ℕ) (n : ℕ) → c ≤ 13 → All (λ b. b ≢ c) (length_line n)
line-Clean c n h = line-All (λ b. b ≢ c) n (omega arith) (λ b d. omega arith)

module _ (failure : Option String) (label : String) where
  -- The first empty line ends a header.
  read_header-end :
      (acc rest : List ℕ)
      → All (λ b. b ≢ 10) acc
      → length acc ≤ 8188
      → read_header failure label acc (crlf ++ crlf ++ rest)
        ≡ header_end (reverse (10 ∷ 13 ∷ 10 ∷ 13 ∷ acc)) rest
  unfolding read_header has_prefix
  read_header-end [] rest h k = refl
  read_header-end (c ∷ acc) rest h k =
      rw
        (
          other,
          few (13 ∷ c ∷ acc) (omega arith),
          few (10 ∷ 13 ∷ c ∷ acc) (omega arith),
          few (13 ∷ 10 ∷ 13 ∷ c ∷ acc) (omega arith),
        )
        refl
    where
      other : (10 == c) ≡ false
      other = ground (arith, h.0)

      few : (s : List ℕ) → length s ≤ 8192 → ltb 8192 (length s) ≡ false
      few s small = ground arith

  -- The whole header of a frame is read, and nothing behind it.
  pub read_header-frame :
      (n : ℕ) (rest : List ℕ)
      → n < 10 ^ 8
      → read_header failure label [] (length_line n ++ (crlf ++ crlf ++ rest))
        ≡ header_end (length_line n ++ (crlf ++ crlf)) rest
  read_header-frame n rest h =
      read_header-line failure label [] (length_line n) (crlf ++ crlf ++ rest) clean
        (omega (arith, few))
      ∙ ap (λ acc. read_header failure label acc (crlf ++ crlf ++ rest))
          (append-nil (reverse (length_line n)))
      ∙ read_header-end (reverse (length_line n)) rest
          (All-reverse (λ b. b ≢ 10) (length_line n) clean)
          (omega (arith, few, length-reverse (length_line n)))
      ∙ ap (λ s. header_end s rest) turned
    where
      clean : All (λ b. b ≢ 10) (length_line n)
      clean = line-Clean 10 n (omega arith)

      few : length (length_line n) ≤ 24
      few = omega (arith, length-decimal-le n h)

      turned :
          reverse (10 ∷ 13 ∷ 10 ∷ 13 ∷ reverse (length_line n)) ≡ length_line n ++ (crlf ++ crlf)
      turned =
          reverse-append (10 ∷ 13 ∷ 10 ∷ 13 ∷ []) (reverse (length_line n))
          ∙ ap (λ s. s ++ reverse (10 ∷ 13 ∷ 10 ∷ 13 ∷ [])) (reverse-reverse (length_line n))

pub length_line-stated :
    (n : ℕ)
    → n ≤ max_usize
    → content_length none (split_crlf false (length_line n ++ (crlf ++ crlf))) ≡ some n
unfolding split_crlf has_prefix
length_line-stated n h =
    ap (content_length none) (split_crlf-line (length_line n) crlf (line-Clean 13 n (omega arith)))
    ∙ content_length-line n h
