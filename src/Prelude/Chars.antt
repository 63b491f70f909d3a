-- ===== src/Prelude/Chars.antt =====
-- Texts as the Unicode characters that Rust's `char` methods walk, and their length in bytes.
use Prim.Native.Nat.{ℕ, zero, suc, ◌+◌, ◌*◌, ◌≤◌}
use mathlib.Core.Path.{◌≡◌}
use mathlib.Core.List.{List, [], ◌∷◌, ◌++◌}
use mathlib.Core.Logic.{◌⊎◌, inl, inr}
use native.Mathlib.Omega.{arith}
use synth_hires_bridge.Prelude.Tests.{ltb, if◌then◌else◌}
use synth_hires_bridge.Prelude.Lists.{take, length}

-- `char::len_utf8`
unfoldable pub len_utf8 : ℕ → ℕ
len_utf8 c = if ltb c 0x80 then 1 else if ltb c 0x800 then 2 else if ltb c 0x10000 then 3 else 4

-- `str::len`
unfoldable pub utf8_len : List ℕ → ℕ
utf8_len [] = 0
utf8_len (c ∷ text) = len_utf8 c + utf8_len text

len_utf8_bounds : (c : ℕ) → (1 ≤ len_utf8 c) × (len_utf8 c ≤ 4)
unfolding len_utf8
len_utf8_bounds c = ground arith

pub utf8_len-append : (s t : List ℕ) → utf8_len (s ++ t) ≡ utf8_len s + utf8_len t
unfolding utf8_len
utf8_len-append [] t = omega arith
utf8_len-append (c ∷ s) t = omega (arith, utf8_len-append s t)

pub utf8_len_bounds : (s : List ℕ) → (length s ≤ utf8_len s) × (utf8_len s ≤ 4 * length s)
unfolding utf8_len
utf8_len_bounds [] = omega arith
utf8_len_bounds (c ∷ s) = omega (arith, len_utf8_bounds c, utf8_len_bounds s)

pub utf8_len-take-le : (n : ℕ) (s : List ℕ) → utf8_len (take n s) ≤ 4 * n
unfolding utf8_len
utf8_len-take-le zero s = omega arith
utf8_len-take-le (suc n) [] = omega arith
utf8_len-take-le (suc n) (c ∷ s) = omega (arith, len_utf8_bounds c, utf8_len-take-le n s)

-- A number of characters has that many bytes at least, or they are the whole text.
pub utf8_len-take-ge :
    (n : ℕ) (s : List ℕ) → (utf8_len s ≤ utf8_len (take n s)) ⊎ (n ≤ utf8_len (take n s))
unfolding utf8_len
utf8_len-take-ge zero s = inr (omega arith)
utf8_len-take-ge (suc n) [] = inl (omega arith)
utf8_len-take-ge (suc n) (c ∷ s) = elim (utf8_len-take-ge n s) [
  | inl whole ↦ inl (omega arith)
  | inr many ↦ inr (omega (arith, len_utf8_bounds c))
]
