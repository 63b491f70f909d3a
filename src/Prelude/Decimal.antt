-- ===== src/Prelude/Decimal.antt =====
-- Decimal numbers: `format!("{n}")`, and `str::parse::<usize>` on 64 bits.
use Prim.Native.Nat.{ℕ, zero, suc, ◌+◌, ◌-◌, ◌*◌, ◌/◌, ◌%◌, ◌^◌, ◌≤◌, ◌<◌}
use mathlib.Core.Path.{◌≡◌, ◌∙◌, refl, ap}
use mathlib.Core.Logic.{inl, inr}
use mathlib.Core.Bool.{true, false}
use mathlib.Core.Option.{Option, none, some}
use mathlib.Core.List.{List, [], ◌∷◌, ◌++◌}
use native.Mathlib.Omega.{arith}
use synth_hires_bridge.Prelude.Tests.{ltb, leb, ◌==◌, if◌then◌else◌, Bool-cases, ltb→lt, ltb-false}
use synth_hires_bridge.Prelude.Lists.{All, All-append, length, length-append}
use synth_hires_bridge.Prelude.Text.{between}

-- The digits with fuel; as much as the number and one more is enough.
unfoldable pub digits : ℕ → ℕ → List ℕ
digits zero n = []
digits (suc fuel) n =
    let rest = digits fuel (n / 10) in
    if ltb n 10 then (b'0' + n) ∷ [] else rest ++ (b'0' + n % 10) ∷ []

unfoldable pub decimal : ℕ → List ℕ
decimal n = digits (suc n) n

abbrev pub max_usize : ℕ
max_usize = 2 ^ 64 - 1

unfoldable pub add_digit : Option ℕ → ℕ → Option ℕ
add_digit none c = none
add_digit (some n) c =
    if between b'0' b'9' c
    then (if leb (n * 10 + (c - b'0')) max_usize then some (n * 10 + (c - b'0')) else none)
    else none

unfoldable pub parse_from : Option ℕ → List ℕ → Option ℕ
parse_from acc [] = acc
parse_from acc (c ∷ s) = parse_from (add_digit acc c) s

-- A leading plus is taken, and no digit at all is an error.
unfoldable pub parse_usize : List ℕ → Option ℕ
parse_usize [] = none
parse_usize (c ∷ []) = parse_from (some 0) (c ∷ [])
parse_usize (c ∷ d ∷ s) = parse_from (some 0) (if c == b'+' then d ∷ s else c ∷ d ∷ s)

abbrev pub IsDigit : ℕ → Type 0
IsDigit c = (b'0' ≤ c) × (c ≤ b'9')

pub digits-IsDigit : (fuel n : ℕ) → All IsDigit (digits fuel n)
unfolding digits
digits-IsDigit zero n = tt
digits-IsDigit (suc fuel) n = elim (Bool-cases (ltb n 10)) [
  | inl few ↦ rw few (omega (arith, ltb→lt n 10 few))
  | inr more ↦ rw more (
      (All-append IsDigit (digits fuel (n / 10)) ((b'0' + n % 10) ∷ [])).1
        (digits-IsDigit fuel (n / 10), omega arith))
]

parse_from-append :
    (acc : Option ℕ) (s t : List ℕ) → parse_from acc (s ++ t) ≡ parse_from (parse_from acc s) t
unfolding parse_from
parse_from-append acc [] t = refl
parse_from-append acc (c ∷ s) t = parse_from-append (add_digit acc c) s t

parse_from-digits :
    (fuel n : ℕ) → n < fuel → n ≤ max_usize → parse_from (some 0) (digits fuel n) ≡ some n
unfolding digits parse_from add_digit between
parse_from-digits zero n h k = absurd (omega arith)
parse_from-digits (suc fuel) n h k = elim (Bool-cases (ltb n 10)) [
  | inl few ↦ rw few (ground arith)
  | inr more ↦
      let ten = ltb-false n 10 more in
      rw more (
        parse_from-append (some 0) (digits fuel (n / 10)) ((b'0' + n % 10) ∷ [])
        ∙ ap (λ a. parse_from a ((b'0' + n % 10) ∷ []))
            (parse_from-digits fuel (n / 10) (omega arith) (omega arith))
        ∙ last_digit n k)
]
  where
    last_digit : (n : ℕ) → n ≤ max_usize → add_digit (some (n / 10)) (b'0' + n % 10) ≡ some n
    last_digit n k = ground arith

-- As many digits as the power of ten has zeros are enough.
length-digits : (places fuel n : ℕ) → n < 10 ^ suc places → length (digits fuel n) ≤ suc places
unfolding digits
length-digits places zero n h = omega arith
length-digits zero (suc fuel) n h = rw (few) (omega arith)
  where
    few : ltb n 10 ≡ true
    few = ground arith
length-digits (suc places) (suc fuel) n h = elim (Bool-cases (ltb n 10)) [
  | inl few ↦ rw few (omega arith)
  | inr more ↦ rw more (
      omega (
        arith,
        length-append (digits fuel (n / 10)) ((b'0' + n % 10) ∷ []),
        length-digits places fuel (n / 10) (omega arith),
      ))
]

pub length-decimal-le : (n : ℕ) → n < 10 ^ 8 → length (decimal n) ≤ 8
unfolding decimal
length-decimal-le n h = length-digits 7 (suc n) n h

pub decimal-IsDigit : (n : ℕ) → All IsDigit (decimal n)
unfolding decimal
decimal-IsDigit n = digits-IsDigit (suc n) n

length-digits-ge : (fuel n : ℕ) → 1 ≤ length (digits (suc fuel) n)
unfolding digits
length-digits-ge fuel n = elim (Bool-cases (ltb n 10)) [
  | inl few ↦ rw few (omega arith)
  | inr more ↦ rw more (omega (arith, length-append (digits fuel (n / 10)) ((b'0' + n % 10) ∷ [])))
]

parse_usize-digits :
    (s : List ℕ) → All IsDigit s → 1 ≤ length s → parse_usize s ≡ parse_from (some 0) s
unfolding parse_usize
parse_usize-digits [] h k = absurd (omega arith)
parse_usize-digits (c ∷ []) h k = refl
parse_usize-digits (c ∷ d ∷ s) h k = rw (plain) refl
  where
    plain : (c == b'+') ≡ false
    plain = ground (arith, h.0)

-- A number is read back from its digits.
pub parse_usize-decimal : (n : ℕ) → n ≤ max_usize → parse_usize (decimal n) ≡ some n
unfolding decimal
parse_usize-decimal n h =
    parse_usize-digits (decimal n) (decimal-IsDigit n) (length-digits-ge n n)
    ∙ parse_from-digits (suc n) n (omega arith) h
