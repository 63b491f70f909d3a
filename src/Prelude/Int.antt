-- ===== src/Prelude/Int.antt =====
-- Signed integers, as far as the code needs them: exit codes and `i64` columns.
use Prim.Native.Nat.{ℕ, ◌-◌, ◌^◌, ◌≤◌}
use mathlib.Core.Bool.{Bool, true, false}
use mathlib.Core.Path.{◌≡◌, refl}
use native.Mathlib.Omega.{arith}
use synth_hires_bridge.Prelude.Tests.{ltb, if◌then◌else◌}

-- `negsuc n` is -(n + 1).
pub data ℤ : Type 0 where
  pos : ℕ → ℤ
  negsuc : ℕ → ℤ

-- `a > b`, on integers.
abbrev pub gtb : ℤ → ℤ → Bool
gtb (pos a) (pos b) = ltb b a
gtb (pos a) (negsuc b) = true
gtb (negsuc a) (pos b) = false
gtb (negsuc a) (negsuc b) = ltb a b

infix 50 ◌≤ℤ◌
abbrev pub ◌≤ℤ◌ : ℤ → ℤ → Type 0
pos a ≤ℤ pos b = a ≤ b
pos a ≤ℤ negsuc b = ⊥
negsuc a ≤ℤ pos b = Unit
negsuc a ≤ℤ negsuc b = b ≤ a

pub gtb-false : (a b : ℤ) → gtb a b ≡ false → a ≤ℤ b
gtb-false (pos a) (pos b) h = ground arith
gtb-false (pos a) (negsuc b) h = absurd (cc)
gtb-false (negsuc a) (pos b) h = tt
gtb-false (negsuc a) (negsuc b) h = ground arith

pub le-gtb : (a b : ℤ) → a ≤ℤ b → gtb a b ≡ false
le-gtb (pos a) (pos b) h = ground arith
le-gtb (pos a) (negsuc b) h = absurd h
le-gtb (negsuc a) (pos b) h = refl
le-gtb (negsuc a) (negsuc b) h = ground arith

pub le_refl : (a : ℤ) → a ≤ℤ a
le_refl (pos a) = omega arith
le_refl (negsuc a) = omega arith

-- `as i64`, from a `u64`
unfoldable pub to_i64 : ℕ → ℤ
to_i64 n = if ltb n (2 ^ 63) then pos n else negsuc (2 ^ 64 - 1 - n)

pub le_trans : (a b c : ℤ) → a ≤ℤ b → b ≤ℤ c → a ≤ℤ c
le_trans (pos a) (pos b) (pos c) h k = omega arith
le_trans (negsuc a) (pos b) (pos c) h k = tt
le_trans (negsuc a) (negsuc b) (pos c) h k = tt
le_trans (negsuc a) (negsuc b) (negsuc c) h k = omega arith
le_trans (pos a) (negsuc b) c h k = absurd h
le_trans (pos a) (pos b) (negsuc c) h k = absurd k
le_trans (negsuc a) (pos b) (negsuc c) h k = absurd k
