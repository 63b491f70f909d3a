-- ===== src/Prelude/Map.antt =====
-- A hash map with text keys, as an association list. The code never relies on the order in which a
-- `HashMap` is walked.
use synth_hires_bridge.Prelude.Tests.{if◌then◌else◌, Bool-cases}
use synth_hires_bridge.Prelude.Lists.{All, length}
use Prim.Native.String.{String}
use Prim.Native.Nat.{suc, ◌≤◌}
use mathlib.Core.Path.{◌≡◌, refl, subst}
use mathlib.Core.List.{List, [], ◌∷◌}
use mathlib.Core.Option.{Option, none, some}
use mathlib.Core.Bool.{true}
use mathlib.Core.Logic.{◌≢◌, inl, inr}
use native.Mathlib.Omega.{arith}
use text.Mathlib.Text.{◌==◌ as str_eq}
use text.Mathlib.TextEquality.{eq_iff}

abbrev pub Map {ℓ} : Type ℓ → Type ℓ
Map V = List (String × V)

module _ {ℓ} {V : Type ℓ} where
  unfoldable pub lookup : String → Map V → Option V
  lookup k [] = none
  lookup k ((j, v) ∷ m) = if str_eq j k then some v else lookup k m

  -- `HashMap::remove`, without the value that it returns
  unfoldable pub without : String → Map V → Map V
  without k [] = []
  without k ((j, v) ∷ m) = let rest = without k m in if str_eq j k then rest else (j, v) ∷ rest

  -- `HashMap::insert`: an old value under the key is dropped.
  unfoldable pub insert : String → V → Map V → Map V
  insert k v m = (k, v) ∷ without k m

  pub lookup-without :
      (k j : String) (m : Map V)
      → lookup j (without k m) ≡ (if str_eq k j then none else lookup j m)
  unfolding lookup without
  lookup-without k j [] = ground arith
  lookup-without k j ((i, v) ∷ m) =
      ground (arith, lookup-without k j m, eq_iff i k, eq_iff i j, eq_iff k j)

  pub lookup-insert :
      (k j : String) (v : V) (m : Map V)
      → lookup j (insert k v m) ≡ (if str_eq k j then some v else lookup j m)
  unfolding lookup insert
  lookup-insert k j v m = ground (arith, lookup-without k j m, eq_iff k j)

  pub All-without :
      (P : String × V → Type 0) (k : String) (m : Map V) → All P m → All P (without k m)
  unfolding without
  All-without P k [] h = h
  All-without P k ((j, v) ∷ m) h = ground (arith, All-without P k m h.1)

  pub All-lookup :
      (P : String × V → Type 0) (k : String) (m : Map V) {v : V}
      → All P m
      → lookup k m ≡ some v
      → P (k, v)
  unfolding lookup
  All-lookup P k [] h e = cc
  All-lookup P k ((j, w) ∷ m) {v} h e = elim (Bool-cases (str_eq j k)) [
    | inl same ↦ subst P (cc ((eq_iff j k).0 same, head_found same)) h.0
    | inr other ↦ All-lookup P k m h.1 (ground arith)
  ]
    where
      head_found : str_eq j k ≡ true → w ≡ v
      head_found same = ground arith

-- How an operation changes the number of entries.
pub length-without-le : {V : Type 0} (k : String) (m : Map V) → length (without k m) ≤ length m
unfolding without
length-without-le k [] = omega arith
length-without-le k ((j, v) ∷ m) = ground (arith, length-without-le k m)

pub length-without-present :
    {V : Type 0} (k : String) (m : Map V)
    → lookup k m ≢ none
    → suc (length (without k m)) ≤ length m
unfolding without lookup
length-without-present k [] h = absurd (h refl)
length-without-present k ((j, v) ∷ m) h = elim (Bool-cases (str_eq j k)) [
  | inl same ↦ rw same (omega (arith, length-without-le k m))
  | inr other ↦ rw other (omega (arith, length-without-present k m (rw other at h)))
]

pub length-insert-present :
    {V : Type 0} (k : String) (v : V) (m : Map V)
    → lookup k m ≢ none
    → length (insert k v m) ≤ length m
unfolding insert
length-insert-present k v m h = omega (arith, length-without-present k m h)

pub length-insert-le :
    {V : Type 0} (k : String) (v : V) (m : Map V) → length (insert k v m) ≤ suc (length m)
unfolding insert
length-insert-le k v m = omega (arith, length-without-le k m)
