-- ===== src/Update/Newer.antt =====
-- `is_newer_version` of autoupdate.rs against the order of versions that it means.
use synth_hires_bridge.Prelude.{
  ℕ, zero, suc, ◌+◌, ◌≤◌, ◌<◌, max, true, ◌≡◌, refl, ◌↔◌, Option, none, some, List, [], ◌∷◌, arith,
  ◌==◌, length, Bool-cases, inl, inr, ==_iff, sym, subst, ap, unwrap_or,
}
use synth_hires_bridge.Update.Versions.{parts, part, compare_from, newer_parts, is_newer_version}

-- The first number in which two versions differ is smaller in the first one; a missing number is 0.
abbrev pub Older : List ℕ → List ℕ → Type 0
Older a b = (k : ℕ) × (part a k < part b k) × ((j : ℕ) → j < k → part a j ≡ part b j)

-- The same, from position `i` on, within the next `n`.
abbrev OlderFrom : ℕ → ℕ → List ℕ → List ℕ → Type 0
OlderFrom n i a b =
    (k : ℕ) × (i ≤ k)
    × (k < (i + n))
    × (part a k < part b k)
    × ((j : ℕ) → i ≤ j → j < k → part a j ≡ part b j)

compare_from-OlderFrom : (n i : ℕ) (a b : List ℕ) → compare_from n i a b ≡ true → OlderFrom n i a b
unfolding compare_from
compare_from-OlderFrom zero i a b h = absurd (ground arith)
compare_from-OlderFrom (suc n) i a b h = elim (Bool-cases (part a i == part b i)) [
  | inr differ ↦ (i, omega arith, omega arith, ground arith, λ j x y. absurd (omega arith))
  | inl same ↦
      let (k, x, y, z, w) = compare_from-OlderFrom n (suc i) a b (ground arith) in
      (
        k,
        omega arith,
        omega arith,
        z,
        λ j p q. equal_from i j p ((==_iff (part a i) (part b i)).0 same) (λ r. w j r q),
      )
]
  where
    equal_from :
        (i j : ℕ)
        → i ≤ j
        → part a i ≡ part b i
        → (suc i ≤ j → part a j ≡ part b j)
        → part a j ≡ part b j
    equal_from i j p here later = elim (Bool-cases (i == j)) [
      | inl e ↦ subst (λ k. part a k ≡ part b k) ((==_iff i j).0 e) here
      | inr e ↦ later (ground arith)
    ]

OlderFrom-compare_from : (n i : ℕ) (a b : List ℕ) → OlderFrom n i a b → compare_from n i a b ≡ true
unfolding compare_from
OlderFrom-compare_from zero i a b (k, x, y, z, w) = absurd (omega arith)
OlderFrom-compare_from (suc n) i a b (k, x, y, z, w) = elim (Bool-cases (i == k)) [
  | inl e ↦ let less = subst (λ j. part a j < part b j) (sym ((==_iff i k).0 e)) z in ground arith
  | inr e ↦
      let here = w i (omega arith) (ground arith) in
      let rest =
        OlderFrom-compare_from n (suc i) a b
          (k, ground arith, omega arith, z, λ j p q. w j (omega arith) q) in
      ground arith
]

part-beyond : (xs : List ℕ) (k : ℕ) → 1 ≤ part xs k → k < length xs
unfolding part
part-beyond [] k h = absurd (omega arith)
part-beyond (x ∷ xs) zero h = omega arith
part-beyond (x ∷ xs) (suc k) h = omega (arith, part-beyond xs k h)

compare_iff : (a b : List ℕ) → (compare_from (max (length a) (length b)) 0 a b ≡ true) ↔ Older a b
compare_iff a b = (
  (λ h.
      let (k, x, y, z, w) = compare_from-OlderFrom (max (length a) (length b)) 0 a b h in
      (k, z, λ j q. w j (omega arith) q)),
  (λ o.
      let (k, z, w) = o in
      OlderFrom-compare_from (max (length a) (length b)) 0 a b
        (k, omega arith, omega (arith, part-beyond b k (omega arith)), z, λ j p q. w j q)),
)

newer_parts_iff :
    (x y : Option (List ℕ))
    → (newer_parts x y ≡ true)
      ↔ ((a : List ℕ) × (b : List ℕ) × (x ≡ some a) × (y ≡ some b) × Older a b)
unfolding newer_parts
newer_parts_iff none y = ((λ h. cc), (λ h. cc))
newer_parts_iff (some a) none = ((λ h. cc), (λ h. cc))
newer_parts_iff (some a) (some b) = (
  (λ h. (a, b, refl, refl, (compare_iff a b).0 h)),
  (λ h.
      let (x, y, p, q, o) = h in
      (compare_iff a b).1 (
        subst (λ v. Older v b) (sym (ap (λ v. unwrap_or v []) p))
          (subst (λ v. Older x v) (sym (ap (λ v. unwrap_or v []) q)) o))),
)

-- `is_newer_version` holds exactly when both texts are versions and the current one is older: the
-- first number in which they differ is smaller, where a missing number counts as 0.
pub is_newer_version_iff :
    (current latest : List ℕ)
    → (is_newer_version current latest ≡ true) ↔ (
        (a : List ℕ) × (b : List ℕ) × (parts current ≡ some a)
        × (parts latest ≡ some b)
        × Older a b)
unfolding is_newer_version
is_newer_version_iff current latest = newer_parts_iff (parts current) (parts latest)
