-- ===== src/Checkpoint/Limits.antt =====
-- The budget of the checkpoint store: `enforce_limits` of checkpoint.rs.
use synth_hires_bridge.Prelude.{
  ℕ, zero, suc, ◌+◌, ◌*◌, ◌≤◌, ◌<◌, true, false, not, ◌≡◌, refl, ◌≢◌, ◌⊎◌, inl, inr, Option, none,
  some, List, [], ◌∷◌, arith, leb, ◌==◌, ==_iff, length, retain, All, Has, Bool-cases, ◌∙◌, ap, sym,
  subst, All-imp, length-retain-le,
}
use synth_hires_bridge.Checkpoint.{
  CheckpointEntry, CheckpointStore, victim, older, evict, enforce, enforce_limits, within_limits,
  total,
}

-- What `victim` picks: an entry that may go, and no such entry is older.
abbrev pub Oldest : ℕ → List CheckpointEntry → Option CheckpointEntry → Type 0
Oldest skip_ts es none = All (λ e. e.ts ≡ skip_ts) es
Oldest skip_ts es (some v) =
    (v.ts ≢ skip_ts) × Has v es × All (λ e. (e.ts ≡ skip_ts) ⊎ (v.ts ≤ e.ts)) es

older-first : (e v : CheckpointEntry) → leb e.ts v.ts ≡ true → older e (some v) ≡ e
unfolding older
older-first e v h = rw h refl

older-later : (e v : CheckpointEntry) → leb e.ts v.ts ≡ false → older e (some v) ≡ v
unfolding older
older-later e v h = rw h refl

Oldest-cons :
    (skip_ts : ℕ) (e : CheckpointEntry) (es : List CheckpointEntry) (o : Option CheckpointEntry)
    → Oldest skip_ts es o
    → e.ts ≢ skip_ts
    → Oldest skip_ts (e ∷ es) (some (older e o))
unfolding older
Oldest-cons skip_ts e es none h d = (
  d,
  inl refl,
  (inr (omega arith), All-imp _ (λ x. (x.ts ≡ skip_ts) ⊎ (e.ts ≤ x.ts)) es (λ x p. inl p) h),
)
Oldest-cons skip_ts e es (some v) h d = elim (Bool-cases (leb e.ts v.ts)) [
  | inl first ↦
      subst (λ w. Oldest skip_ts (e ∷ es) (some w)) (sym (older-first e v first))
        (
          d,
          inl refl,
          (
            inr (omega arith),
            All-imp _ (λ x. (x.ts ≡ skip_ts) ⊎ (e.ts ≤ x.ts)) es (λ x p. ground arith) h.2,
          ),
        )
  | inr later ↦
      subst (λ w. Oldest skip_ts (e ∷ es) (some w)) (sym (older-later e v later))
        (h.0, inr h.1, (inr (ground arith), h.2))
]

Oldest-skip :
    (skip_ts : ℕ) (e : CheckpointEntry) (es : List CheckpointEntry) (o : Option CheckpointEntry)
    → Oldest skip_ts es o
    → e.ts ≡ skip_ts
    → Oldest skip_ts (e ∷ es) o
Oldest-skip skip_ts e es none h d = (d, h)
Oldest-skip skip_ts e es (some v) h d = (h.0, inr h.1, (inl d, h.2))

victim-Oldest : (skip_ts : ℕ) (es : List CheckpointEntry) → Oldest skip_ts es (victim skip_ts es)
unfolding victim
victim-Oldest skip_ts [] = tt
victim-Oldest skip_ts (e ∷ es) = elim (Bool-cases (e.ts == skip_ts)) [
  | inl same ↦ rw same (
      Oldest-skip skip_ts e es (victim skip_ts es) (victim-Oldest skip_ts es) ((==_iff _ _).0 same))
  | inr other ↦
      rw other
        (Oldest-cons skip_ts e es (victim skip_ts es) (victim-Oldest skip_ts es) (ground arith))
]

length-evict :
    (ts : ℕ) (es : List CheckpointEntry) (v : CheckpointEntry)
    → Has v es
    → v.ts ≡ ts
    → length (retain (λ e. not (e.ts == ts)) es) < length es
length-evict ts [] v h k = absurd h
length-evict ts (e ∷ es) v (inl here) k =
    let gone = length-retain-le (λ e. not (e.ts == ts)) es in
    let same = ap (λ x. x.ts) here ∙ k in ground arith
length-evict ts (e ∷ es) v (inr there) k = ground (arith, length-evict ts es v there k)

-- The budget is kept, or nothing is left that may go.
abbrev pub Bounded : ℕ → List CheckpointEntry → Type 0
Bounded skip_ts es = (within_limits es ≡ true) ⊎ All (λ e. e.ts ≡ skip_ts) es

-- A property of stores that holds once the budget is kept, and before an eviction if after it.
pub enforce-induction :
    (skip_ts : ℕ) (P : CheckpointStore → CheckpointStore → Type 0)
    → ((s : CheckpointStore) → Bounded skip_ts s.index → P s s)
    → ((s r : CheckpointStore) (v : CheckpointEntry)
        → Oldest skip_ts s.index (some v)
        → P (evict s v.ts) r
        → P s r)
    → (fuel : ℕ) (s : CheckpointStore) → length s.index < fuel
    → P s (enforce fuel skip_ts s)
unfolding enforce evict
enforce-induction skip_ts P stop more zero s h = absurd (omega arith)
enforce-induction skip_ts P stop more (suc fuel) s h = elim (Bool-cases (within_limits s.index)) [
  | inl fits ↦ rw fits (stop s (inl fits))
  | inr over ↦ rw over (
      go (enforce-induction skip_ts P stop more fuel) (victim skip_ts s.index)
        (victim-Oldest skip_ts s.index))
]
  where
    go :
        ((t : CheckpointStore) → length t.index < fuel → P t (enforce fuel skip_ts t))
        → (o : Option CheckpointEntry) → Oldest skip_ts s.index o
        → P s (elim o [ none ↦ s | some v ↦ enforce fuel skip_ts (evict s v.ts) ])
    go rest none w = stop s (inr w)
    go rest (some v) w =
        more s _ v w (rest (evict s v.ts) (omega (arith, length-evict v.ts s.index v w.1 refl)))

-- The bytes that entries stand for.
pub bytes_of : List CheckpointEntry → ℕ
bytes_of [] = 0
bytes_of (e ∷ es) = bytes_of es + e.size

total-bytes_of : (es : List CheckpointEntry) → total es ≡ bytes_of es
unfolding total bytes_of
total-bytes_of [] = refl
total-bytes_of (e ∷ es) = omega (arith, total-bytes_of es)

-- At most 200 entries of at most 512 MiB together, or nothing that may go.
abbrev pub InBudget : ℕ → List CheckpointEntry → Type 0
InBudget skip_ts es =
    ((length es ≤ 200) × (bytes_of es ≤ 512 * 1024 * 1024)) ⊎ All (λ e. e.ts ≡ skip_ts) es

Bounded-InBudget :
    (skip_ts : ℕ) (es : List CheckpointEntry) → Bounded skip_ts es → InBudget skip_ts es
unfolding within_limits
Bounded-InBudget skip_ts es (inl fits) =
    inl (let same = total-bytes_of es in (ground arith, ground arith))
Bounded-InBudget skip_ts es (inr left) = inr left

-- After `enforce_limits` the index has at most 200 entries of at most 512 MiB together, or only
-- entries that bear the spared timestamp.
pub enforce_limits-Bounded :
    (s : CheckpointStore) (skip_ts : ℕ) → InBudget skip_ts (enforce_limits s skip_ts).index
unfolding enforce_limits
enforce_limits-Bounded s skip_ts = Bounded-InBudget skip_ts (enforce_limits s skip_ts).index (
    enforce-induction skip_ts (λ s r. Bounded skip_ts r.index) (λ s h. h) (λ s r v w h. h)
      (suc (length s.index)) s (omega arith))
