-- ===== src/Checkpoint/Eviction.antt =====
-- Which checkpoints `enforce_limits` of checkpoint.rs gives up, and what it leaves of the spared one.
use synth_hires_bridge.Prelude.{
  ℕ, suc, ◌≤◌, ◌<◌, not, ◌≡◌, refl, ◌≢◌, ◌⊎◌, inl, inr, some, List, [], ◌∷◌, arith, ◌==◌, length,
  retain, All, Has, Has-retain, Bool-cases, ◌∙◌, ap, sym, subst,
}
use synth_hires_bridge.Checkpoint.{
  CheckpointEntry, CheckpointStore, evict, enforce_limits, find_blob, remove_blob, find_ts,
}
use synth_hires_bridge.Checkpoint.Limits.{Oldest, enforce-induction}

-- From `s` to `r` only entries went, each older than every entry that stayed and could have gone.
abbrev pub OldestFirst : ℕ → CheckpointStore → CheckpointStore → Type 0
OldestFirst skip_ts s r =
    ((e : CheckpointEntry) → Has e r.index → Has e s.index)
    × ((e kept : CheckpointEntry)
        → Has e s.index
        → ¬ Has e r.index
        → Has kept r.index
        → kept.ts ≢ skip_ts
        → e.ts < kept.ts)

least :
    (skip_ts : ℕ) (v e : CheckpointEntry) (es : List CheckpointEntry)
    → All (λ x. (x.ts ≡ skip_ts) ⊎ (v.ts ≤ x.ts)) es
    → Has e es
    → e.ts ≢ skip_ts
    → v.ts ≤ e.ts
least skip_ts v e [] h k d = absurd k
least skip_ts v e (x ∷ es) h (inl here) d =
    subst (λ t. v.ts ≤ t) (ap (λ y. y.ts) here) (at (ap (λ y. y.ts) here) h.0)
  where
    at : x.ts ≡ e.ts → (x.ts ≡ skip_ts) ⊎ (v.ts ≤ x.ts) → v.ts ≤ x.ts
    at same (inl spared) = absurd (d (sym same ∙ spared))
    at same (inr le) = le
least skip_ts v e (x ∷ es) h (inr there) d = least skip_ts v e es h.1 there d

OldestFirst-evict :
    (skip_ts : ℕ) (s r : CheckpointStore) (v : CheckpointEntry)
    → Oldest skip_ts s.index (some v)
    → OldestFirst skip_ts (evict s v.ts) r
    → OldestFirst skip_ts s r
unfolding evict
OldestFirst-evict skip_ts s r v w h =
    let stays = λ (e : CheckpointEntry). Has-retain (λ x. not (x.ts == v.ts)) e s.index in
    (
      (λ e k. ((stays e).0 (h.0 e k)).0),
      (λ e kept k gone l d.
          let kept_in = (stays kept).0 (h.0 kept l) in
          elim (Bool-cases (e.ts == v.ts)) [
            | inl same ↦
                let le = least skip_ts v kept s.index w.2 kept_in.0 d in ground (arith, kept_in.1)
            | inr other ↦ h.1 e kept ((stays e).1 (k, ground arith)) gone l d
          ]),
    )

enforce_limits-OldestFirst :
    (s : CheckpointStore) (skip_ts : ℕ) → OldestFirst skip_ts s (enforce_limits s skip_ts)
unfolding enforce_limits
enforce_limits-OldestFirst s skip_ts =
    enforce-induction skip_ts (OldestFirst skip_ts)
      (λ s h. ((λ e k. k), (λ e kept k gone l d. absurd (gone k))))
      (λ s r v w h. OldestFirst-evict skip_ts s r v w h) (suc (length s.index)) s (omega arith)

-- `enforce_limits` evicts the oldest checkpoints first: each one that it drops is older than each one
-- that it keeps, the spared timestamp's apart.
pub enforce_limits-evicts_oldest :
    (s : CheckpointStore) (skip_ts : ℕ) (gone kept : CheckpointEntry)
    → Has gone s.index
    → ¬ Has gone (enforce_limits s skip_ts).index
    → Has kept (enforce_limits s skip_ts).index
    → kept.ts ≢ skip_ts
    → gone.ts < kept.ts
enforce_limits-evicts_oldest s skip_ts gone kept h k l d =
    (enforce_limits-OldestFirst s skip_ts).1 gone kept h k l d

-- What a restore reads of one timestamp.
abbrev pub SameAt : ℕ → CheckpointStore → CheckpointStore → Type 0
SameAt ts s r =
    (find_ts ts r.index ≡ find_ts ts s.index)
    × (find_blob ts r.blobs ≡ find_blob ts s.blobs)
    × (r.files ≡ s.files)

find_ts-retain :
    (ts gone : ℕ) (es : List CheckpointEntry)
    → gone ≢ ts
    → find_ts ts (retain (λ e. not (e.ts == gone)) es) ≡ find_ts ts es
unfolding find_ts
find_ts-retain ts gone [] h = refl
find_ts-retain ts gone (e ∷ es) h = ground (arith, find_ts-retain ts gone es h)

pub find_blob-remove_blob :
    (ts gone : ℕ) (blobs : List (ℕ × List ℕ))
    → gone ≢ ts
    → find_blob ts (remove_blob gone blobs) ≡ find_blob ts blobs
unfolding find_blob remove_blob
find_blob-remove_blob ts gone [] h = refl
find_blob-remove_blob ts gone ((t, bytes) ∷ blobs) h =
    ground (arith, find_blob-remove_blob ts gone blobs h)

SameAt-evict :
    (skip_ts : ℕ) (s r : CheckpointStore) (v : CheckpointEntry)
    → Oldest skip_ts s.index (some v)
    → SameAt skip_ts (evict s v.ts) r
    → SameAt skip_ts s r
unfolding evict
SameAt-evict skip_ts s r v w h = (
  h.0 ∙ find_ts-retain skip_ts v.ts s.index w.0,
  h.1 ∙ find_blob-remove_blob skip_ts v.ts s.blobs w.0,
  h.2,
)

-- The spared timestamp's entry and blob stay as they were.
pub enforce_limits-SameAt :
    (s : CheckpointStore) (skip_ts : ℕ) → SameAt skip_ts s (enforce_limits s skip_ts)
unfolding enforce_limits
enforce_limits-SameAt s skip_ts =
    enforce-induction skip_ts (SameAt skip_ts) (λ s h. (refl, refl, refl))
      (λ s r v w h. SameAt-evict skip_ts s r v w h) (suc (length s.index)) s (omega arith)

-- The user's files, and what the disk refuses, are none of the budget's business.
abbrev pub SameDisk : CheckpointStore → CheckpointStore → Type 0
SameDisk s r = (r.files ≡ s.files) × (r.faults ≡ s.faults)

pub enforce_limits-SameDisk :
    (s : CheckpointStore) (skip_ts : ℕ) → SameDisk s (enforce_limits s skip_ts)
unfolding enforce_limits evict
enforce_limits-SameDisk s skip_ts =
    enforce-induction skip_ts SameDisk (λ s h. (refl, refl)) (λ s r v w h. h) (suc (length s.index))
      s (omega arith)
