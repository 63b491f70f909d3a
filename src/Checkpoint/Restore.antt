-- ===== src/Checkpoint/Restore.antt =====
-- Undoing: a `capture` and a later `restore` of checkpoint.rs bring the file back.
use synth_hires_bridge.Prelude.{
  ℕ, ◌+◌, ◌≤◌, ◌<◌, String, true, false, ◌≡◌, refl, sym, ◌≢◌, inr, Option, none, some, List, [],
  ◌∷◌, ◌++◌, arith, if◌then◌else◌, str_eq, eq_refl, length, length-append, All, ◌∙◌, ap,
}
use synth_hires_bridge.Prelude.Map.{Map, lookup, insert, lookup-insert}
use synth_hires_bridge.Checkpoint.{
  CheckpointEntry, CheckpointStore, Node, file, dir, total, within_limits, enforce, enforce_limits,
  find_blob, write_blob, find_ts, snapshot, entry_of, capture, verified, write_file, materialize,
  restore, restore_entry, write_over, put, changed, max_checkpoints, max_total_bytes,
  max_file_bytes,
}
use synth_hires_bridge.Checkpoint.Eviction.{
  enforce_limits-SameAt, enforce_limits-SameDisk, find_blob-remove_blob,
}

find_ts-append :
    (ts : ℕ) (es : List CheckpointEntry) (e : CheckpointEntry)
    → All (λ x. x.ts ≢ ts) es
    → e.ts ≡ ts
    → find_ts ts (es ++ e ∷ []) ≡ some e
unfolding find_ts
find_ts-append ts [] e h k = ground arith
find_ts-append ts (x ∷ es) e h k = ground (arith, find_ts-append ts es e h.1 k)

module _ (sha256 : List ℕ → String) where
  -- The entry of a file whose bytes are kept.
  abbrev pub kept_entry : String → String → String → ℕ → List ℕ → CheckpointEntry
  kept_entry action_id capability path ts bytes =
      entry_of action_id capability path ts (true, length bytes, false, sha256 bytes)

  snapshot-file :
      (ts : ℕ) (blobs : List (ℕ × List ℕ)) (o : Option Node) (bytes : List ℕ)
      → o ≡ some (file bytes)
      → length bytes ≤ max_file_bytes
      → snapshot sha256 ts blobs o
        ≡ ((true, length bytes, false, sha256 bytes), write_blob ts bytes blobs)
  unfolding snapshot
  snapshot-file ts blobs o bytes there small = rw there (ground arith)

  find_blob-write_blob :
      (ts : ℕ) (bytes : List ℕ) (blobs : List (ℕ × List ℕ))
      → find_blob ts (write_blob ts bytes blobs) ≡ some bytes
  unfolding find_blob write_blob
  find_blob-write_blob ts bytes blobs = ground arith

  -- What a capture of a file that is not too large leaves for its timestamp.
  capture-file :
      (s : CheckpointStore) (ts : ℕ) (action_id capability path : String) (bytes : List ℕ)
      → lookup path s.files ≡ some (file bytes)
      → length bytes ≤ max_file_bytes
      → All (λ e. e.ts ≢ ts) s.index
      → (find_ts ts (capture sha256 s ts action_id capability path).1.index
          ≡ some (kept_entry action_id capability path ts bytes))
        × (find_blob ts (capture sha256 s ts action_id capability path).1.blobs ≡ some bytes)
  unfolding capture
  capture-file s ts action_id capability path bytes there small fresh =
      let shot = snapshot-file ts s.blobs (lookup path s.files) bytes there small in
      let entry = kept_entry action_id capability path ts bytes in
      let kept =
        enforce_limits-SameAt
          (record s { index = s.index ++ entry ∷ []; blobs = write_blob ts bytes s.blobs }) ts in
      rw shot (
        kept.0 ∙ find_ts-append ts s.index entry fresh refl,
        kept.1 ∙ find_blob-write_blob ts bytes s.blobs,
      )

  -- The budget has room for one more checkpoint of a target.
  abbrev pub node_size : Option Node → ℕ
  node_size none = 0
  node_size (some (file bytes)) = length bytes
  node_size (some (dir count)) = count

  abbrev pub HasRoom : CheckpointStore → String → Type 0
  HasRoom s path =
      (length s.index < max_checkpoints)
      × ((total s.index + node_size (lookup path s.files)) ≤ max_total_bytes)

  total-append :
      (es : List CheckpointEntry) (e : CheckpointEntry) → total (es ++ e ∷ []) ≡ total es + e.size
  unfolding total
  total-append [] e = omega arith
  total-append (x ∷ es) e = omega (arith, total-append es e)

  size-snapshot :
      (ts : ℕ) (blobs : List (ℕ × List ℕ)) (o : Option Node)
      → (snapshot sha256 ts blobs o).0.1 ≡ node_size o
  unfolding snapshot
  size-snapshot ts blobs none = refl
  size-snapshot ts blobs (some (file bytes)) = ground arith
  size-snapshot ts blobs (some (dir count)) = refl

  enforce_limits-fits :
      (s : CheckpointStore) (ts : ℕ) → within_limits s.index ≡ true → enforce_limits s ts ≡ s
  unfolding enforce_limits enforce
  enforce_limits-fits s ts h = rw h refl

  find_blob-snapshot :
      (ts now : ℕ) (blobs : List (ℕ × List ℕ)) (o : Option Node)
      → now ≢ ts
      → find_blob ts (snapshot sha256 now blobs o).1 ≡ find_blob ts blobs
  unfolding snapshot find_blob write_blob
  find_blob-snapshot ts now blobs none h = refl
  find_blob-snapshot ts now blobs (some (dir count)) h = refl
  find_blob-snapshot ts now blobs (some (file bytes)) h =
      ground (arith, find_blob-remove_blob ts now blobs h)

  capture-room :
      (s : CheckpointStore) (ts now : ℕ) (action_id capability path : String)
      → HasRoom s path
      → now ≢ ts
      → find_blob ts (capture sha256 s now action_id capability path).1.blobs ≡ find_blob ts s.blobs
  unfolding capture within_limits
  capture-room s ts now action_id capability path room other =
      let shot = snapshot sha256 now s.blobs (lookup path s.files) in
      let entry = entry_of action_id capability path now shot.0 in
      let pre = record s { index = s.index ++ entry ∷ []; blobs = shot.1 } in
      let count = length-append s.index (entry ∷ []) in
      let bytes = total-append s.index entry in
      let size = size-snapshot now s.blobs (lookup path s.files) in
      ap (λ r. find_blob ts r.blobs)
        (enforce_limits-fits pre now
          (fits pre.index room count (bytes ∙ ap (λ n. total s.index + n) size)))
      ∙ find_blob-snapshot ts now s.blobs (lookup path s.files) other
    where
      fits :
          (es : List CheckpointEntry)
          → HasRoom s path
          → length es ≡ length s.index + 1
          → total es ≡ total s.index + node_size (lookup path s.files)
          → within_limits es ≡ true
      fits es room count bytes = ground arith

  -- The disk takes a file at the path: it does not refuse, and no directory is in the way.
  abbrev pub Writable : CheckpointStore → String → Type 0
  Writable s path = (s.faults path ≡ none) × ((n : ℕ) → lookup path s.files ≢ some (dir n))

  verified-kept :
      (action_id capability path : String) (ts : ℕ) (bytes : List ℕ)
      → verified sha256 (kept_entry action_id capability path ts bytes) (some bytes) ≡ inr bytes
  unfolding verified
  verified-kept action_id capability path ts bytes =
      let same = eq_refl (sha256 bytes) in ground arith

  write_over-file :
      (old : Option Node) (path : String) (bytes : List ℕ) (files : Map Node)
      → ((n : ℕ) → old ≢ some (dir n))
      → write_over none old path bytes files ≡ (true, insert path (file bytes) files)
  unfolding write_over put
  write_over-file none path bytes files h = refl
  write_over-file (some (file old)) path bytes files h = refl
  write_over-file (some (dir n)) path bytes files h = absurd (h n refl)

  materialize-file :
      (rollback : CheckpointEntry) (s : CheckpointStore) (action_id capability path : String)
      (ts : ℕ) (bytes : List ℕ)
      → find_blob ts s.blobs ≡ some bytes
      → Writable s path
      → materialize sha256 rollback (kept_entry action_id capability path ts bytes) s
        ≡ (inr rollback, record s { files = insert path (file bytes) s.files })
  unfolding materialize write_file changed
  materialize-file rollback s action_id capability path ts bytes h w =
      ap (λ b. write_file sha256 rollback entry s (verified sha256 entry b)) h
      ∙ ap (write_file sha256 rollback entry s) checked
      ∙ ap (λ f. changed sha256 rollback s (write_over f (lookup path s.files) path bytes s.files))
          w.0
      ∙ ap (changed sha256 rollback s)
          (write_over-file (lookup path s.files) path bytes s.files w.1)
    where
      entry : CheckpointEntry
      entry = kept_entry action_id capability path ts bytes

      checked : verified sha256 entry (some bytes) ≡ inr bytes
      checked = verified-kept action_id capability path ts bytes

  restore-found :
      (s : CheckpointStore) (now ts : ℕ) (entry : CheckpointEntry)
      → find_ts ts s.index ≡ some entry
      → restore sha256 s now ts
        ≡ materialize sha256
            (capture sha256 s now "restore" "desktop.fs.restore" entry.path).0
            entry
            (capture sha256 s now "restore" "desktop.fs.restore" entry.path).1
  unfolding restore restore_entry
  restore-found s now ts entry h = ap (λ o. restore_entry sha256 s now o) h

  capture-disk :
      (s : CheckpointStore) (now : ℕ) (action_id capability path : String)
      → ((capture sha256 s now action_id capability path).1.files ≡ s.files)
        × ((capture sha256 s now action_id capability path).1.faults ≡ s.faults)
  unfolding capture
  capture-disk s now action_id capability path = enforce_limits-SameDisk _ now

  -- Undo: after `capture` of a file of at most 32 MiB at `ts`, and any change of the user's files that
  -- leaves no directory at its path, `restore` of `ts` succeeds and puts the file's bytes back, provided
  -- that no earlier checkpoint bore `ts`, that the restore comes at another time, that the budget has
  -- room for the restore's own checkpoint, and that the disk does not refuse to write at the path.
  pub restore-capture :
      (s : CheckpointStore) (ts now : ℕ) (action_id capability path : String) (bytes : List ℕ)
      (changes : Map Node)
      → lookup path s.files ≡ some (file bytes)
      → length bytes ≤ max_file_bytes
      → All (λ e. e.ts ≢ ts) s.index
      → now ≢ ts
      → HasRoom (record (capture sha256 s ts action_id capability path).1 { files = changes }) path
      → Writable (record (capture sha256 s ts action_id capability path).1 { files = changes }) path
      → let done =
          restore sha256
            (record (capture sha256 s ts action_id capability path).1 { files = changes })
            now
            ts in
        ((rollback : CheckpointEntry) × (done.0 ≡ inr rollback))
        × (lookup path done.1.files ≡ some (file bytes))
  restore-capture s ts now action_id capability path bytes changes there small fresh other room w =
      let mutated = record (capture sha256 s ts action_id capability path).1 { files = changes } in
      let (found, blob) = capture-file s ts action_id capability path bytes there small fresh in
      let entry = kept_entry action_id capability path ts bytes in
      let (rollback, kept) = capture sha256 mutated now "restore" "desktop.fs.restore" path in
      let still =
        capture-room mutated ts now "restore" "desktop.fs.restore" path room other ∙ blob in
      let disk = capture-disk mutated now "restore" "desktop.fs.restore" path in
      let writable : Writable kept path = (
        ap (λ (f : String → Option (Option Node)). f path) disk.1 ∙ w.0,
        λ n here. w.1 n (ap (lookup path) (sym disk.0) ∙ here),
      ) in
      let found_here : (if str_eq path path then some (file bytes) else lookup path kept.files)
          ≡ some (file bytes) =
        let same = eq_refl path in ground arith in
      let done =
        restore-found mutated now ts entry found
        ∙ materialize-file rollback kept action_id capability path ts bytes still writable in
      (
        (rollback, ap (λ r. r.0) done),
        ap (λ r. lookup path r.1.files) done
            ∙ (lookup-insert path path (file bytes) kept.files ∙ found_here),
      )
