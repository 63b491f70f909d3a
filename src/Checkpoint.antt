-- ===== src/Checkpoint.antt =====
-- The checkpoint store: apps/desktop-daemon/crates/daemon-core/src/checkpoint.rs.
--
-- The disk is part of the state: the index as the list of its readable lines, the blobs under their
-- timestamps, and the user's files under their paths. The store's own files are read and written
-- without failure, but for a blob that is not there; a change of a user's file may fail at its path, as
-- `faults` says, and to write over a directory always does. `sha256` is the hash in hex, of a
-- third-party crate. `now` is what `capture` reads from the clock.
pub mod Limits
pub mod Eviction
pub mod Restore
mod Tests
use synth_hires_bridge.Prelude.{
  ℕ, zero, suc, ◌+◌, String, Bool, true, false, not, ◌&&◌, Option, none, some, List, [], ◌∷◌, ◌++◌,
  if◌then◌else◌, ltb, leb, ◌==◌, length, retain, str_eq, ◌⊎◌, inl, inr,
}
use synth_hires_bridge.Prelude.Map.{Map, lookup, insert, without}

abbrev pub max_checkpoints : ℕ
max_checkpoints = 200

abbrev pub max_total_bytes : ℕ
max_total_bytes = 536870912

abbrev pub max_file_bytes : ℕ
max_file_bytes = 33554432

pub record CheckpointEntry : Type 0 where
  pub action_id : String
  pub capability : String
  pub path : String
  pub ts : ℕ
  pub existed : Bool
  pub size : ℕ
  pub hash : String
  pub truncated : Bool

-- A directory has its number of children.
pub data Node : Type 0 where
  file : List ℕ → Node
  dir : ℕ → Node

pub record CheckpointStore : Type 0 where
  pub index : List CheckpointEntry
  pub blobs : List (ℕ × List ℕ)
  pub files : Map Node
  pub faults : String → Option (Option Node)

pub data CheckpointError : Type 0 where
  not_found unreadable corrupt too_large not_changed : CheckpointError

-- What is at a path once a change of it has ended.
unfoldable pub put : String → Option Node → Map Node → Map Node
put path none files = without path files
put path (some node) files = insert path node files

-- `create_dir_all(parent)?; write(&target, &bytes)?` over what is there: a directory stays and refuses;
-- where the disk refuses, what it leaves is at the path.
unfoldable pub write_over :
    Option (Option Node) → Option Node → String → List ℕ → Map Node → Bool × Map Node
unfolding put
write_over (some left) old path bytes files = (false, put path left files)
write_over none (some (dir count)) path bytes files = (false, files)
write_over none (some (file old)) path bytes files = (true, put path (some (file bytes)) files)
write_over none none path bytes files = (true, put path (some (file bytes)) files)

-- `remove_dir_all` or `remove_file`, where something is there.
unfoldable pub remove_there :
    Option (Option Node) → Option Node → String → Map Node → Bool × Map Node
unfolding put
remove_there fault none path files = (true, files)
remove_there (some left) (some node) path files = (false, put path left files)
remove_there none (some node) path files = (true, put path none files)

unfoldable pub find_blob : ℕ → List (ℕ × List ℕ) → Option (List ℕ)
find_blob ts [] = none
find_blob ts ((t, bytes) ∷ blobs) = if t == ts then some bytes else find_blob ts blobs

unfoldable pub remove_blob : ℕ → List (ℕ × List ℕ) → List (ℕ × List ℕ)
remove_blob ts [] = []
remove_blob ts ((t, bytes) ∷ blobs) =
    let rest = remove_blob ts blobs in if t == ts then rest else (t, bytes) ∷ rest

unfoldable pub write_blob : ℕ → List ℕ → List (ℕ × List ℕ) → List (ℕ × List ℕ)
unfolding remove_blob
write_blob ts bytes blobs = (ts, bytes) ∷ remove_blob ts blobs

unfoldable pub total : List CheckpointEntry → ℕ
total [] = 0
total (e ∷ es) = e.size + total es

unfoldable pub within_limits : List CheckpointEntry → Bool
within_limits es = leb (length es) max_checkpoints && leb (total es) max_total_bytes

unfoldable pub older : CheckpointEntry → Option CheckpointEntry → CheckpointEntry
older e none = e
older e (some o) = if leb e.ts o.ts then e else o

-- `filter(|e| e.ts != skip_ts).min_by_key(|e| e.ts)`, the first of the oldest
unfoldable pub victim : ℕ → List CheckpointEntry → Option CheckpointEntry
unfolding older
victim skip_ts [] = none
victim skip_ts (e ∷ es) =
    let rest = victim skip_ts es in if e.ts == skip_ts then rest else some (older e rest)

unfoldable pub evict : CheckpointStore → ℕ → CheckpointStore
evict s ts = record s {
  index = retain (λ e. not (e.ts == ts)) s.index;
  blobs = remove_blob ts s.blobs;
}

-- One pass of the loop leaves the store, or evicts and goes on; each eviction takes an entry, so the
-- length of the index is fuel enough.
unfoldable pub enforce : ℕ → ℕ → CheckpointStore → CheckpointStore
enforce zero skip_ts s = s
enforce (suc fuel) skip_ts s =
    if within_limits s.index
    then s
    else elim (victim skip_ts s.index) [ none ↦ s | some v ↦ enforce fuel skip_ts (evict s v.ts) ]

unfoldable pub enforce_limits : CheckpointStore → ℕ → CheckpointStore
unfolding enforce
enforce_limits s skip_ts = enforce (suc (length s.index)) skip_ts s

unfoldable pub by_time : CheckpointEntry → List CheckpointEntry → List CheckpointEntry
by_time e [] = e ∷ []
by_time e (x ∷ xs) = if leb x.ts e.ts then e ∷ x ∷ xs else x ∷ by_time e xs

-- `sort_by_key(|e| Reverse(e.ts))` is stable: entries of one time keep their order.
unfoldable pub sorted : List CheckpointEntry → List CheckpointEntry
unfolding by_time
sorted [] = []
sorted (e ∷ es) = by_time e (sorted es)

unfoldable pub list : CheckpointStore → List CheckpointEntry
unfolding sorted
list s = sorted s.index

unfoldable pub find_ts : ℕ → List CheckpointEntry → Option CheckpointEntry
find_ts ts [] = none
find_ts ts (e ∷ es) = if e.ts == ts then some e else find_ts ts es

abbrev pub entry_of : String → String → String → ℕ → Bool × ℕ × Bool × String → CheckpointEntry
entry_of action_id capability path ts (existed, size, truncated, hash) = record {
  action_id = action_id;
  capability = capability;
  path = path;
  ts = ts;
  existed = existed;
  size = size;
  hash = hash;
  truncated = truncated;
}

module _ (sha256 : List ℕ → String) where
  -- What an entry records of its target, and the blobs once the pre-image is written.
  unfoldable pub snapshot :
      ℕ → List (ℕ × List ℕ) → Option Node → (Bool × ℕ × Bool × String) × List (ℕ × List ℕ)
  snapshot ts blobs (some (dir count)) = ((true, count, true, ""), blobs)
  snapshot ts blobs (some (file bytes)) =
      if ltb max_file_bytes (length bytes)
      then ((true, length bytes, true, ""), blobs)
      else ((true, length bytes, false, sha256 bytes), write_blob ts bytes blobs)
  snapshot ts blobs none = ((false, 0, false, ""), blobs)

  unfoldable pub capture :
      CheckpointStore → ℕ → String → String → String → CheckpointEntry × CheckpointStore
  capture s ts action_id capability path =
      let shot = snapshot ts s.blobs (lookup path s.files) in
      let entry = entry_of action_id capability path ts shot.0 in
      (entry, enforce_limits (record s { index = s.index ++ entry ∷ []; blobs = shot.1 }) ts)

  -- The bytes of a blob, checked against the recorded hash.
  unfoldable pub verified : CheckpointEntry → Option (List ℕ) → CheckpointError ⊎ List ℕ
  verified entry none = inl unreadable
  verified entry (some bytes) =
      if not (str_eq entry.hash "") && not (str_eq (sha256 bytes) entry.hash)
      then inl corrupt
      else inr bytes

  -- `?` on the change of the target, and then `Ok(rollback)`.
  unfoldable pub changed :
      CheckpointEntry
      → CheckpointStore
      → Bool × Map Node
      → (CheckpointError ⊎ CheckpointEntry) × CheckpointStore
  changed rollback s (worked, files) =
      (if worked then inr rollback else inl not_changed, record s { files = files })

  -- Writes the pre-image over the target and returns `rollback`.
  unfoldable pub write_file :
      CheckpointEntry
      → CheckpointEntry
      → CheckpointStore
      → CheckpointError ⊎ List ℕ
      → (CheckpointError ⊎ CheckpointEntry) × CheckpointStore
  unfolding changed write_over
  write_file rollback entry s (inl e) = (inl e, s)
  write_file rollback entry s (inr bytes) =
      changed rollback s
        (write_over (s.faults entry.path) (lookup entry.path s.files) entry.path bytes s.files)

  unfoldable pub materialize :
      CheckpointEntry
      → CheckpointEntry
      → CheckpointStore
      → (CheckpointError ⊎ CheckpointEntry) × CheckpointStore
  unfolding write_file remove_there
  materialize rollback entry s =
      if entry.existed && not entry.truncated
      then write_file rollback entry s (verified entry (find_blob entry.ts s.blobs))
      else if entry.existed && entry.truncated
      then (inl too_large, s)
      else changed rollback s
          (remove_there (s.faults entry.path) (lookup entry.path s.files) entry.path s.files)

  -- The rest of `restore`, from the entry that the index has under the timestamp.
  unfoldable pub restore_entry :
      CheckpointStore
      → ℕ
      → Option CheckpointEntry
      → (CheckpointError ⊎ CheckpointEntry) × CheckpointStore
  restore_entry s now none = (inl not_found, s)
  restore_entry s now (some entry) =
      let captured = capture s now "restore" "desktop.fs.restore" entry.path in
      materialize captured.0 entry captured.1

  unfoldable pub restore :
      CheckpointStore → ℕ → ℕ → (CheckpointError ⊎ CheckpointEntry) × CheckpointStore
  restore s now ts = restore_entry s now (find_ts ts s.index)
