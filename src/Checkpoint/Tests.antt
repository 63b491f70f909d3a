-- ===== src/Checkpoint/Tests.antt =====
-- The checkpoint store on concrete files.
use synth_hires_bridge.Prelude.{
  ℕ, String, true, false, ◌≡◌, refl, inl, inr, none, some, List, [], ◌∷◌, arith, Has, ap, subst,
}
use synth_hires_bridge.Prelude.Map.{Map, lookup}
use synth_hires_bridge.Checkpoint.{
  CheckpointEntry, CheckpointStore, Node, file, dir, not_changed, restore_entry, materialize,
  write_file, changed, write_over, verified, find_ts, find_blob, enforce_limits, enforce,
  within_limits, total, victim, older, evict, remove_blob, capture, restore, snapshot, write_blob,
}
use synth_hires_bridge.Checkpoint.Limits.{InBudget, enforce_limits-Bounded}
use synth_hires_bridge.Checkpoint.Restore.{HasRoom, Writable, restore-capture}

abbrev video : CheckpointEntry
video = record {
  action_id = "a1";
  capability = "desktop.fs.write";
  path = "/home/ana/video.mp4";
  ts = 1;
  existed = true;
  size = 600_000_000;
  hash = "";
  truncated = true;
}

abbrev note : CheckpointEntry
note = record {
  action_id = "a2";
  capability = "desktop.fs.write";
  path = "/home/ana/notes.txt";
  ts = 2;
  existed = true;
  size = 3;
  hash = "00";
  truncated = false;
}

abbrev crowded : CheckpointStore
crowded = record {
  index = video ∷ note ∷ [];
  blobs = (2, 1 ∷ 2 ∷ 3 ∷ []) ∷ [];
  files = [];
  faults = λ path. none;
}

enforce_limits-Bounded_example : InBudget 3 (enforce_limits crowded 3).index
enforce_limits-Bounded_example = enforce_limits-Bounded crowded 3

left : (enforce_limits crowded 3).index ≡ note ∷ []
unfolding enforce_limits enforce within_limits total victim older evict
left = refl

video_gone : ¬ Has video (enforce_limits crowded 3).index
video_gone h = not_video (subst (λ es. Has video es) left h)
  where
    not_video : ¬ Has video (note ∷ [])
    not_video (inl e) = let t = ap (λ x. x.ts) e in absurd (omega arith)
    not_video (inr e) = e

note_kept : Has note (enforce_limits crowded 3).index
unfolding enforce_limits enforce within_limits total victim older evict
note_kept = inl refl

-- A hash that tells nothing apart.
abbrev same_hash : List ℕ → String
same_hash bytes = "00"

abbrev home : CheckpointStore
home = record {
  index = [];
  blobs = [];
  files = ("/home/ana/notes.txt", file (1 ∷ 2 ∷ 3 ∷ [])) ∷ [];
  faults = λ path. none;
}

abbrev overwritten : Map Node
overwritten = ("/home/ana/notes.txt", file (9 ∷ [])) ∷ []

there : lookup "/home/ana/notes.txt" home.files ≡ some (file (1 ∷ 2 ∷ 3 ∷ []))
unfolding lookup
there = refl

abbrev captured : CheckpointStore
captured = (capture same_hash home 10 "a1" "desktop.fs.write" "/home/ana/notes.txt").1

room : HasRoom same_hash (record captured { files = overwritten }) "/home/ana/notes.txt"
unfolding capture snapshot enforce_limits enforce within_limits total lookup write_blob remove_blob
room = (omega arith, omega arith)

writable : Writable same_hash (record captured { files = overwritten }) "/home/ana/notes.txt"
unfolding capture snapshot enforce_limits enforce within_limits total lookup write_blob remove_blob
writable = (refl, λ n e. cc)

restore-capture_example :
    let done = restore same_hash (record captured { files = overwritten }) 20 10 in
    ((rollback : CheckpointEntry) × (done.0 ≡ inr rollback))
    × (lookup "/home/ana/notes.txt" done.1.files ≡ some (file (1 ∷ 2 ∷ 3 ∷ [])))
restore-capture_example =
    restore-capture same_hash home 10 20 "a1" "desktop.fs.write" "/home/ana/notes.txt"
      (1 ∷ 2 ∷ 3 ∷ []) overwritten there (omega arith) tt (λ e. absurd (omega arith)) room writable

-- A directory that took the file's place stays, and the restore fails.
abbrev replaced : CheckpointStore
replaced = record captured { files = ("/home/ana/notes.txt", dir 0) ∷ [] }

directory_stays :
    ((restore same_hash replaced 20 10).0 ≡ inl not_changed)
    × ((restore same_hash replaced 20 10).1.files ≡ replaced.files)
unfolding restore restore_entry materialize write_file changed write_over verified capture snapshot
    enforce_limits enforce within_limits total lookup write_blob remove_blob find_ts find_blob
directory_stays = (refl, refl)
