-- ===== src/Fs/PatchTests.antt =====
-- The files of fs_ops.rs on a concrete disk.
use synth_hires_bridge.Prelude.{
  ℕ, String, none, some, List, [], ◌∷◌, ◌≡◌, refl, take, map, reverse, arith,
}
use synth_hires_bridge.Prelude.Text.{
  codes, split, onto_first, bytes_eq, trim, trim_start, is_whitespace, between,
}
use synth_hires_bridge.Prelude.Map.{lookup}
use synth_hires_bridge.Capability.Paths.{
  root_dir, normal, FilePath, unix, has_parent_dir, starts_with, component_eq, path_starts_with,
  paths_equal,
}
use synth_hires_bridge.Capability.Resolve.{Canonicalize, resolve_existing}
use synth_hires_bridge.Capability.{
  allow, CapabilityGate, check_path, check_path_real, check_resolved, allows, one_shot_covers,
  path_matches_any, canonically_allowed, resolved_covers,
}
use synth_hires_bridge.Fs.Disk.{
  regular, Disk, Faults, no_faults, read_file, contents, followed, write_via_unique_tmp,
}
use synth_hires_bridge.Fs.Text.{
  from_utf8_lossy, lines, lossy_from, ends_with, followers, width, second_ok, tails,
}
use synth_hires_bridge.Fs.Hashline.{
  HashlineEdit, PatchError, planned, first_line, last_line, range_of, patched_lines, apply_plan,
  apply_planned, plan, also, anchor_matches, actual_hashes_of, short_hash, strip_cr, applied_of,
  splice, overlaps, sort_descending, place,
}
use synth_hires_bridge.Fs.Splice.{rewritten}
use synth_hires_bridge.Fs.Edits.{Acceptable, patched_lines-rewritten}
use synth_hires_bridge.Fs.Atomic.{Replaced, write_via_unique_tmp-Replaced}
use synth_hires_bridge.Fs.PatchLaws.{GatedOutcome, patch-GatedOutcome}
use synth_hires_bridge.Fs.Outcomes.{WriteOutcome, write-WriteOutcome}
use synth_hires_bridge.Fs.Progress.{Succeeds, patch-Succeeds}
use synth_hires_bridge.Fs.Ops.{
  FsReadRequest, FsWriteRequest, FsPatchRequest, gate_decision, write, patch,
}

abbrev home : FilePath
home = root_dir ∷ normal "home" ∷ []

abbrev notes : FilePath
notes = root_dir ∷ normal "home" ∷ normal "notes" ∷ []

abbrev display : FilePath → String
display p = "notes"

abbrev plain : Canonicalize
plain p = some p

abbrev gate : CapabilityGate
gate = record {
  snapshot = record {
    capabilities = "desktop.fs.read" ∷ "desktop.fs.write" ∷ [];
    always_allow_paths = home ∷ [];
    one_shot_paths = [];
  };
}

abbrev original : List ℕ
original = codes "a\nb\nc\n"

abbrev disk : Disk
disk = ("notes", regular original) ∷ []

-- A hash that tells lines apart by their first two characters.
abbrev digest6 : List ℕ → List ℕ
digest6 = take 2

abbrev explain : PatchError → String
explain e = "refused"

-- The last line anchored, and the first by its number alone.
abbrev change_c : HashlineEdit
change_c = record {
  start_line = 3;
  end_line = none;
  hashes = some (codes "c");
  replacement = codes "C" ∷ codes "D" ∷ [];
}

abbrev drop_a : HashlineEdit
drop_a = record { start_line = 1; end_line = some 2; hashes = none; replacement = [] }

abbrev request : FsPatchRequest
request = record { path = notes; edits = drop_a ∷ change_c ∷ [] }

patched :
    patched_lines digest6 (lines original) (drop_a ∷ change_c ∷ [])
    ≡ planned (
      codes "C" ∷ codes "D" ∷ [],
      record { start_line = 1; end_line = 2; lines_added = 0 }
          ∷ record { start_line = 3; end_line = 3; lines_added = 2 }
          ∷ [],
    )
unfolding patched_lines apply_plan apply_planned plan also anchor_matches actual_hashes_of
    short_hash strip_cr splice overlaps sort_descending place first_line last_line lines onto_first
    split trim trim_start is_whitespace bytes_eq between ends_with
patched = refl

allowed : gate_decision unix plain display gate "desktop.fs.write" notes ≡ allow
unfolding gate_decision check_path_real check_path check_resolved allows has_parent_dir
    one_shot_covers path_matches_any path_starts_with paths_equal canonically_allowed
    resolved_covers resolve_existing starts_with component_eq
allowed = refl

fits : Acceptable digest6 (lines (from_utf8_lossy original)) (drop_a ∷ change_c ∷ [])
unfolding lines onto_first from_utf8_lossy lossy_from followers width second_ok tails between
    last_line first_line anchor_matches actual_hashes_of short_hash strip_cr sort_descending place
    split trim trim_start is_whitespace bytes_eq ends_with
fits = (
  ((omega arith, refl), ((omega arith, refl), tt)),
  (omega arith, omega arith, (omega arith, omega arith, tt)),
)

patched_lines-rewritten_example :
    Acceptable digest6 (lines original) (drop_a ∷ change_c ∷ [])
    × codes "C" ∷ codes "D" ∷ []
      ≡ rewritten (map range_of (drop_a ∷ change_c ∷ [])) 0 (lines original)
    × record { start_line = 1; end_line = 2; lines_added = 0 }
        ∷ record { start_line = 3; end_line = 3; lines_added = 2 }
        ∷ []
      ≡ reverse (map applied_of (sort_descending (map range_of (drop_a ∷ change_c ∷ []))))
patched_lines-rewritten_example =
    patched_lines-rewritten digest6 (lines original) (drop_a ∷ change_c ∷ []) _ _ patched

patch-GatedOutcome_example :
    GatedOutcome unix plain display digest6 explain
      (gate_decision unix plain display gate "desktop.fs.write" notes)
      disk
      "notes"
      "tmp"
      (drop_a ∷ change_c ∷ [])
      (patch unix plain display digest6 explain gate no_faults disk "tmp" request)
patch-GatedOutcome_example =
    patch-GatedOutcome unix plain display digest6 explain gate no_faults disk "tmp" request refl

patch-Succeeds_example :
    Succeeds (patch unix plain display digest6 explain gate no_faults disk "tmp" request)
unfolding lookup read_file contents followed
patch-Succeeds_example =
    patch-Succeeds unix plain display digest6 explain gate disk "tmp" notes drop_a (change_c ∷ [])
      original allowed refl refl refl fits

-- The disk fills up after two bytes.
abbrev full : Faults
full = record no_faults { write_all = some "No space left on device"; stored = 2 }

write_via_unique_tmp-Replaced_example :
    Replaced disk "notes" "tmp" original (write_via_unique_tmp full disk "notes" "tmp" original)
write_via_unique_tmp-Replaced_example =
    write_via_unique_tmp-Replaced full disk "notes" "tmp" original refl

abbrev letter : FsWriteRequest
letter = record { path = notes; content = codes "dear" }

write-WriteOutcome_example :
    WriteOutcome unix plain display
      (gate_decision unix plain display gate "desktop.fs.write" notes)
      disk
      "tmp"
      letter
      (write unix plain display gate full disk "tmp" letter)
write-WriteOutcome_example = write-WriteOutcome unix plain display gate full disk "tmp" letter refl

abbrev first_two : FsReadRequest
first_two = record { path = notes; max_bytes = some 2 }
