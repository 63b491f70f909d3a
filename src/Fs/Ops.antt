-- ===== src/Fs/Ops.antt =====
-- `FsOps` of fs_ops.rs: `gate_for_path`, `read`, `read_annotated`, `write` and `patch`.
--
-- `display` is the text of a path (`Path::display`), under which the disk has its file. `tmp` is the
-- fresh name that a write uses, and `explain` the text that the source prints of a patch error. The
-- disk of an operation is the one that the calls of the program act on, one after the other.
use Prim.Native.String.{◌++◌ as ◌+++◌}
use synth_hires_bridge.Prelude.{
  ℕ, min, String, Bool, not, Option, none, some, List, [], ◌∷◌, ◌++◌, length, take, if◌then◌else◌,
  ltb, unwrap_or, str_eq,
}
use synth_hires_bridge.Prelude.Text.{bytes_eq}
use synth_hires_bridge.Capability.Paths.{FilePath, Platform}
use synth_hires_bridge.Capability.Resolve.{Canonicalize, parent}
use synth_hires_bridge.Capability.{
  GateDecision, allow, require_consent, deny, CapabilityGate, check_path, check_path_real,
}
use synth_hires_bridge.Errors.{capability_denied, path_denied, io, protocol, Result, Done, ok, err}
use synth_hires_bridge.Fs.{base64_encode, base64_decode}
use synth_hires_bridge.Fs.Disk.{Disk, Faults, attempt, read_file, write_via_unique_tmp}
use synth_hires_bridge.Fs.Text.{lf, from_utf8_lossy, lines, join, ends_with}
use synth_hires_bridge.Fs.Hashline.{
  Line, HashlineEdit, FsPatchApplied, PatchError, no_edits, Planning, planned, refused,
  patched_lines, annotate_content,
}

pub record FsReadRequest : Type 0 where
  pub path : FilePath
  pub max_bytes : Option ℕ

pub record FsReadResult : Type 0 where
  pub content_base64 : List ℕ
  pub size : ℕ
  pub truncated : Bool

pub record FsWriteRequest : Type 0 where
  pub path : FilePath
  pub content : List ℕ

pub record FsWriteResult : Type 0 where
  pub bytes_written : ℕ
  pub verified : Bool

pub record FsPatchRequest : Type 0 where
  pub path : FilePath
  pub edits : List HashlineEdit

pub record FsPatchResult : Type 0 where
  pub bytes_written : ℕ
  pub verified : Bool
  pub applied : List FsPatchApplied

abbrev pub max_write_bytes : ℕ
max_write_bytes = 67108864

-- `?` on the outcome of a step that may have changed the disk.
abbrev pub and_then {ℓ} : {A : Type ℓ} → Done × Disk → (Disk → Result A × Disk) → Result A × Disk
and_then (ok _, d) next = next d
and_then (err e, d) next = (err e, d)

-- `?` on a file that is read.
abbrev pub reading {ℓ} :
    {A : Type ℓ} → Option (List ℕ) → Disk → (List ℕ → Result A × Disk) → Result A × Disk
reading none d next = (err (io "No such file or directory (os error 2)"), d)
reading (some bytes) d next = next bytes

-- How many bytes a read returns at most.
abbrev pub read_limit : FsReadRequest → ℕ
read_limit req = min (unwrap_or req.max_bytes 1048576) 10485760

-- The bounded read of a file.
unfoldable pub bounded : ℕ → List ℕ → FsReadResult
bounded limit file =
    let bytes = take limit file in
    record {
      content_base64 = base64_encode bytes;
      size = length bytes;
      truncated = ltb (length bytes) (length file);
    }

-- What a write reports of the file that it reads back.
unfoldable pub wrote : List ℕ → List ℕ → FsWriteResult
wrote content written = record {
  bytes_written = length written;
  verified = bytes_eq written content;
}

-- The bytes read back after a write.
unfoldable pub read_written : Faults → Disk → String → Option (List ℕ)
read_written f d path = elim f.read_back [ none ↦ read_file d path | some e ↦ none ]

-- The text of a patched file: the lines, and a line feed at the end where the file had one.
unfoldable pub content_of : List ℕ → List Line → List ℕ
content_of original ls = if ends_with lf original then join ls ++ lf ∷ [] else join ls

-- The path is its text here.
module _ (digest6 : List ℕ → List ℕ) (explain : PatchError → String) where
  -- From the spliced lines on.
  unfoldable pub write_patched :
      Faults
      → Disk
      → String
      → String
      → List ℕ
      → Planning (List Line × List FsPatchApplied)
      → Result FsPatchResult × Disk
  unfolding read_written
  write_patched f d tmp path original (refused why) = (err (protocol (explain why)), d)
  write_patched f d tmp path original (planned (ls, applied)) =
      let content = content_of original ls in
      and_then (write_via_unique_tmp f d path tmp content) λ d₁.
        reading (read_written f d₁ path) d₁ λ written. (
          ok (record {
            bytes_written = length written;
            verified = bytes_eq written content;
            applied = applied;
          }),
          d₁,
        )

  unfoldable pub patch_edits :
      Faults → Disk → String → String → List HashlineEdit → Result FsPatchResult × Disk
  unfolding write_patched
  patch_edits f d tmp path [] = (err (protocol (explain no_edits)), d)
  patch_edits f d tmp path (edit ∷ edits) = reading (read_file d path) d λ original.
      write_patched f d tmp path original
        (patched_lines digest6 (lines (from_utf8_lossy original)) (edit ∷ edits))

module _ (display : FilePath → String) where
  unfoldable pub verdict : String → FilePath → GateDecision → Done
  verdict capability path allow = ok tt
  verdict capability path require_consent =
      err (capability_denied (capability +++ (" requires consent for " +++ display path)))
  verdict capability path deny = err (capability_denied capability)

module _ (platform : Platform) (canonicalize : Canonicalize) (display : FilePath → String) where
  unfoldable pub gate_decision : CapabilityGate → String → FilePath → GateDecision
  gate_decision gate capability path =
      if not (str_eq capability "desktop.fs.read")
      then check_path_real platform canonicalize gate capability path
      else check_path platform gate capability path

  unfoldable pub gate_for_path : CapabilityGate → String → FilePath → Done
  unfolding verdict gate_decision
  gate_for_path gate capability path =
      verdict display capability path (gate_decision gate capability path)

  unfoldable pub read : CapabilityGate → Disk → FsReadRequest → Result FsReadResult × Disk
  unfolding bounded
  read gate d req =
      and_then (gate_for_path gate "desktop.fs.read" req.path, d)
        λ d₁.
          reading (read_file d₁ (display req.path)) d₁
            λ file. (ok (bounded (read_limit req) file), d₁)

  unfoldable pub write_under :
      Faults → Disk → String → FsWriteRequest → Option FilePath → Result FsWriteResult × Disk
  unfolding wrote read_written
  write_under f d tmp req none = (err (path_denied (display req.path +++ ": no parent")), d)
  write_under f d tmp req (some parent) =
      and_then
        (attempt f.create_dir_all d (write_via_unique_tmp f d (display req.path) tmp req.content))
        λ d₁.
          reading (read_written f d₁ (display req.path)) d₁
            λ written. (ok (wrote req.content written), d₁)

  unfoldable pub write :
      CapabilityGate → Faults → Disk → String → FsWriteRequest → Result FsWriteResult × Disk
  unfolding write_under
  write gate f d tmp req =
      and_then (gate_for_path gate "desktop.fs.write" req.path, d)
        λ d₁.
          if ltb max_write_bytes (length req.content)
          then (
            err (path_denied "write rejected: the content exceeds the 64 MiB per-write limit"),
            d₁,
          )
          else write_under f d₁ tmp req (parent req.path)

  module _ (digest6 : List ℕ → List ℕ) (explain : PatchError → String) where
    unfoldable pub patch :
        CapabilityGate → Faults → Disk → String → FsPatchRequest → Result FsPatchResult × Disk
    unfolding patch_edits
    patch gate f d tmp req =
        and_then (gate_for_path gate "desktop.fs.write" req.path, d)
          λ d₁. patch_edits digest6 explain f d₁ tmp (display req.path) req.edits

  module _ (digest6 : List ℕ → List ℕ) (decimal : ℕ → List ℕ) where
    unfoldable pub annotated : FsReadResult → Option (List ℕ) → Result FsReadResult
    annotated result none = err (protocol "fs.read: base64 roundtrip failed")
    annotated result (some plain) = ok (record result {
      content_base64 = base64_encode (annotate_content digest6 decimal (from_utf8_lossy plain));
    })

    unfoldable pub annotate_read : Bool → Result FsReadResult → Result FsReadResult
    unfolding annotated
    annotate_read annotate (err e) = err e
    annotate_read annotate (ok result) =
        if annotate then annotated result (base64_decode result.content_base64) else ok result

    unfoldable pub read_annotated :
        CapabilityGate → Disk → FsReadRequest → Bool → Result FsReadResult × Disk
    unfolding annotate_read
    read_annotated gate d req annotate =
        let found = read gate d req in (annotate_read annotate found.0, found.1)
