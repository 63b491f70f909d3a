-- ===== src/Fs/Progress.antt =====
-- `patch` of fs_ops.rs succeeds where its edits fit.
use mathlib.Core.Option.{some-injective}
use synth_hires_bridge.Prelude.{
  none≢some, String, false, Option, none, some, List, ◌∷◌, ◌≡◌, ◌≢◌, sym, subst, ap, ◌∙◌, str_eq, ℕ,
}
use synth_hires_bridge.Prelude.Map.{lookup}
use synth_hires_bridge.Capability.Paths.{FilePath, Platform}
use synth_hires_bridge.Capability.Resolve.{Canonicalize}
use synth_hires_bridge.Capability.{allow, CapabilityGate}
use synth_hires_bridge.Errors.{DaemonError, Result, Done, ok, err}
use synth_hires_bridge.Fs.Disk.{Disk, no_faults, read_file, write_via_unique_tmp}
use synth_hires_bridge.Fs.Atomic.{
  Replaced, write_via_unique_tmp-Replaced, write_via_unique_tmp-succeeds,
}
use synth_hires_bridge.Fs.Text.{from_utf8_lossy, lines}
use synth_hires_bridge.Fs.Hashline.{
  Line, HashlineEdit, FsPatchApplied, PatchError, Planning, planned, refused, patched_lines,
}
use synth_hires_bridge.Fs.Ranges.{refused≢planned}
use synth_hires_bridge.Fs.Edits.{Acceptable, patched_lines-accepts}
use synth_hires_bridge.Fs.Writes.{read_file-regular}
use synth_hires_bridge.Fs.Ops.{
  and_then, reading, read_written, content_of, gate_decision, verdict, gate_for_path, write_patched,
  patch_edits, patch,
}

-- The operation returns a value.
abbrev pub Succeeds : {A : Type 0} → Result A × Disk → Type 0
Succeeds {A} r = (a : A) × (r.0 ≡ ok a)

err≢ok : {A : Type 0} {why : DaemonError} {a : A} → err why ≢ ok a
err≢ok e = cc

then-Succeeds :
    {A : Type 0} (path tmp : String) (content : List ℕ) (d : Disk) (report : List ℕ → A)
    (w : Done × Disk)
    → Replaced d path tmp content w
    → w.0 ≡ ok tt
    → Succeeds (
        and_then w
          λ d₁. reading (read_written no_faults d₁ path) d₁ (λ written. (ok (report written), d₁)))
unfolding read_written
then-Succeeds path tmp content d report (ok _, after) h e = (
  report content,
  ap (λ o. (reading o after (λ written. (ok (report written), after))).0)
      (read_file-regular path content after h.0),
)
then-Succeeds path tmp content d report (err why, after) h e = absurd (err≢ok e)

module _ (digest6 : List ℕ → List ℕ) (explain : PatchError → String) (d : Disk) (path tmp : String)
    (apart : str_eq tmp path ≡ false) (free : lookup tmp d ≡ none) where
  written-Succeeds :
      (original : List ℕ) (p : Planning (List Line × List FsPatchApplied))
      (out : List Line × List FsPatchApplied)
      → p ≡ planned out
      → Succeeds (write_patched digest6 explain no_faults d tmp path original p)
  unfolding write_patched
  written-Succeeds original (planned (ls, applied)) out e =
      let content = content_of original ls in
      then-Succeeds path tmp content d _ (write_via_unique_tmp no_faults d path tmp content)
        (write_via_unique_tmp-Replaced no_faults d path tmp content apart)
        (write_via_unique_tmp-succeeds d path tmp content free)
  written-Succeeds original (refused why) out e = absurd (refused≢planned e)

  edits-Succeeds :
      (edits : List HashlineEdit) (original : List ℕ) (o : Option (List ℕ))
      → o ≡ some original
      → Acceptable digest6 (lines (from_utf8_lossy original)) edits
      → Succeeds (
          reading o d λ file.
            write_patched digest6 explain no_faults d tmp path file
              (patched_lines digest6 (lines (from_utf8_lossy file)) edits))
  edits-Succeeds edits original none e fit = absurd (none≢some e)
  edits-Succeeds edits original (some file) e fit =
      let done = patched_lines-accepts digest6 (lines (from_utf8_lossy file)) edits (
        subst (λ o. Acceptable digest6 (lines (from_utf8_lossy o)) edits)
          (sym (some-injective _ _ e)) fit) in
      written-Succeeds file _ done.0 done.1

module _ (platform : Platform) (canonicalize : Canonicalize) (display : FilePath → String)
    (digest6 : List ℕ → List ℕ) (explain : PatchError → String) where
  -- Where the gate allows the write, there is an edit, the edits fit the file that is there, the
  -- temporary name is free and not the target's, and no operation of the system fails, a patch
  -- succeeds.
  pub patch-Succeeds :
      (gate : CapabilityGate) (d : Disk) (tmp : String) (path : FilePath) (edit : HashlineEdit)
      (edits : List HashlineEdit) (original : List ℕ)
      → gate_decision platform canonicalize display gate "desktop.fs.write" path ≡ allow
      → str_eq tmp (display path) ≡ false
      → lookup tmp d ≡ none
      → read_file d (display path) ≡ some original
      → Acceptable digest6 (lines (from_utf8_lossy original)) (edit ∷ edits)
      → Succeeds (
          patch platform canonicalize display digest6 explain gate no_faults d tmp
            (record { path = path; edits = edit ∷ edits }))
  unfolding patch patch_edits gate_for_path verdict
  patch-Succeeds gate d tmp path edit edits original allowed apart free had fit =
      let run =
        edits-Succeeds digest6 explain d (display path) tmp apart free (edit ∷ edits) original
          (read_file d (display path)) had fit in
      (
        run.0,
        ap
              (λ g.
                (and_then (verdict display "desktop.fs.write" path g, d)
                  λ d₁.
                    patch_edits digest6 explain no_faults d₁ tmp (display path) (edit ∷ edits)).0)
              allowed
            ∙ run.1,
      )
