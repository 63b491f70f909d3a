-- ===== src/Fs/Writes.antt =====
-- A file that fs_ops.rs writes and reads back, whatever fails on the way.
use synth_hires_bridge.Prelude.{
  ℕ, String, true, false, Option, none, some, List, ◌≡◌, refl, ap, arith, str_eq, Option-cases, inl,
  inr, ◌⊎◌,
}
use synth_hires_bridge.Prelude.Map.{lookup}
use synth_hires_bridge.Prelude.Text.{bytes_eq, bytes_eq_iff}
use synth_hires_bridge.Errors.{Result, Done, ok, err}
use synth_hires_bridge.Fs.Disk.{regular, Disk, Faults, followed, contents, read_file}
use synth_hires_bridge.Fs.Atomic.{Replaced}
use synth_hires_bridge.Fs.Ops.{and_then, reading, read_written}

-- The rest of the disk is as it was, but for the temporary file.
abbrev pub Untouched : String → Disk → Disk → Type 0
Untouched tmp d after = (p : String) → str_eq tmp p ≡ false → lookup p after ≡ lookup p d

module _ (d : Disk) (path tmp : String) (content : List ℕ) where
  -- The file has the content, and no other has changed.
  abbrev pub Holds : Disk → Type 0
  Holds after =
      (lookup path after ≡ some (regular content))
      × ((p : String) → str_eq path p ≡ false → str_eq tmp p ≡ false → lookup p after ≡ lookup p d)

module _ (path : String) (content : List ℕ) where
  pub read_file-regular :
      (after : Disk)
      → lookup path after ≡ some (regular content)
      → read_file after path ≡ some content
  unfolding read_file contents followed
  read_file-regular after h = ap (λ o. followed o (λ target. contents 39 after target)) h

  read_written-whole :
      (f : Faults) (after : Disk)
      → lookup path after ≡ some (regular content)
      → (read_written f after path ≡ some content) ⊎ (read_written f after path ≡ none)
  unfolding read_written
  read_written-whole f after h = elim (Option-cases f.read_back) [
    | inl whole ↦ inl (rw whole (read_file-regular after h))
    | inr (e, fails) ↦ inr (rw fails refl)
  ]

module _ {A : Type 0} (d : Disk) (path tmp : String) (content : List ℕ) (report : List ℕ → A) where
  -- Written whole and reported; or failed, with the file as it was, or whole and not read back.
  abbrev pub Outcome : Result A × Disk → Type 0
  Outcome (ok a, after) = (a ≡ report content) × Holds d path tmp content after
  Outcome (err e, after) = Untouched tmp d after ⊎ Holds d path tmp content after

  read_back-Outcome :
      (o : Option (List ℕ)) (after : Disk)
      → (o ≡ some content) ⊎ (o ≡ none)
      → Holds d path tmp content after
      → Outcome (reading o after (λ written. (ok (report written), after)))
  read_back-Outcome none after h k = inr k
  read_back-Outcome (some written) after h k = (ground arith, k)

  pub write_and_read-Outcome :
      (f : Faults) (w : Done × Disk)
      → Replaced d path tmp content w
      → Outcome (
          and_then w
            λ d₁. reading (read_written f d₁ path) d₁ (λ written. (ok (report written), d₁)))
  write_and_read-Outcome f (err e, after) h = inl h
  write_and_read-Outcome f (ok _, after) h =
      read_back-Outcome (read_written f after path) after
        (read_written-whole path content f after h.0) h

pub bytes_eq_refl : (bytes : List ℕ) → bytes_eq bytes bytes ≡ true
bytes_eq_refl bytes = (bytes_eq_iff bytes bytes).1 refl
