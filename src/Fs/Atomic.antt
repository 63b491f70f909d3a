-- ===== src/Fs/Atomic.antt =====
-- `write_via_unique_tmp` of fs_ops.rs replaces a file whole or not at all.
use synth_hires_bridge.Prelude.{
  ℕ, String, Bool, true, false, Option, none, some, List, ◌≡◌, refl, arith, str_eq, eq_refl,
  if◌then◌else◌, inl, inr, ◌⊎◌,
}
use synth_hires_bridge.Prelude.Map.{lookup, insert, without, lookup-insert, lookup-without}
use synth_hires_bridge.Errors.{Done, ok, err}
use synth_hires_bridge.Fs.Disk.{
  Entry, regular, symlink, Disk, Faults, attempt, is_symlink, open_fault, stored_part, replace_tmp,
  move, commit, write_via_unique_tmp, no_faults,
}

-- The disk once the target is replaced, or else unless the write succeeded.
abbrev pub Replaced : Disk → String → String → List ℕ → Done × Disk → Type 0
Replaced d path tmp bytes (ok _, after) =
    (lookup path after ≡ some (regular bytes))
    × ((p : String) → str_eq path p ≡ false → str_eq tmp p ≡ false → lookup p after ≡ lookup p d)
Replaced d path tmp bytes (err _, after) =
    (p : String) → str_eq tmp p ≡ false → lookup p after ≡ lookup p d

-- Two disks agree but for one path.
abbrev pub SameBut : String → Disk → Disk → Type 0
SameBut tmp d e = (p : String) → str_eq tmp p ≡ false → lookup p e ≡ lookup p d

module _ (d : Disk) (path tmp : String) (bytes : List ℕ) where
  pub attempt-Replaced :
      (fault : Option String) (at : Disk) (next : Done × Disk)
      → SameBut tmp d at
      → Replaced d path tmp bytes next
      → Replaced d path tmp bytes (attempt fault at next)
  attempt-Replaced none at next h k = k
  attempt-Replaced (some e) at next h k = h

  pub found : (e : Entry) (at : Disk) → lookup tmp (insert tmp e at) ≡ some e
  found e at = ground (arith, lookup-insert tmp tmp e at, eq_refl tmp)

  SameBut-insert : (e : Entry) (at : Disk) → SameBut tmp d at → SameBut tmp d (insert tmp e at)
  SameBut-insert e at h p apart = ground (arith, lookup-insert tmp p e at, h p apart)

  SameBut-without : (at : Disk) → SameBut tmp d at → SameBut tmp d (without tmp at)
  SameBut-without at h p apart = ground (arith, lookup-without tmp p at, h p apart)

  SameBut-if :
      (c : Bool) (x y : Disk)
      → SameBut tmp d x
      → SameBut tmp d y
      → SameBut tmp d (if c then x else y)
  SameBut-if true x y h k = h
  SameBut-if false x y h k = k

  -- What the tmp file is when it is moved: ours, or a link.
  Tmp : Option Entry → Type 0
  Tmp e = (e ≡ some (regular bytes)) ⊎ ((target : String) × (e ≡ some (symlink target)))

  moved :
      (at : Disk)
      → SameBut tmp d at
      → Replaced d path tmp bytes (ok tt, insert path (regular bytes) (without tmp at))
  moved at h = (
    ground (arith, lookup-insert path path (regular bytes) (without tmp at), eq_refl path),
    λ p away apart. ground (
      arith,
      lookup-insert path p (regular bytes) (without tmp at),
      SameBut-without at h p apart,
    ),
  )

  commit-Replaced :
      (f : Faults) (at : Disk)
      → str_eq tmp path ≡ false
      → SameBut tmp d at
      → Tmp (lookup tmp at)
      → Replaced d path tmp bytes (commit f at path tmp)
  unfolding commit Tmp is_symlink move
  commit-Replaced f at apart h (inl ours) =
      attempt-Replaced f.symlink_metadata at _ h
        (rw ours (attempt-Replaced f.rename at _ h (moved at h)))
  commit-Replaced f at apart h (inr (target, link)) =
      attempt-Replaced f.symlink_metadata at _ h
        (rw link (SameBut-if f.removed (without tmp at) at (SameBut-without at h) h))

  planted-SameBut :
      (target : Option String) (at : Disk)
      → SameBut tmp d at
      → SameBut tmp d (replace_tmp target tmp at)
  unfolding replace_tmp
  planted-SameBut none at h = h
  planted-SameBut (some target) at h = SameBut-insert (symlink target) at h

  planted-Tmp :
      (target : Option String) (at : Disk)
      → lookup tmp at ≡ some (regular bytes)
      → Tmp (lookup tmp (replace_tmp target tmp at))
  unfolding replace_tmp Tmp
  planted-Tmp none at h = inl h
  planted-Tmp (some target) at h = inr (target, found (symlink target) at)

  -- The tmp file is written, or its write fails.
  written-Replaced :
      (f : Faults) (o : Option String)
      → str_eq tmp path ≡ false
      → Replaced d path tmp bytes (
          let created = insert tmp (regular (stored_part f bytes o)) d in
          attempt o created
            (attempt f.sync_all created (commit f (replace_tmp f.planted tmp created) path tmp)))
  unfolding stored_part
  written-Replaced f (some e) apart = SameBut-insert _ d (λ p _. refl)
  written-Replaced f none apart =
      let created = insert tmp (regular bytes) d in
      let same = SameBut-insert (regular bytes) d (λ p _. refl) in
      attempt-Replaced f.sync_all created _ same (
        commit-Replaced f _ apart (planted-SameBut f.planted created same)
          (planted-Tmp f.planted created (found (regular bytes) d)))

-- Whatever fails, and wherever: where the write succeeds the target holds the bytes, every one of them,
-- and where it does not the target is as it was; no other file changes but the temporary one. The
-- temporary name is not the target's.
pub write_via_unique_tmp-Replaced :
    (f : Faults) (d : Disk) (path tmp : String) (bytes : List ℕ)
    → str_eq tmp path ≡ false
    → Replaced d path tmp bytes (write_via_unique_tmp f d path tmp bytes)
unfolding write_via_unique_tmp
write_via_unique_tmp-Replaced f d path tmp bytes h =
    attempt-Replaced d path tmp bytes (open_fault f (lookup tmp d)) d _ (λ p _. refl)
      (written-Replaced d path tmp bytes f f.write_all h)

-- With no faults, and a temporary name that is free, the write succeeds.
pub write_via_unique_tmp-succeeds :
    (d : Disk) (path tmp : String) (bytes : List ℕ)
    → lookup tmp d ≡ none
    → (write_via_unique_tmp no_faults d path tmp bytes).0 ≡ ok tt
unfolding write_via_unique_tmp open_fault stored_part replace_tmp commit is_symlink
write_via_unique_tmp-succeeds d path tmp bytes free =
    rw (free, found d path tmp bytes (regular bytes) d) refl
