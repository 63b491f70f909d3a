-- ===== src/Capability/Resolve.antt =====
-- The probe loop of `check_path_real` in capability.rs: the deepest ancestor that exists.
use synth_hires_bridge.Prelude.{ℕ, zero, suc, [], ◌∷◌, Option, none, some}
use synth_hires_bridge.Capability.Paths.{Component, prefix_of, root_dir, FilePath}

-- `std::fs::canonicalize`, `none` where it returns an error
abbrev pub Canonicalize : Type 0
Canonicalize = FilePath → Option FilePath

abbrev cons_some : Component → Option FilePath → Option FilePath
cons_some c none = none
cons_some c (some p) = some (c ∷ p)

-- `Path::parent`: without the last component, `none` for an empty path and for a root.
unfoldable pub parent : FilePath → Option FilePath
parent [] = none
parent (prefix_of s ∷ []) = none
parent (root_dir ∷ []) = none
parent (c ∷ []) = some []
parent (c ∷ d ∷ path) = cons_some c (parent (d ∷ path))

module _ (canonicalize : Canonicalize) where
  -- One round for each `probe`; the path gets shorter, so `suc (length path)` rounds are enough.
  unfoldable pub resolve_existing : ℕ → FilePath → Option FilePath
  resolve_existing zero probe = none
  resolve_existing (suc rounds) probe = elim (canonicalize probe) [
    | some real ↦ some real
    | none ↦ elim (parent probe) [ none ↦ none | some up ↦ resolve_existing rounds up ]
  ]
