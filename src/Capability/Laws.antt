-- ===== src/Capability/Laws.antt =====
-- What the lexical gate of capability.rs decides: `CapabilityGate::check_path`.
use synth_hires_bridge.Prelude.{String, true, ◌≡◌, ◌↔◌, ◌⊎◌, arith, Any, any_iff, str_eq, eq_iff}
use synth_hires_bridge.Capability.Paths.{FilePath, Platform, path_starts_with, paths_equal}
use synth_hires_bridge.Capability.Covers.{
  Covers, SamePath, HasParentDir, has_parent_dir_iff, path_starts_with_iff, paths_equal_iff,
}
use synth_hires_bridge.Capability.{
  allow, deny, CapabilityGate, allows, one_shot_covers, path_matches_any, check_path,
}

-- The scope snapshot grants the capability.
abbrev pub Granted : CapabilityGate → String → Type 0
Granted g capability = Any (λ c. c ≡ capability) g.capabilities

pub allows_iff :
    (g : CapabilityGate) (capability : String) → (allows g capability ≡ true) ↔ Granted g capability
unfolding allows
allows_iff g capability =
    any_iff _ (λ c. str_eq c capability) (λ c. eq_iff c capability) g.capabilities

module _ (platform : Platform) (g : CapabilityGate) where
  -- The owner approved this path for the action at hand.
  abbrev pub OneShot : FilePath → Type 0
  OneShot path = Any (λ p. SamePath platform p path) g.one_shot_paths

  -- An always-allow path covers the path.
  abbrev pub Always : FilePath → Type 0
  Always path = Any (λ prefix. Covers platform prefix path) g.always_allow_paths

  pub one_shot_covers_iff :
      (path : FilePath) → (one_shot_covers platform g path ≡ true) ↔ OneShot path
  unfolding one_shot_covers
  one_shot_covers_iff path =
      any_iff _ (λ p. paths_equal platform p path) (λ p. paths_equal_iff platform p path)
        g.one_shot_paths

  pub path_matches_any_iff :
      (path : FilePath)
      → (path_matches_any platform g path ≡ true) ↔ ((¬ HasParentDir path) × Always path)
  unfolding path_matches_any
  path_matches_any_iff path =
      let always =
        any_iff (λ prefix. Covers platform prefix path)
          (λ prefix. path_starts_with platform path prefix)
          (λ prefix. path_starts_with_iff platform path prefix) g.always_allow_paths in
      let dots = has_parent_dir_iff path in ((λ h. ground arith), (λ h. ground arith))

  -- `check_path` allows exactly the granted capabilities on paths with no `..` that the owner
  -- approved for this action or that lie under an always-allow path.
  pub check_path-allow_iff :
      (capability : String) (path : FilePath)
      → (check_path platform g capability path ≡ allow)
        ↔ (Granted g capability × (¬ HasParentDir path) × (OneShot path ⊎ Always path))
  unfolding check_path
  check_path-allow_iff capability path =
      let granted = allows_iff g capability in
      let dots = has_parent_dir_iff path in
      let once = one_shot_covers_iff path in
      let always = path_matches_any_iff path in ((λ h. ground arith), (λ h. ground arith))

  -- `check_path` denies, beyond any consent, exactly what is not granted or climbs by `..`.
  pub check_path-deny_iff :
      (capability : String) (path : FilePath)
      → (check_path platform g capability path ≡ deny)
        ↔ ((¬ Granted g capability) ⊎ HasParentDir path)
  unfolding check_path
  check_path-deny_iff capability path =
      let granted = allows_iff g capability in
      let dots = has_parent_dir_iff path in ((λ h. ground arith), (λ h. ground arith))
