-- ===== src/Capability/Symlinks.antt =====
-- What `CapabilityGate::check_path_real` of capability.rs decides, links resolved.
use mathlib.Core.Option.{some-injective}
use synth_hires_bridge.Prelude.{
  ℕ, zero, suc, ◌<◌, true, ◌≡◌, refl, sym, subst, ◌↔◌, ◌⊎◌, inl, inr, String, [], ◌∷◌, Option, none,
  some, arith, length, Any, any_iff, Option-cases,
}
use synth_hires_bridge.Capability.Paths.{
  prefix_of, root_dir, cur_dir, parent_dir, normal, FilePath, Platform,
}
use synth_hires_bridge.Capability.Resolve.{Canonicalize, parent, resolve_existing}
use synth_hires_bridge.Capability.Covers.{Covers, HasParentDir, path_starts_with_iff}
use synth_hires_bridge.Capability.{
  allow, CapabilityGate, check_path, resolved_covers, canonically_allowed, check_resolved,
  check_path_real,
}
use synth_hires_bridge.Capability.Laws.{OneShot, Always, one_shot_covers_iff, path_matches_any_iff}

pub length-parent-lt : (p q : FilePath) → parent p ≡ some q → length q < length p
unfolding parent
length-parent-lt [] q h = cc
length-parent-lt (prefix_of s ∷ []) q h = cc
length-parent-lt (root_dir ∷ []) q h = cc
length-parent-lt (cur_dir ∷ []) q h = ground arith
length-parent-lt (parent_dir ∷ []) q h = ground arith
length-parent-lt (normal s ∷ []) q h = ground arith
length-parent-lt (c ∷ d ∷ path) q h = elim (Option-cases (parent (d ∷ path))) [
  | inl e ↦ ground arith
  | inr (up, e) ↦ ground (arith, length-parent-lt (d ∷ path) up)
]

module _ (canonicalize : Canonicalize) where
  -- `real` is the resolution of the deepest ancestor that the disk has.
  pub data ResolvesTo : FilePath → FilePath → Type 0 where
    found : {probe real : FilePath} → canonicalize probe ≡ some real → ResolvesTo probe real
    climb :
        {probe up real : FilePath}
        → canonicalize probe ≡ none
        → parent probe ≡ some up
        → ResolvesTo up real
        → ResolvesTo probe real

  resolve_sound :
      (rounds : ℕ) (probe real : FilePath)
      → resolve_existing canonicalize rounds probe ≡ some real
      → ResolvesTo probe real
  unfolding resolve_existing
  resolve_sound zero probe real h = cc
  resolve_sound (suc rounds) probe real h = elim (Option-cases (canonicalize probe)) [
    | inr (p, e) ↦ found (ground arith)
    | inl e ↦ elim (Option-cases (parent probe)) [
      | inl f ↦ ground arith
      | inr (up, f) ↦ climb e f (resolve_sound rounds up real (ground arith))
    ]
  ]

  -- A path with `n` components has at most `n` proper ancestors, so `n + 1` rounds find them all.
  resolve_complete :
      (rounds : ℕ) {probe real : FilePath}
      → length probe < rounds
      → ResolvesTo probe real
      → resolve_existing canonicalize rounds probe ≡ some real
  unfolding resolve_existing
  resolve_complete zero h r = absurd (omega arith)
  resolve_complete (suc rounds) h (found e) = ground arith
  resolve_complete (suc rounds) h (climb {probe} {up} {real} e f r) =
      ground
        (arith, length-parent-lt probe up f, resolve_complete rounds {probe = up} {real = real})

-- The probe loop, at the rounds that the gate gives it, resolves exactly the deepest ancestor.
resolve_existing_iff :
    (canonicalize : Canonicalize) (path real : FilePath)
    → (resolve_existing canonicalize (suc (length path)) path ≡ some real)
      ↔ ResolvesTo canonicalize path real
resolve_existing_iff canonicalize path real = (
  resolve_sound canonicalize (suc (length path)) path real,
  resolve_complete canonicalize (suc (length path)) (omega arith),
)

resolved_covers_iff :
    (platform : Platform) (real : FilePath) (o : Option FilePath)
    → (resolved_covers platform real o ≡ true)
      ↔ ((cp : FilePath) × (o ≡ some cp) × Covers platform cp real)
unfolding resolved_covers
resolved_covers_iff platform real none = ((λ h. cc), (λ h. cc (h.1)))
resolved_covers_iff platform real (some q) = (
  (λ h. (q, refl, (path_starts_with_iff platform real q).0 h)),
  (λ h.
      let (cp, e, covered) = h in
      (path_starts_with_iff platform real q).1
        (subst (λ x. Covers platform x real) (sym (some-injective _ _ e)) covered)),
)

module _ (platform : Platform) (canonicalize : Canonicalize) (g : CapabilityGate) where
  -- An always-allow path, with its own links resolved, covers the path.
  abbrev pub AlwaysReal : FilePath → Type 0
  AlwaysReal real =
      Any (λ p. (cp : FilePath) × (canonicalize p ≡ some cp) × Covers platform cp real)
        g.always_allow_paths

  canonically_allowed_iff :
      (real : FilePath)
      → (canonically_allowed platform canonicalize g real ≡ true) ↔ AlwaysReal real
  unfolding canonically_allowed
  canonically_allowed_iff real =
      any_iff _ (λ p. resolved_covers platform real (canonicalize p))
        (λ p. resolved_covers_iff platform real (canonicalize p)) g.always_allow_paths

  -- Where the links of an allowed path lead: to an ancestor that exists, and either the owner
  -- approved this very path, or the place where it leads lies under an always-allow path.
  abbrev pub LeadsInside : FilePath → FilePath → Type 0
  LeadsInside path real =
      OneShot platform g path ⊎ ((¬ HasParentDir real) × Always platform g real) ⊎ AlwaysReal real

  check_resolved-allow_iff :
      (path : FilePath) (o : Option FilePath)
      → (check_resolved platform canonicalize g path o ≡ allow)
        ↔ ((real : FilePath) × (o ≡ some real) × LeadsInside path real)
  unfolding check_resolved
  check_resolved-allow_iff path none = ((λ h. cc), (λ h. cc (h.1)))
  check_resolved-allow_iff path (some r) =
      let once = one_shot_covers_iff platform g path in
      let always = path_matches_any_iff platform g r in
      let canonical = canonically_allowed_iff r in
      (
        (λ h. (r, refl, ground arith)),
        (λ h.
            let (real, e, inside) = h in
            let here : LeadsInside path r =
              subst (LeadsInside path) (sym (some-injective _ _ e)) inside in
            ground arith),
      )

  -- `check_path_real` allows exactly what `check_path` allows, where the links of the path lead
  -- inside: the deepest ancestor that exists resolves to a place under an always-allow path, as
  -- written or resolved, or the owner approved this very path.
  pub check_path_real-allow_iff :
      (capability : String) (path : FilePath)
      → (check_path_real platform canonicalize g capability path ≡ allow) ↔ (
          (check_path platform g capability path ≡ allow)
          × ((real : FilePath) × ResolvesTo canonicalize path real × LeadsInside path real))
  unfolding check_path_real
  check_path_real-allow_iff capability path =
      let resolved = resolve_existing canonicalize (suc (length path)) path in
      let inside = check_resolved-allow_iff path resolved in
      (
        (λ h.
            let (real, e, leads) = inside.0 (ground arith) in
            (ground arith, (real, (resolve_existing_iff canonicalize path real).0 e, leads))),
        (λ h.
            let (real, r, leads) = h.1 in
            let allowed =
              inside.1 (real, (resolve_existing_iff canonicalize path real).1 r, leads) in
            ground arith),
      )
