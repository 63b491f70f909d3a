-- ===== src/Capability/Grants.antt =====
-- How a consent widens the gate of capability.rs: `with_additional_path` and `with_one_shot_path`.
use synth_hires_bridge.Prelude.{
  String, ◌≡◌, refl, ◌↔◌, ◌⊎◌, inl, inr, [], ◌∷◌, some, arith, Any-append,
}
use synth_hires_bridge.Capability.Paths.{FilePath, Platform}
use synth_hires_bridge.Capability.Resolve.{Canonicalize}
use synth_hires_bridge.Capability.Covers.{Covers, SamePath, HasParentDir}
use synth_hires_bridge.Capability.{
  allow, CapabilityGate, with_additional_path, with_one_shot_path, check_path, check_path_real,
}
use synth_hires_bridge.Capability.Laws.{Granted, OneShot, Always, check_path-allow_iff}
use synth_hires_bridge.Capability.Symlinks.{ResolvesTo, LeadsInside, check_path_real-allow_iff}

SamePath-refl : (platform : Platform) (p : FilePath) → SamePath platform p p
SamePath-refl Platform.windows p = refl
SamePath-refl Platform.unix p = refl

module _ (platform : Platform) (g : CapabilityGate) (p q : FilePath) where
  OneShot-with_one_shot_path :
      OneShot platform (with_one_shot_path g p) q ↔ (OneShot platform g q ⊎ SamePath platform p q)
  unfolding with_one_shot_path
  OneShot-with_one_shot_path =
      let split = Any-append (λ x. SamePath platform x q) g.one_shot_paths (p ∷ []) in
      ((λ h. ground arith), (λ h. ground arith))

  Always-with_additional_path :
      Always platform (with_additional_path g p) q ↔ (Always platform g q ⊎ Covers platform p q)
  unfolding with_additional_path
  Always-with_additional_path =
      let split = Any-append (λ x. Covers platform x q) g.always_allow_paths (p ∷ []) in
      ((λ h. ground arith), (λ h. ground arith))

  -- A one-shot consent for `p` allows `p` itself and nothing else that was not allowed before; it
  -- neither grants a capability nor lets a path climb by `..`.
  pub check_path-with_one_shot_path :
      (capability : String)
      → (check_path platform (with_one_shot_path g p) capability q ≡ allow) ↔ (
          (check_path platform g capability q ≡ allow)
          ⊎ (Granted g capability × (¬ HasParentDir q) × SamePath platform p q))
  unfolding with_one_shot_path
  check_path-with_one_shot_path capability =
      let before = check_path-allow_iff platform g capability q in
      let after = check_path-allow_iff platform (with_one_shot_path g p) capability q in
      let once = OneShot-with_one_shot_path in ((λ h. ground arith), (λ h. ground arith))

  -- A remembered path allows itself and what lies below it, and nothing else that was not allowed.
  pub check_path-with_additional_path :
      (capability : String)
      → (check_path platform (with_additional_path g p) capability q ≡ allow) ↔ (
          (check_path platform g capability q ≡ allow)
          ⊎ (Granted g capability × (¬ HasParentDir q) × Covers platform p q))
  unfolding with_additional_path
  check_path-with_additional_path capability =
      let before = check_path-allow_iff platform g capability q in
      let after = check_path-allow_iff platform (with_additional_path g p) capability q in
      let always = Always-with_additional_path in ((λ h. ground arith), (λ h. ground arith))

module _ (platform : Platform) (canonicalize : Canonicalize) (g : CapabilityGate) where
  -- A one-shot consent makes the approved action pass the full gate, links and all, if the
  -- capability is granted, the path does not climb by `..`, and some ancestor of it exists.
  pub one_shot_passes :
      (capability : String) (path real : FilePath)
      → Granted g capability
      → ¬ HasParentDir path
      → ResolvesTo canonicalize path real
      → check_path_real platform canonicalize (with_one_shot_path g path) capability path ≡ allow
  one_shot_passes capability path real granted dots r =
      (check_path_real-allow_iff platform canonicalize (with_one_shot_path g path) capability
          path).1
        (
          (check_path-with_one_shot_path platform g path path capability).1
              (inr (granted, dots, SamePath-refl platform path)),
          (
            real,
            r,
            inl (
                (OneShot-with_one_shot_path platform g path path).1
                  (inr (SamePath-refl platform path))),
          ),
        )

  -- Remembering a path takes away nothing that the full gate allowed.
  pub check_path_real-with_additional_path :
      (capability : String) (p q : FilePath)
      → check_path_real platform canonicalize g capability q ≡ allow
      → check_path_real platform canonicalize (with_additional_path g p) capability q ≡ allow
  unfolding with_additional_path
  check_path_real-with_additional_path capability p q h =
      let (lexical, (real, r, inside)) =
        (check_path_real-allow_iff platform canonicalize g capability q).0 h in
      let wider : LeadsInside platform canonicalize (with_additional_path g p) q real = ground (
        arith,
        Always-with_additional_path platform g p real,
        Any-append (λ x. (cp : FilePath) × (canonicalize x ≡ some cp) × Covers platform cp real)
            g.always_allow_paths (p ∷ []),
      ) in
      (check_path_real-allow_iff platform canonicalize (with_additional_path g p) capability q).1 (
        (check_path-with_additional_path platform g p q capability).1 (inl lexical),
        (real, r, wider),
      )

  pub Granted-with_additional_path :
      (capability : String) (p : FilePath)
      → Granted g capability
      → Granted (with_additional_path g p) capability
  unfolding with_additional_path
  Granted-with_additional_path capability p h = h
