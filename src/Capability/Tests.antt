-- ===== src/Capability/Tests.antt =====
-- The gate on concrete grants and paths.
use synth_hires_bridge.Prelude.{none, ◌≡◌, ◌↔◌, some, [], ◌∷◌}
use synth_hires_bridge.Capability.Paths.{root_dir, normal, FilePath, unix}
use synth_hires_bridge.Capability.Resolve.{Canonicalize}
use synth_hires_bridge.Capability.{allow, CapabilityGate, check_path, check_path_real}
use synth_hires_bridge.Capability.Symlinks.{ResolvesTo, LeadsInside, check_path_real-allow_iff}

abbrev home : FilePath
home = root_dir ∷ normal "home" ∷ normal "ana" ∷ []

abbrev notes : FilePath
notes = root_dir ∷ normal "home" ∷ normal "ana" ∷ normal "notes.txt" ∷ []

abbrev secrets : FilePath
secrets = root_dir ∷ normal "etc" ∷ normal "shadow" ∷ []

abbrev gate : CapabilityGate
gate = record {
  snapshot = record {
    capabilities = "desktop.fs.read" ∷ [];
    always_allow_paths = home ∷ [];
    one_shot_paths = [];
  };
}

-- A disk on which every path is a link to `/etc/shadow`.
abbrev linked : Canonicalize
linked p = some secrets

check_path_real-allow_iff_example :
    (check_path_real unix linked gate "desktop.fs.read" notes ≡ allow) ↔ (
      (check_path unix gate "desktop.fs.read" notes ≡ allow)
      × ((real : FilePath) × ResolvesTo linked notes real
          × LeadsInside unix linked gate notes real))
check_path_real-allow_iff_example =
    check_path_real-allow_iff unix linked gate "desktop.fs.read" notes

-- A disk on which nothing exists but the root.
abbrev bare : Canonicalize
bare (root_dir ∷ []) = some (root_dir ∷ [])
bare p = none
