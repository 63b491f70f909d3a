-- ===== src/Capability.antt =====
-- The local capability gate: apps/desktop-daemon/crates/daemon-core/src/capability.rs.
--
-- A path is the list of its components, as `Path::components` yields them, so `parent` drops the
-- last one and `starts_with` compares component by component. The platform, which the source
-- fixes by `cfg(windows)`, is an argument. `std::fs::canonicalize` reads the disk: it is an
-- argument too, `none` where it fails. `check_path_real` never builds its `Err` case, so the model
-- returns the decision itself.
pub mod Paths
pub mod Resolve
pub mod Covers
pub mod Symlinks
pub mod Grants
pub mod Laws
mod Tests
use synth_hires_bridge.Prelude.{
  ℕ, suc, String, Bool, true, false, not, ◌||◌, List, [], ◌∷◌, ◌++◌, Option, none, some, any,
  length, str_eq, if◌then◌else◌,
}
use Paths.{FilePath, Platform, has_parent_dir, path_starts_with, paths_equal}
use Resolve.{Canonicalize, resolve_existing}

pub data GateDecision : Type 0 where
  allow require_consent deny : GateDecision

-- `daemon_protocol::Scopes`, with the paths read as `PathBuf`s.
pub record Scopes : Type 0 where
  pub capabilities : List String
  pub always_allow_paths : List FilePath

pub record ScopeSnapshot : Type 0 where
  pub capabilities : List String
  pub always_allow_paths : List FilePath
  pub one_shot_paths : List FilePath

-- `impl From<&Scopes> for ScopeSnapshot`
unfoldable pub from_scopes : Scopes → ScopeSnapshot
from_scopes s = record {
  capabilities = s.capabilities;
  always_allow_paths = s.always_allow_paths;
  one_shot_paths = [];
}

pub record CapabilityGate : Type 0 where
  pub snapshot : ScopeSnapshot
  pub open snapshot use *

abbrev pub new : ScopeSnapshot → CapabilityGate
new s = record { snapshot = s }

unfoldable pub update : CapabilityGate → ScopeSnapshot → CapabilityGate
update g s = new s

unfoldable pub with_additional_path : CapabilityGate → FilePath → CapabilityGate
with_additional_path g path =
    new (record g.snapshot { always_allow_paths = g.always_allow_paths ++ path ∷ [] })

unfoldable pub with_one_shot_path : CapabilityGate → FilePath → CapabilityGate
with_one_shot_path g path =
    new (record g.snapshot { one_shot_paths = g.one_shot_paths ++ path ∷ [] })

unfoldable pub allows : CapabilityGate → String → Bool
allows g capability = any (λ c. str_eq c capability) g.capabilities

-- An always-allow path that does not resolve covers nothing.
unfoldable pub resolved_covers : Platform → FilePath → Option FilePath → Bool
resolved_covers platform real none = false
resolved_covers platform real (some cp) = path_starts_with platform real cp

module _ (platform : Platform) where
  unfoldable pub one_shot_covers : CapabilityGate → FilePath → Bool
  one_shot_covers g path = any (λ p. paths_equal platform p path) g.one_shot_paths

  unfoldable pub path_matches_any : CapabilityGate → FilePath → Bool
  path_matches_any g path =
      if has_parent_dir path
      then false
      else any (λ prefix. path_starts_with platform path prefix) g.always_allow_paths

  unfoldable pub check_path : CapabilityGate → String → FilePath → GateDecision
  check_path g capability path =
      if not (allows g capability)
      then deny
      else if has_parent_dir path
      then deny
      else if one_shot_covers g path
      then allow
      else if path_matches_any g path
      then allow
      else require_consent

  module _ (canonicalize : Canonicalize) where
    -- `filter_map(|p| canonicalize(p).ok()).any(|cp| path_starts_with(&real, &cp))`
    unfoldable pub canonically_allowed : CapabilityGate → FilePath → Bool
    canonically_allowed g real =
        any (λ p. resolved_covers platform real (canonicalize p)) g.always_allow_paths

    -- The part of `check_path_real` behind `GateDecision::Allow`, once the probe loop is over.
    unfoldable pub check_resolved : CapabilityGate → FilePath → Option FilePath → GateDecision
    check_resolved g path none = require_consent
    check_resolved g path (some real) =
        if one_shot_covers g path
        then allow
        else if path_matches_any g real || canonically_allowed g real
        then allow
        else require_consent

    unfoldable pub check_path_real : CapabilityGate → String → FilePath → GateDecision
    check_path_real g capability path = elim (check_path g capability path) [
      | allow ↦ check_resolved g path (resolve_existing canonicalize (suc (length path)) path)
      | require_consent ↦ require_consent
      | deny ↦ deny
    ]
