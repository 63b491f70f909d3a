-- ===== src/Capability/Paths.antt =====
-- Paths by their components, and the two comparisons of capability.rs (`path_starts_with`,
-- `path_starts_with_ignoring_case`, `paths_equal`).
use synth_hires_bridge.Prelude.{
  String, Bool, true, false, ◌&&◌, ◌≡◌, refl, ap, ◌↔◌, List, [], ◌∷◌, any, str_eq, eq_iff,
  if◌then◌else◌,
}
use synth_hires_bridge.Prelude.Text.{codes, to_ascii_lowercase, bytes_eq}

-- `std::path::Component`
pub data Component : Type 0 where
  prefix_of : String → Component
  root_dir cur_dir parent_dir : Component
  normal : String → Component

abbrev pub FilePath : Type 0
FilePath = List Component

-- `cfg(windows)` and `cfg(not(windows))`
pub data Platform : Type 0 where
  windows unix : Platform

-- `Component::as_os_str`
unfoldable pub as_os_str : Component → String
as_os_str (prefix_of s) = s
as_os_str root_dir = "/"
as_os_str cur_dir = "."
as_os_str parent_dir = ".."
as_os_str (normal s) = s

-- `Component`'s derived `PartialEq`
unfoldable pub component_eq : Component → Component → Bool
component_eq (prefix_of s) (prefix_of t) = str_eq s t
component_eq root_dir root_dir = true
component_eq cur_dir cur_dir = true
component_eq parent_dir parent_dir = true
component_eq (normal s) (normal t) = str_eq s t
component_eq _ _ = false

-- `matches!(c, Component::ParentDir)`
unfoldable pub is_parent_dir : Component → Bool
is_parent_dir parent_dir = true
is_parent_dir _ = false

unfoldable pub has_parent_dir : FilePath → Bool
unfolding is_parent_dir
has_parent_dir path = any is_parent_dir path

-- `str::eq_ignore_ascii_case` on the text of two components
unfoldable pub eq_ignore_ascii_case : Component → Component → Bool
eq_ignore_ascii_case c d =
    bytes_eq (to_ascii_lowercase (codes (as_os_str c))) (to_ascii_lowercase (codes (as_os_str d)))

unfoldable pub path_starts_with_ignoring_case : FilePath → FilePath → Bool
path_starts_with_ignoring_case [] [] = true
path_starts_with_ignoring_case [] (expected ∷ rest) = false
path_starts_with_ignoring_case (component ∷ path) [] = true
path_starts_with_ignoring_case (component ∷ path) (expected ∷ rest) =
    let deeper = path_starts_with_ignoring_case path rest in
    if eq_ignore_ascii_case component expected then deeper else false

-- `Path::starts_with`
unfoldable pub starts_with : FilePath → FilePath → Bool
starts_with path [] = true
starts_with [] (d ∷ ds) = false
starts_with (c ∷ cs) (d ∷ ds) = component_eq c d && starts_with cs ds

-- `Path`'s `==`
unfoldable pub path_eq : FilePath → FilePath → Bool
path_eq [] [] = true
path_eq [] (d ∷ ds) = false
path_eq (c ∷ cs) [] = false
path_eq (c ∷ cs) (d ∷ ds) = component_eq c d && path_eq cs ds

unfoldable pub path_starts_with : Platform → FilePath → FilePath → Bool
path_starts_with windows path prefix = path_starts_with_ignoring_case path prefix
path_starts_with unix path prefix = starts_with path prefix

unfoldable pub paths_equal : Platform → FilePath → FilePath → Bool
paths_equal windows path other =
    path_starts_with_ignoring_case path other && path_starts_with_ignoring_case other path
paths_equal unix path other = path_eq path other

pub component_eq_iff : (c d : Component) → (component_eq c d ≡ true) ↔ (c ≡ d)
unfolding component_eq
component_eq_iff (prefix_of s) (prefix_of t) =
    ((λ h. ap prefix_of ((eq_iff s t).0 h)), (λ h. (eq_iff s t).1 (cc)))
component_eq_iff (normal s) (normal t) =
    ((λ h. ap normal ((eq_iff s t).0 h)), (λ h. (eq_iff s t).1 (cc)))
component_eq_iff root_dir root_dir = ((λ h. refl), (λ h. refl))
component_eq_iff cur_dir cur_dir = ((λ h. refl), (λ h. refl))
component_eq_iff parent_dir parent_dir = ((λ h. refl), (λ h. refl))
component_eq_iff _ _ = ((λ h. cc), (λ h. cc))
