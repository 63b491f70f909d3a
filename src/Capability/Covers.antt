-- ===== src/Capability/Covers.antt =====
-- What the path comparisons of capability.rs decide, stated without them.
use mathlib.Core.List.{append-nil}
use synth_hires_bridge.Prelude.{
  ℕ, Bool, true, false, ◌≡◌, refl, sym, ◌∙◌, ◌↔◌, List, [], ◌∷◌, ◌++◌, map, arith, Any, any_iff,
  &&-eq-true, if◌then◌else◌,
}
use synth_hires_bridge.Prelude.Text.{codes, to_ascii_lowercase, bytes_eq_iff}
use synth_hires_bridge.Capability.Paths.{
  Component, parent_dir, FilePath, Platform, windows, unix, as_os_str, is_parent_dir,
  has_parent_dir, component_eq, component_eq_iff, eq_ignore_ascii_case,
  path_starts_with_ignoring_case, starts_with, path_eq, path_starts_with, paths_equal,
}

-- A component as a file system that ignores ASCII case sees it.
abbrev pub folded : Component → List ℕ
folded c = to_ascii_lowercase (codes (as_os_str c))

-- `prefix` is `path` or one of its ancestors, whole components at a time.
abbrev pub Covers : Platform → FilePath → FilePath → Type 0
Covers windows prefix path = (rest : List (List ℕ)) × (map folded path ≡ map folded prefix ++ rest)
Covers unix prefix path = (rest : FilePath) × (path ≡ prefix ++ rest)

abbrev pub SamePath : Platform → FilePath → FilePath → Type 0
SamePath windows p q = map folded p ≡ map folded q
SamePath unix p q = p ≡ q

abbrev pub HasParentDir : FilePath → Type 0
HasParentDir = Any λ c. c ≡ parent_dir

if_false-eq-true : (a b : Bool) → (if a then b else false) ≡ true → (a ≡ true) × (b ≡ true)
if_false-eq-true a b h = ground arith

is_parent_dir_iff : (c : Component) → (is_parent_dir c ≡ true) ↔ (c ≡ parent_dir)
unfolding is_parent_dir
is_parent_dir_iff parent_dir = ((λ h. refl), (λ h. refl))
is_parent_dir_iff _ = ((λ h. cc), (λ h. cc))

pub has_parent_dir_iff : (path : FilePath) → (has_parent_dir path ≡ true) ↔ HasParentDir path
unfolding has_parent_dir
has_parent_dir_iff path = any_iff _ is_parent_dir is_parent_dir_iff path

eq_ignore_ascii_case_iff :
    (c d : Component) → (eq_ignore_ascii_case c d ≡ true) ↔ (folded c ≡ folded d)
unfolding eq_ignore_ascii_case
eq_ignore_ascii_case_iff c d = bytes_eq_iff (folded c) (folded d)

starts_with_iff :
    (path prefix : FilePath) → (starts_with path prefix ≡ true) ↔ Covers unix prefix path
unfolding starts_with
starts_with_iff [] [] = ((λ h. ([], refl)), (λ h. refl))
starts_with_iff (c ∷ cs) [] = ((λ h. (c ∷ cs, refl)), (λ h. refl))
starts_with_iff [] (d ∷ ds) = ((λ h. cc), (λ h. cc (h.1)))
starts_with_iff (c ∷ cs) (d ∷ ds) = (
  (λ h.
      let (same, below) = &&-eq-true (component_eq c d) (starts_with cs ds) h in
      let (rest, e) = (starts_with_iff cs ds).0 below in
      (rest, cc ((component_eq_iff c d).0 same, e))),
  (λ h.
      let (rest, e) = h in
      ground (arith, component_eq_iff c d, (starts_with_iff cs ds).1 (rest, cc e))),
)

ignoring_case_iff :
    (path prefix : FilePath)
    → (path_starts_with_ignoring_case path prefix ≡ true) ↔ Covers windows prefix path
unfolding path_starts_with_ignoring_case
ignoring_case_iff [] [] = ((λ h. ([], refl)), (λ h. refl))
ignoring_case_iff (c ∷ cs) [] = ((λ h. (map folded (c ∷ cs), refl)), (λ h. refl))
ignoring_case_iff [] (d ∷ ds) = ((λ h. cc), (λ h. cc (h.1)))
ignoring_case_iff (c ∷ cs) (d ∷ ds) = (
  (λ h.
      let (same, below) =
        if_false-eq-true (eq_ignore_ascii_case c d) (path_starts_with_ignoring_case cs ds) h in
      let (rest, e) = (ignoring_case_iff cs ds).0 below in
      (rest, cc ((eq_ignore_ascii_case_iff c d).0 same, e))),
  (λ h.
      let (rest, e) = h in
      rw ((eq_ignore_ascii_case_iff c d).1 (cc e)) ((ignoring_case_iff cs ds).1 (rest, cc e))),
)

path_eq_iff : (p q : FilePath) → (path_eq p q ≡ true) ↔ (p ≡ q)
unfolding path_eq
path_eq_iff [] [] = ((λ h. refl), (λ h. refl))
path_eq_iff [] (d ∷ ds) = ((λ h. cc), (λ h. cc))
path_eq_iff (c ∷ cs) [] = ((λ h. cc), (λ h. cc))
path_eq_iff (c ∷ cs) (d ∷ ds) = (
  (λ h. ground (arith, component_eq_iff c d, path_eq_iff cs ds)),
  (λ h. ground (arith, component_eq_iff c d, path_eq_iff cs ds)),
)

-- Two lists, each a prefix of the other, are the same.
mutual_prefix {ℓ} :
    {A : Type ℓ} (xs ys rest more : List A) → xs ≡ ys ++ rest → ys ≡ xs ++ more → xs ≡ ys
mutual_prefix [] [] rest more e f = refl
mutual_prefix [] (y ∷ ys) rest more e f = cc
mutual_prefix (x ∷ xs) [] rest more e f = cc
mutual_prefix (x ∷ xs) (y ∷ ys) rest more e f = cc (mutual_prefix xs ys rest more (cc) (cc))

-- `path_starts_with` decides whether the prefix covers the path.
pub path_starts_with_iff :
    (platform : Platform) (path prefix : FilePath)
    → (path_starts_with platform path prefix ≡ true) ↔ Covers platform prefix path
unfolding path_starts_with
path_starts_with_iff windows path prefix = ignoring_case_iff path prefix
path_starts_with_iff unix path prefix = starts_with_iff path prefix

pub paths_equal_iff :
    (platform : Platform) (p q : FilePath)
    → (paths_equal platform p q ≡ true) ↔ SamePath platform p q
unfolding paths_equal
paths_equal_iff windows p q = (
  (λ h.
      let (pq, qp) = &&-eq-true _ _ h in
      let (rest, e) = (ignoring_case_iff p q).0 pq in
      let (more, f) = (ignoring_case_iff q p).0 qp in mutual_prefix _ _ rest more e f),
  (λ h.
      rw ((ignoring_case_iff p q).1 ([], h ∙ sym (append-nil _)))
        ((ignoring_case_iff q p).1 ([], sym h ∙ sym (append-nil _)))),
)
paths_equal_iff unix p q = path_eq_iff p q
