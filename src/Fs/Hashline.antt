-- ===== src/Fs/Hashline.antt =====
-- The hash-line anchors of fs_ops.rs: `short_hash`, `anchor_matches`, `annotate_content`, and the
-- edits of `patch` from their validation to the spliced lines.
--
-- `digest6` is the first three bytes of SHA-256 in hex, of third-party crates, and `decimal` prints
-- a number (`format!`). A line is the list of its bytes.
use synth_hires_bridge.Prelude.{
  ℕ, suc, ◌-◌, max, Bool, true, false, not, Option, none, some, List, [], ◌∷◌, ◌++◌, map, take,
  drop, length, any, all, retain, reverse, unwrap_or, if◌then◌else◌, leb, ltb,
}
use synth_hires_bridge.Prelude.Text.{bytes_eq, codes, split, trim}
use synth_hires_bridge.Fs.Text.{cr, lf, ends_with, lines}

abbrev pub Line : Type 0
Line = List ℕ

abbrev pub hashline_prefix : List ℕ
hashline_prefix = codes " | "

pub record HashlineEdit : Type 0 where
  pub start_line : ℕ
  pub end_line : Option ℕ
  pub hashes : Option (List ℕ)
  pub replacement : List Line

-- A range of lines, from the first to before the last, and what takes their place.
pub record Planned : Type 0 where
  pub idx : ℕ
  pub end : ℕ
  pub replacement : List Line

pub record FsPatchApplied : Type 0 where
  pub start_line : ℕ
  pub end_line : ℕ
  pub lines_added : ℕ

pub record PatchAnchorError : Type 0 where
  pub start_line : ℕ
  pub end_line : ℕ
  pub expected_hashes : Option (List ℕ)
  pub actual_hashes : List (List ℕ)

-- What `patch` reports of its edits; the source prints each into the text of a protocol error.
pub data PatchError : Type 0 where
  no_edits : PatchError
  beyond_eof : ℕ → ℕ → PatchError
  stale : PatchAnchorError → PatchError
  overlapping : PatchError

-- `Result<T, PatchError>`
pub data Planning {ℓ} (A : Type ℓ) : Type ℓ where
  planned : A → Planning A
  refused : PatchError → Planning A

-- `strip_suffix('\r').unwrap_or(line)`
unfoldable pub strip_cr : Line → Line
strip_cr line = if ends_with cr line then take (length line - 1) line else line

-- `start` and `end` of an edit.
unfoldable pub first_line : HashlineEdit → ℕ
first_line edit = max edit.start_line 1

unfoldable pub last_line : HashlineEdit → ℕ
unfolding first_line
last_line edit = max (unwrap_or edit.end_line edit.start_line) (first_line edit)

-- What an edit adds to `planned`.
abbrev pub range_of : HashlineEdit → Planned
range_of edit = record {
  idx = first_line edit - 1;
  end = last_line edit;
  replacement = edit.replacement;
}

unfoldable pub anchor_matches : List (List ℕ) → Option (List ℕ) → Bool
anchor_matches actual none = true
anchor_matches actual (some expected) =
    all (λ h. any (λ a. bytes_eq a h) actual)
      (retain (λ s. not (bytes_eq s [])) (map trim (split b',' expected)))

-- `sort_by(|a, b| b.0.cmp(&a.0))`, which is stable: the last lines first.
unfoldable pub place : Planned → List Planned → List Planned
place x [] = x ∷ []
place x (y ∷ ys) = let rest = place x ys in if leb y.idx x.idx then x ∷ y ∷ ys else y ∷ rest

unfoldable pub sort_descending : List Planned → List Planned
unfolding place
sort_descending [] = []
sort_descending (x ∷ xs) = place x (sort_descending xs)

-- `lines.splice(idx..end, replacement)`
unfoldable pub splice : Planned → List Line → List Line
splice edit ls = take edit.idx ls ++ edit.replacement ++ drop edit.end ls

abbrev pub applied_of : Planned → FsPatchApplied
applied_of edit = record {
  start_line = suc edit.idx;
  end_line = edit.end;
  lines_added = length edit.replacement;
}

-- An edit that reaches into the one applied before it.
unfoldable pub overlaps : Option ℕ → ℕ → Bool
overlaps none end = false
overlaps (some prev) end = ltb prev end

-- The loop that applies the sorted edits, with `last_start`, the lines and `applied`.
unfoldable pub apply_planned :
    Option ℕ
    → List Planned
    → List Line
    → List FsPatchApplied
    → Planning (List Line × List FsPatchApplied)
unfolding splice overlaps
apply_planned last_start [] ls applied = planned (ls, reverse applied)
apply_planned last_start (edit ∷ edits) ls applied =
    let rest =
      apply_planned (some edit.idx) edits (splice edit ls) (applied ++ applied_of edit ∷ []) in
    if overlaps last_start edit.end then refused overlapping else rest

unfoldable pub also : Planned → Planning (List Planned) → Planning (List Planned)
also x (planned xs) = planned (x ∷ xs)
also x (refused e) = refused e

unfoldable pub apply_plan :
    List Line → Planning (List Planned) → Planning (List Line × List FsPatchApplied)
apply_plan ls (refused e) = refused e
apply_plan ls (planned edits) = apply_planned none (sort_descending edits) ls []

module _ (digest6 : List ℕ → List ℕ) where
  unfoldable pub short_hash : Line → List ℕ
  short_hash line = digest6 (strip_cr line)

  -- The hashes of the lines that an edit replaces.
  unfoldable pub actual_hashes_of : List Line → HashlineEdit → List (List ℕ)
  actual_hashes_of ls edit =
      map short_hash (take (last_line edit - (first_line edit - 1)) (drop (first_line edit - 1) ls))

  -- The loop that validates the edits against the file as it is.
  unfoldable pub plan : List Line → List HashlineEdit → Planning (List Planned)
  unfolding also
  plan ls [] = planned []
  plan ls (edit ∷ edits) =
      let rest = plan ls edits in
      let start = first_line edit in
      let end = last_line edit in
      let actual = actual_hashes_of ls edit in
      if ltb (length ls) end
      then refused (beyond_eof end (length ls))
      else if not (anchor_matches actual edit.hashes)
      then refused (
          stale (record {
            start_line = start;
            end_line = end;
            expected_hashes = edit.hashes;
            actual_hashes = actual;
          }))
      else also (range_of edit) rest

  -- From the validation of the edits to the spliced lines.
  unfoldable pub patched_lines :
      List Line → List HashlineEdit → Planning (List Line × List FsPatchApplied)
  unfolding apply_plan
  patched_lines ls edits = apply_plan ls (plan ls edits)

  module _ (decimal : ℕ → List ℕ) where
    unfoldable pub annotate_from : ℕ → List Line → List ℕ
    annotate_from n [] = []
    annotate_from n (line ∷ ls) =
        decimal n
        ++ hashline_prefix
        ++ short_hash line
        ++ hashline_prefix
        ++ line
        ++ lf ∷ annotate_from (suc n) ls

    unfoldable pub annotate_content : List ℕ → List ℕ
    annotate_content content = annotate_from 1 (lines content)
