-- ===== src/Fs/PatchLaws.antt =====
-- What `patch` of fs_ops.rs does to the disk, whether it succeeds or fails.
use synth_hires_bridge.Prelude.{
  ℕ, String, true, false, Option, none, some, List, [], ◌∷◌, ◌≡◌, ◌≢◌, refl, ap, ◌∙◌, str_eq,
  length, map, reverse, inl, inr, ◌⊎◌, sym, ◌++◌, true≢false, Bool-cases, ==_iff,
}
use mathlib.Core.List.{append_assoc}
use synth_hires_bridge.Prelude.Map.{lookup}
use synth_hires_bridge.Prelude.Text.{bytes_eq}
use synth_hires_bridge.Capability.Paths.{FilePath, Platform}
use synth_hires_bridge.Capability.Resolve.{Canonicalize}
use synth_hires_bridge.Capability.{GateDecision, allow, require_consent, deny, CapabilityGate}
use synth_hires_bridge.Errors.{Result, ok, err}
use synth_hires_bridge.Fs.Disk.{regular, Disk, Faults, read_file, write_via_unique_tmp}
use synth_hires_bridge.Fs.Atomic.{write_via_unique_tmp-Replaced}
use synth_hires_bridge.Fs.Text.{lf, from_utf8_lossy, lines, join, ends_with}
use synth_hires_bridge.Fs.Hashline.{
  Line, HashlineEdit, FsPatchApplied, PatchError, Planning, planned, refused, applied_of,
  patched_lines, sort_descending, range_of,
}
use synth_hires_bridge.Fs.Splice.{rewritten}
use synth_hires_bridge.Fs.Edits.{Acceptable, patched_lines-rewritten}
use synth_hires_bridge.Fs.Ops.{
  FsPatchRequest, FsPatchResult, and_then, reading, content_of, gate_decision, verdict,
  gate_for_path, write_patched, patch_edits, patch,
}
use synth_hires_bridge.Fs.Writes.{Untouched, Outcome, write_and_read-Outcome, bytes_eq_refl}

-- The disk that a failed operation leaves.
abbrev pub refusal : {A : Type 0} → Result A × Disk → Option Disk
refusal (ok _, d) = none
refusal (err _, d) = some d

-- Lines, each with its line feed; no line at all is one that is empty.
abbrev pub closed : List Line → List ℕ
closed [] = 10 ∷ []
closed (line ∷ []) = line ++ 10 ∷ []
closed (line ∷ next ∷ rest) = line ++ 10 ∷ closed (next ∷ rest)

-- A text with these lines, whose last one has a line feed exactly where that of the original has.
abbrev pub Spells : List ℕ → List Line → List ℕ → Type 0
Spells original ls text =
    (((front : List ℕ) × (original ≡ front ++ 10 ∷ [])) × (text ≡ closed ls))
    ⊎ ((¬ ((front : List ℕ) × (original ≡ front ++ 10 ∷ []))) × (text ++ 10 ∷ [] ≡ closed ls))

join-closed : (ls : List Line) → join ls ++ lf ∷ [] ≡ closed ls
unfolding join
join-closed [] = refl
join-closed (line ∷ []) = refl
join-closed (line ∷ next ∷ rest) =
    append_assoc line (lf ∷ join (next ∷ rest)) (lf ∷ [])
    ∙ ap (λ t. line ++ lf ∷ t) (join-closed (next ∷ rest))

ends_with-front :
    (bytes : List ℕ) → ends_with lf bytes ≡ true → (front : List ℕ) × (bytes ≡ front ++ 10 ∷ [])
unfolding ends_with
ends_with-front [] h = absurd (cc)
ends_with-front (b ∷ []) h = ([], ap (λ x. x ∷ []) ((==_iff b lf).0 h))
ends_with-front (b ∷ c ∷ bytes) h =
    let (front, e) = ends_with-front (c ∷ bytes) h in (b ∷ front, ap (λ t. b ∷ t) e)

ends_with-append : (front : List ℕ) → ends_with lf (front ++ 10 ∷ []) ≡ true
unfolding ends_with
ends_with-append [] = refl
ends_with-append (b ∷ []) = refl
ends_with-append (b ∷ c ∷ front) = ends_with-append (c ∷ front)

content_of-Spells :
    (original : List ℕ) (ls : List Line) → Spells original ls (content_of original ls)
unfolding content_of
content_of-Spells original ls = elim (Bool-cases (ends_with lf original)) [
  | inl fed ↦ rw fed (inl (ends_with-front original fed, join-closed ls))
  | inr bare ↦ rw bare (
      inr (
        (λ (front, e). true≢false (sym (ap (ends_with lf) e ∙ ends_with-append front) ∙ bare)),
        join-closed ls,
      ))
]

module _ (digest6 : List ℕ → List ℕ) (d : Disk) (path tmp : String)
    (edits : List HashlineEdit) where
  -- The file's new text: its lines rewritten as the edits say.
  abbrev pub patched_text : List ℕ → List ℕ
  patched_text original =
      content_of original (rewritten (map range_of edits) 0 (lines (from_utf8_lossy original)))

  -- The file had this text, which the edits fit, and has the patched text now; no other changed.
  abbrev pub PatchedFrom : List ℕ → Disk → Type 0
  PatchedFrom original after =
      (read_file d path ≡ some original)
      × Acceptable digest6 (lines (from_utf8_lossy original)) edits
      × (lookup path after ≡ some (regular (patched_text original)))
      × Spells original (rewritten (map range_of edits) 0 (lines (from_utf8_lossy original)))
          (patched_text original)
      × ((p : String) → str_eq path p ≡ false → str_eq tmp p ≡ false → lookup p after ≡ lookup p d)

  abbrev pub PatchOutcome : Result FsPatchResult × Disk → Type 0
  PatchOutcome (ok r, after) =
      (original : List ℕ) × PatchedFrom original after
      × (r.verified ≡ true)
      × (r.applied ≡ reverse (map applied_of (sort_descending (map range_of edits))))
  PatchOutcome (err e, after) =
      Untouched tmp d after ⊎ ((original : List ℕ) × PatchedFrom original after)

  report_of : List ℕ → List FsPatchApplied → List ℕ → FsPatchResult
  report_of content applied written = record {
    bytes_written = length written;
    verified = bytes_eq written content;
    applied = applied;
  }

  weaken :
      (original : List ℕ) (ls : List Line) (applied : List FsPatchApplied)
      (r : Result FsPatchResult × Disk)
      → read_file d path ≡ some original
      → Acceptable digest6 (lines (from_utf8_lossy original)) edits
      → ls ≡ rewritten (map range_of edits) 0 (lines (from_utf8_lossy original))
      → applied ≡ reverse (map applied_of (sort_descending (map range_of edits)))
      → Outcome d path tmp (content_of original ls) (report_of (content_of original ls) applied) r
      → PatchOutcome r
  unfolding report_of
  weaken original ls applied (ok r, after) had fit same told (is, (now, others)) = (
    original,
    (
      had,
      fit,
      now ∙ ap (λ l. some (regular (content_of original l))) same,
      content_of-Spells original _,
      others,
    ),
    ap (λ x. x.verified) is ∙ bytes_eq_refl (content_of original ls),
    ap (λ x. x.applied) is ∙ told,
  )
  weaken original ls applied (err e, after) had fit same told (inl kept) = inl kept
  weaken original ls applied (err e, after) had fit same told (inr (now, others)) = inr (
    original,
    (
      had,
      fit,
      now ∙ ap (λ l. some (regular (content_of original l))) same,
      content_of-Spells original _,
      others,
    ),
  )

  module _ (explain : PatchError → String) (f : Faults) (apart : str_eq tmp path ≡ false) where
    planned-Outcome :
        (original : List ℕ) (p : Planning (List Line × List FsPatchApplied))
        → read_file d path ≡ some original
        → patched_lines digest6 (lines (from_utf8_lossy original)) edits ≡ p
        → PatchOutcome (write_patched digest6 explain f d tmp path original p)
    unfolding write_patched report_of
    planned-Outcome original (refused why) had went = inl (λ p _. refl)
    planned-Outcome original (planned (ls, applied)) had went =
        let content = content_of original ls in
        let known =
          patched_lines-rewritten digest6 (lines (from_utf8_lossy original)) edits ls applied
            went in
        weaken original ls applied _ had known.0 known.1 known.2 (
          write_and_read-Outcome d path tmp content (report_of content applied) f
            (write_via_unique_tmp f d path tmp content)
            (write_via_unique_tmp-Replaced f d path tmp content apart))

    -- Reading fails, or gives what was there.
    reading-Outcome :
        (o : Option (List ℕ))
        → read_file d path ≡ o
        → PatchOutcome (
            reading o d λ original.
              write_patched digest6 explain f d tmp path original
                (patched_lines digest6 (lines (from_utf8_lossy original)) edits))
    reading-Outcome none e = inl (λ p _. refl)
    reading-Outcome (some original) e = planned-Outcome original _ e refl

pub edits-Outcome :
    (digest6 : List ℕ → List ℕ) (explain : PatchError → String) (f : Faults) (d : Disk)
    (path tmp : String) (edits : List HashlineEdit)
    → str_eq tmp path ≡ false
    → PatchOutcome digest6 d path tmp edits (patch_edits digest6 explain f d tmp path edits)
unfolding patch_edits
edits-Outcome digest6 explain f d path tmp [] apart = inl (λ p _. refl)
edits-Outcome digest6 explain f d path tmp (edit ∷ edits) apart =
    reading-Outcome digest6 d path tmp (edit ∷ edits) explain f apart (read_file d path) refl

module _ (platform : Platform) (canonicalize : Canonicalize) (display : FilePath → String)
    (digest6 : List ℕ → List ℕ) (explain : PatchError → String) where
  -- The disk is as it was unless the gate allows, and the outcome is one of a patch.
  abbrev pub GatedOutcome :
      GateDecision
      → Disk
      → String
      → String
      → List HashlineEdit
      → Result FsPatchResult × Disk
      → Type 0
  GatedOutcome decision d path tmp edits r =
      PatchOutcome digest6 d path tmp edits r × (decision ≢ allow → refusal r ≡ some d)

  behind_gate :
      (decision : GateDecision) (req : FsPatchRequest) (d : Disk) (tmp : String)
      (next : Disk → Result FsPatchResult × Disk)
      → PatchOutcome digest6 d (display req.path) tmp req.edits (next d)
      → GatedOutcome decision d
          (display req.path)
          tmp
          req.edits
          (and_then (verdict display "desktop.fs.write" req.path decision, d) next)
  unfolding verdict
  behind_gate allow req d tmp next h = (h, λ n. absurd (n refl))
  behind_gate require_consent req d tmp next h = (inl (λ p _. refl), λ _. refl)
  behind_gate deny req d tmp next h = (inl (λ p _. refl), λ _. refl)

  -- A patch without the gate's allowance for writing fails and leaves the disk as it is. A patch that
  -- succeeds had edits that fit the file that was there,
  -- every anchor and no overlap; the file then holds that text's lines, each kept or replaced as
  -- the edits with its number say, with a line feed between two of them and behind the last one exactly
  -- where the file ended with one. It was verified, and no other file changed but the temporary one. A patch that fails left every file as it was, but the temporary one, unless only the reading
  -- back failed. The temporary name is not the target's.
  pub patch-GatedOutcome :
      (gate : CapabilityGate) (f : Faults) (d : Disk) (tmp : String) (req : FsPatchRequest)
      → str_eq tmp (display req.path) ≡ false
      → GatedOutcome
          (gate_decision platform canonicalize display gate "desktop.fs.write" req.path)
          d
          (display req.path)
          tmp
          req.edits
          (patch platform canonicalize display digest6 explain gate f d tmp req)
  unfolding patch gate_for_path
  patch-GatedOutcome gate f d tmp req apart =
      behind_gate (gate_decision platform canonicalize display gate "desktop.fs.write" req.path) req
        d tmp (λ d₁. patch_edits digest6 explain f d₁ tmp (display req.path) req.edits)
        (edits-Outcome digest6 explain f d (display req.path) tmp req.edits apart)
