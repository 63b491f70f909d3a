-- ===== src/Fs/Edits.antt =====
-- When `patch` of fs_ops.rs accepts its edits, and what the lines are then.
use synth_hires_bridge.Prelude.{
  ℕ, ◌≤◌, true, none, List, [], ◌∷◌, map, reverse, ◌≡◌, refl, sym, ap, ◌∙◌, arith, length, inl, inr,
  All, ◌⊎◌,
}
use synth_hires_bridge.Fs.Hashline.{
  Line, HashlineEdit, Planned, Planning, PatchError, planned, refused, FsPatchApplied, applied_of,
  apply_planned, first_line, last_line, range_of, actual_hashes_of, anchor_matches, also, plan,
  apply_plan, patched_lines, sort_descending, place, overlaps, splice,
}
use synth_hires_bridge.Fs.Splice.{
  rewritten, Fits, rewritten-agree, rewritten-above, starting-sort, covered-sort,
}
use synth_hires_bridge.Fs.Ranges.{
  Proper, planned-injective, refused≢planned, apply_from-rewritten, apply_from-Fits,
  rewritten-splice, idx-le-splice,
}

pub Planning-cases :
    {A : Type 0} (p : Planning A)
    → ((a : A) × (p ≡ planned a)) ⊎ ((e : PatchError) × (p ≡ refused e))
Planning-cases (planned a) = inl (a, refl)
Planning-cases (refused e) = inr (e, refl)

module _ (digest6 : List ℕ → List ℕ) where
  -- The edit's lines are in the file, and carry the hashes that it expects.
  abbrev pub Anchored : List Line → HashlineEdit → Type 0
  Anchored ls edit =
      last_line edit ≤ length ls
      × (anchor_matches (actual_hashes_of digest6 ls edit) edit.hashes ≡ true)

  plan-Anchored :
      (ls : List Line) (edits : List HashlineEdit) (es : List Planned)
      → plan digest6 ls edits ≡ planned es
      → es ≡ map range_of edits × All (Anchored ls) edits
  unfolding plan also
  plan-Anchored ls [] es e = (sym (planned-injective e), tt)
  plan-Anchored ls (edit ∷ edits) es e = elim (Planning-cases (plan digest6 ls edits)) [
    | inl (rest, went) ↦ (let tail = plan-Anchored ls edits rest went in ground arith)
    | inr (why, stopped) ↦ ground arith
  ]

  Anchored-plan :
      (ls : List Line) (edits : List HashlineEdit)
      → All (Anchored ls) edits
      → plan digest6 ls edits ≡ planned (map range_of edits)
  unfolding plan also
  Anchored-plan ls [] h = refl
  Anchored-plan ls (edit ∷ edits) h = ground (arith, Anchored-plan ls edits h.1)

-- The loop over the sorted ranges.
applied-rewritten :
    (es : List Planned) (ls out : List Line) (reported : List FsPatchApplied)
    → All Proper es
    → All (λ e. e.end ≤ length ls) es
    → apply_planned none es ls [] ≡ planned (out, reported)
    → Fits es (length ls) × out ≡ rewritten es 0 ls × reported ≡ reverse (map applied_of es)
unfolding apply_planned overlaps
applied-rewritten [] ls out reported p b e =
    let same = planned-injective e in
    (
      tt,
      sym (ap (λ r. r.0) same) ∙ sym (rewritten-above [] 0 0 ls tt (omega arith)),
      sym (ap (λ r. r.1) same),
    )
applied-rewritten (x ∷ es) ls out reported p b e =
    let rest =
      apply_from-rewritten x.idx es (splice x ls) (applied_of x ∷ []) reported out
        (idx-le-splice x ls p.0 b.0) p.1 e in
    ((p.0, b.0, rest.0), rest.1 ∙ rewritten-splice x es ls rest.0 p.0 b.0, rest.2)

applied-Fits :
    (es : List Planned) (ls : List Line)
    → Fits es (length ls)
    → (out : List Line × List FsPatchApplied) × (apply_planned none es ls [] ≡ planned out)
unfolding apply_planned overlaps
applied-Fits [] ls f = (_, refl)
applied-Fits (x ∷ es) ls f = apply_from-Fits x.idx es (splice x ls) (applied_of x ∷ []) f.2

All-place :
    (P : Planned → Type 0) (x : Planned) (xs : List Planned) → P x → All P xs → All P (place x xs)
unfolding place
All-place P x [] h k = (h, tt)
All-place P x (y ∷ ys) h k = ground (arith, All-place P x ys h k.1)

All-sort : (P : Planned → Type 0) (xs : List Planned) → All P xs → All P (sort_descending xs)
unfolding sort_descending
All-sort P [] h = tt
All-sort P (x ∷ xs) h = All-place P x (sort_descending xs) h.0 (All-sort P xs h.1)

All-ranges :
    (P : Planned → Type 0) (Q : HashlineEdit → Type 0) (edits : List HashlineEdit)
    → ((edit : HashlineEdit) → Q edit → P (range_of edit))
    → All Q edits
    → All P (map range_of edits)
All-ranges P Q [] f h = tt
All-ranges P Q (edit ∷ edits) f h = (f edit h.0, All-ranges P Q edits f h.1)

rewritten-sort :
    (es : List Planned) (ls : List Line) → rewritten (sort_descending es) 0 ls ≡ rewritten es 0 ls
rewritten-sort es ls =
    rewritten-agree (sort_descending es) es 0 ls (λ j _ _. starting-sort j es)
      (λ j _ _. covered-sort j es)

module _ (digest6 : List ℕ → List ℕ) where
  -- The edits of a patch that fits the file: each is anchored, and the ranges, the last first, do
  -- not overlap.
  abbrev pub Acceptable : List Line → List HashlineEdit → Type 0
  Acceptable ls edits =
      All (Anchored digest6 ls) edits × Fits (sort_descending (map range_of edits)) (length ls)

  Proper-range_of : (edit : HashlineEdit) → Proper (range_of edit)
  unfolding first_line last_line
  Proper-range_of edit = omega arith

  -- Where the edits of a patch are accepted, they are acceptable, every line of the file is
  -- kept or replaced as the edits with its number say, whatever order they come in, and the report
  -- lists them from the first line to the last.
  pub patched_lines-rewritten :
      (ls : List Line) (edits : List HashlineEdit) (out : List Line)
      (reported : List FsPatchApplied)
      → patched_lines digest6 ls edits ≡ planned (out, reported)
      → Acceptable ls edits
        × out ≡ rewritten (map range_of edits) 0 ls
        × reported ≡ reverse (map applied_of (sort_descending (map range_of edits)))
  unfolding patched_lines apply_plan
  patched_lines-rewritten ls edits out reported e = elim (Planning-cases (plan digest6 ls edits)) [
    | inr (why, stopped) ↦ absurd (refused≢planned (sym (ap (apply_plan ls) stopped) ∙ e))
    | inl (es, went) ↦
        let known = plan-Anchored digest6 ls edits es went in
        let ranges = map range_of edits in
        let proper =
          All-ranges Proper (Anchored digest6 ls) edits (λ a _. Proper-range_of a) known.1 in
        let inside =
          All-ranges (λ r. r.end ≤ length ls) (Anchored digest6 ls) edits (λ a h. h.0) known.1 in
        let run : apply_planned none (sort_descending ranges) ls [] ≡ planned (out, reported) =
          sym (ap (apply_plan ls) (went ∙ ap planned known.0)) ∙ e in
        let result =
          applied-rewritten (sort_descending ranges) ls out reported (All-sort Proper ranges proper)
            (All-sort (λ r. r.end ≤ length ls) ranges inside) run in
        ((known.1, result.0), result.1 ∙ rewritten-sort ranges ls, result.2)
  ]

  -- Acceptable edits are accepted.
  pub patched_lines-accepts :
      (ls : List Line) (edits : List HashlineEdit)
      → Acceptable ls edits
      → (out : List Line × List FsPatchApplied) × (patched_lines digest6 ls edits ≡ planned out)
  unfolding patched_lines apply_plan
  patched_lines-accepts ls edits h =
      let sorted = sort_descending (map range_of edits) in
      let done = applied-Fits sorted ls h.1 in
      (done.0, ap (apply_plan ls) (Anchored-plan digest6 ls edits h.0) ∙ done.1)
