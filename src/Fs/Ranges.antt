-- ===== src/Fs/Ranges.antt =====
-- The loop of `patch` in fs_ops.rs that splices the sorted edits, against `rewritten`.
use mathlib.Core.List.{append_assoc, append-nil}
use synth_hires_bridge.Prelude.{
  ℕ, zero, suc, ◌+◌, ◌-◌, ◌≤◌, ◌<◌, some, List, [], ◌∷◌, ◌++◌, map, reverse, ◌≡◌, refl, sym, ap,
  subst, ◌∙◌, arith, take, drop, length, length-append, length-take, length-drop, take-append-drop,
  if◌then◌else◌, Bool-cases, ltb, ltb-false, ltb-ge, ◌≢◌, inl, inr, All,
}
use synth_hires_bridge.Fs.Hashline.{
  Line, Planned, Planning, planned, refused, PatchError, overlapping, FsPatchApplied, applied_of,
  splice, overlaps, apply_planned,
}
use synth_hires_bridge.Fs.Splice.{
  rewritten, Fits, rewritten-append, rewritten-above, rewritten-range, rewritten-agree, starting,
  covered,
}

drop-nil : (n : ℕ) → drop {A = Line} n [] ≡ []
drop-nil zero = refl
drop-nil (suc n) = refl

drop-drop : (m n : ℕ) (ls : List Line) → drop n (drop m ls) ≡ drop (m + n) ls
drop-drop zero n ls = ap (λ k. drop k ls) (omega arith)
drop-drop (suc m) n [] = drop-nil n ∙ sym (drop-nil (suc m + n))
drop-drop (suc m) n (l ∷ ls) =
    let shift : suc (m + n) ≡ suc m + n = omega arith in
    drop-drop m n ls ∙ ap (λ k. drop k (l ∷ ls)) shift

-- An edit changes nothing ahead of its range.
rewritten-ahead :
    (x : Planned) (xs : List Planned) (i : ℕ) (ls : List Line)
    → i + length ls ≤ x.idx
    → rewritten (x ∷ xs) i ls ≡ rewritten xs i ls
unfolding starting covered
rewritten-ahead x xs i ls h =
    rewritten-agree (x ∷ xs) xs i ls (λ j a b. ground arith) (λ j a b. ground arith)

-- One splice, on the three parts of the lines.
rewritten-parts :
    (x : Planned) (xs : List Planned) (front range back : List Line)
    → Fits xs x.idx
    → x.idx < x.end
    → length front ≡ x.idx
    → x.idx + length range ≡ x.end
    → rewritten xs 0 (front ++ x.replacement ++ back)
      ≡ rewritten (x ∷ xs) 0 (front ++ (range ++ back))
rewritten-parts x xs front range back f h e k =
    let at : 0 + length front ≡ x.idx = omega (arith, e) in
    let all : Fits (x ∷ xs) x.end = (h, omega arith, f) in
    rw (
      append_assoc front x.replacement back,
      rewritten-append xs 0 front (x.replacement ++ back),
      rewritten-append (x ∷ xs) 0 front (range ++ back),
      rewritten-append (x ∷ xs) (0 + length front) range back,
      at,
      rewritten-above xs x.idx x.idx (x.replacement ++ back) f (omega arith),
      rewritten-ahead x xs 0 front (omega arith),
      rewritten-range x xs range f (omega arith) (omega arith),
      rewritten-above (x ∷ xs) x.end (x.idx + length range) back all (omega arith),
    )

pub rewritten-splice :
    (x : Planned) (xs : List Planned) (ls : List Line)
    → Fits xs x.idx
    → x.idx < x.end
    → x.end ≤ length ls
    → rewritten xs 0 (splice x ls) ≡ rewritten (x ∷ xs) 0 ls
unfolding splice
rewritten-splice x xs ls f h k =
    let len_front : length (take x.idx ls) ≡ x.idx = omega (arith, length-take x.idx ls) in
    let behind = drop x.idx ls in
    let count = x.end - x.idx in
    let len_range : x.idx + length (take count behind) ≡ x.end =
      omega (arith, length-take count behind, length-drop x.idx ls) in
    let back : drop count behind ≡ drop x.end ls =
      drop-drop x.idx count ls ∙ ap (λ n. drop n ls) (omega arith) in
    let whole : take x.idx ls ++ (take count behind ++ drop x.end ls) ≡ ls =
      ap (λ all. take x.idx ls ++ (take count behind ++ all)) (sym back)
      ∙ ap (λ all. take x.idx ls ++ all) (take-append-drop count behind)
      ∙ take-append-drop x.idx ls in
    rewritten-parts x xs (take x.idx ls) (take count behind) (drop x.end ls) f h len_front len_range
    ∙ ap (λ all. rewritten (x ∷ xs) 0 all) whole

-- Every range has a line.
abbrev pub Proper : Planned → Type 0
Proper e = e.idx < e.end

pub idx-le-splice :
    (x : Planned) (ls : List Line)
    → x.idx < x.end
    → x.end ≤ length ls
    → x.idx ≤ length (splice x ls)
unfolding splice
idx-le-splice x ls h k = omega (
  arith,
  length-append (take x.idx ls ++ x.replacement) (drop x.end ls),
  length-append (take x.idx ls) x.replacement,
  length-take x.idx ls,
)

pub planned-injective : {A : Type 0} {a b : A} → planned a ≡ planned b → a ≡ b
planned-injective e = cc

pub refused≢planned : {A : Type 0} {a : A} {e : PatchError} → refused e ≢ planned a
refused≢planned e = cc

pub apply_from-rewritten :
    (prev : ℕ) (es : List Planned) (ls : List Line) (applied reported : List FsPatchApplied)
    (out : List Line)
    → prev ≤ length ls
    → All Proper es
    → apply_planned (some prev) es ls applied ≡ planned (out, reported)
    → Fits es prev × out ≡ rewritten es 0 ls × reported ≡ reverse (applied ++ map applied_of es)
unfolding apply_planned overlaps
apply_from-rewritten prev [] ls applied reported out h p e =
    let same = planned-injective e in
    (
      tt,
      sym (ap (λ r. r.0) same) ∙ sym (rewritten-above [] 0 0 ls tt (omega arith)),
      sym (ap (λ r. r.1) same) ∙ ap reverse (sym (append-nil applied)),
    )
apply_from-rewritten prev (x ∷ es) ls applied reported out h p e =
    elim (Bool-cases (ltb prev x.end)) [
      | inl over ↦ absurd (
          refused≢planned (
            subst (λ b. (if b then refused overlapping else next) ≡ planned (out, reported)) over
              e))
      | inr apart ↦
          let went : next ≡ planned (out, reported) =
            subst (λ b. (if b then refused overlapping else next) ≡ planned (out, reported)) apart
              e in
          let below : x.end ≤ prev = ltb-false prev x.end apart in
          let rest =
            apply_from-rewritten x.idx es (splice x ls) (applied ++ applied_of x ∷ []) reported out
              (idx-le-splice x ls p.0 (omega arith)) p.1 went in
          (
            (p.0, below, rest.0),
            rest.1 ∙ rewritten-splice x es ls rest.0 p.0 (omega arith),
            rest.2 ∙ ap reverse (append_assoc applied (applied_of x ∷ []) (map applied_of es)),
          )
    ]
  where
    next : Planning (List Line × List FsPatchApplied)
    next = apply_planned (some x.idx) es (splice x ls) (applied ++ applied_of x ∷ [])

-- Ranges that fit are all applied.
pub apply_from-Fits :
    (prev : ℕ) (es : List Planned) (ls : List Line) (applied : List FsPatchApplied)
    → Fits es prev
    → (out : List Line × List FsPatchApplied) × (apply_planned (some prev) es ls applied
        ≡ planned out)
unfolding apply_planned overlaps
apply_from-Fits prev [] ls applied f = (_, refl)
apply_from-Fits prev (x ∷ es) ls applied f =
    let rest = apply_from-Fits x.idx es (splice x ls) (applied ++ applied_of x ∷ []) f.2 in
    (rest.0, rw (ltb-ge prev x.end f.1) rest.1)
