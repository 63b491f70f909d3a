-- ===== src/Fs/Splice.antt =====
-- What the edits of a patch do to the lines of a file, fs_ops.rs: the splices of `patch`, from the last
-- range to the first, against a description that takes each line of the original by its number.
use synth_hires_bridge.Prelude.{
  ℕ, suc, ◌+◌, ◌≤◌, ◌<◌, Bool, true, false, ◌&&◌, ◌||◌, List, [], ◌∷◌, ◌++◌, ◌≡◌, refl, sym, ap,
  ◌∙◌, arith, length, if◌then◌else◌, leb, ltb, ◌==◌,
}
use mathlib.Core.List.{append_assoc, append-nil}
use synth_hires_bridge.Fs.Hashline.{Line, Planned, place, sort_descending}

-- The replacements of the edits whose range starts at the line.
unfoldable pub starting : ℕ → List Planned → List Line
starting i [] = []
starting i (e ∷ es) = let rest = starting i es in if e.idx == i then e.replacement ++ rest else rest

-- Some edit replaces the line.
unfoldable pub covered : ℕ → List Planned → Bool
covered i [] = false
covered i (e ∷ es) = (leb e.idx i && ltb i e.end) || covered i es

-- Each line, its replacement in front of it where a range starts, and left out where one covers it.
unfoldable pub rewritten : List Planned → ℕ → List Line → List Line
unfolding starting covered
rewritten es i [] = []
rewritten es i (l ∷ ls) =
    let rest = rewritten es (suc i) ls in starting i es ++ (if covered i es then rest else l ∷ rest)

-- The ranges lie below a line, none is empty, and each ends before the one ahead of it starts.
abbrev pub Fits : List Planned → ℕ → Type 0
Fits [] n = Unit
Fits (e ∷ es) n = e.idx < e.end × e.end ≤ n × Fits es e.idx

pub Fits-le : (es : List Planned) (m n : ℕ) → m ≤ n → Fits es m → Fits es n
Fits-le [] m n h f = tt
Fits-le (e ∷ es) m n h f = (f.0, ground (arith, f.1, h), f.2)

starting-place :
    (i : ℕ) (x : Planned) (xs : List Planned) → starting i (place x xs) ≡ starting i (x ∷ xs)
unfolding starting place
starting-place i x [] = refl
starting-place i x (y ∷ ys) = ground (arith, starting-place i x ys)

covered-place :
    (i : ℕ) (x : Planned) (xs : List Planned) → covered i (place x xs) ≡ covered i (x ∷ xs)
unfolding covered place
covered-place i x [] = refl
covered-place i x (y ∷ ys) = ground (arith, covered-place i x ys)

pub starting-sort : (i : ℕ) (xs : List Planned) → starting i (sort_descending xs) ≡ starting i xs
unfolding starting sort_descending
starting-sort i [] = refl
starting-sort i (x ∷ xs) =
    ground (arith, starting-place i x (sort_descending xs), starting-sort i xs)

pub covered-sort : (i : ℕ) (xs : List Planned) → covered i (sort_descending xs) ≡ covered i xs
unfolding covered sort_descending
covered-sort i [] = refl
covered-sort i (x ∷ xs) = ground (arith, covered-place i x (sort_descending xs), covered-sort i xs)

-- Edits that agree on the numbers of some lines rewrite them alike.
pub rewritten-agree :
    (es fs : List Planned) (i : ℕ) (ls : List Line)
    → ((j : ℕ) → i ≤ j → j < i + length ls → starting j es ≡ starting j fs)
    → ((j : ℕ) → i ≤ j → j < i + length ls → covered j es ≡ covered j fs)
    → rewritten es i ls ≡ rewritten fs i ls
unfolding rewritten
rewritten-agree es fs i [] h k = refl
rewritten-agree es fs i (l ∷ ls) h k = rw (
  h i (omega arith) (omega arith),
  k i (omega arith) (omega arith),
  rewritten-agree es fs (suc i) ls (λ j a b. h j (omega arith) (omega arith))
      (λ j a b. k j (omega arith) (omega arith)),
)

kept :
    (l : Line) (xs ys zs : List Line) (c : Bool)
    → xs ≡ ys ++ zs
    → (if c then xs else l ∷ xs) ≡ (if c then ys else l ∷ ys) ++ zs
kept l xs ys zs true h = h
kept l xs ys zs false h = ap (λ ls. l ∷ ls) h

pub rewritten-append :
    (es : List Planned) (i : ℕ) (xs ys : List Line)
    → rewritten es i (xs ++ ys) ≡ rewritten es i xs ++ rewritten es (i + length xs) ys
unfolding rewritten
rewritten-append es i [] ys = ap (λ n. rewritten es n ys) (omega arith)
rewritten-append es i (x ∷ xs) ys =
    let shift : suc i + length xs ≡ i + suc (length xs) = omega arith in
    let here =
      rewritten-append es (suc i) xs ys
      ∙ ap (λ n. rewritten es (suc i) xs ++ rewritten es n ys) shift in
    ap (λ rest. starting i es ++ rest) (kept x _ _ _ (covered i es) here)
    ∙ sym (append_assoc (starting i es) _ _)

starting-above : (es : List Planned) (n i : ℕ) → Fits es n → n ≤ i → starting i es ≡ []
unfolding starting
starting-above [] n i f h = refl
starting-above (e ∷ es) n i f h = ground (arith, starting-above es e.idx i f.2, f.0, f.1)

covered-above : (es : List Planned) (n i : ℕ) → Fits es n → n ≤ i → covered i es ≡ false
unfolding covered
covered-above [] n i f h = refl
covered-above (e ∷ es) n i f h = ground (arith, covered-above es e.idx i f.2, f.0, f.1)

pub rewritten-above :
    (es : List Planned) (n i : ℕ) (ls : List Line) → Fits es n → n ≤ i → rewritten es i ls ≡ ls
unfolding rewritten
rewritten-above es n i [] f h = refl
rewritten-above es n i (l ∷ ls) f h = rw (
  starting-above es n i f h,
  covered-above es n i f h,
  rewritten-above es n (suc i) ls f (omega arith),
)

-- The lines that an edit takes, from its second on.
rewritten-inside :
    (x : Planned) (xs : List Planned) (i : ℕ) (ls : List Line)
    → Fits xs x.idx
    → x.idx < i
    → i + length ls ≤ x.end
    → rewritten (x ∷ xs) i ls ≡ []
unfolding rewritten starting covered
rewritten-inside x xs i [] f h k = refl
rewritten-inside x xs i (l ∷ ls) f h k =
    ground (arith, starting-above xs x.idx i f, rewritten-inside x xs (suc i) ls f)

-- All the lines that an edit takes.
pub rewritten-range :
    (x : Planned) (xs : List Planned) (ls : List Line)
    → Fits xs x.idx
    → 0 < length ls
    → x.idx + length ls ≤ x.end
    → rewritten (x ∷ xs) x.idx ls ≡ x.replacement
unfolding rewritten starting covered
rewritten-range x xs [] f h k = absurd (omega arith)
rewritten-range x xs (l ∷ ls) f h k = ground (
  arith,
  starting-above xs x.idx x.idx f,
  rewritten-inside x xs (suc x.idx) ls f,
  append-nil x.replacement,
)
