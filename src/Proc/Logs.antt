-- ===== src/Proc/Logs.antt =====
-- What a process's log shows: `LogRing` of proc_ops.rs over everything that was pushed.
use synth_hires_bridge.Prelude.{
  ℕ, zero, suc, ◌+◌, ◌-◌, ◌≤◌, min, String, ◌≡◌, refl, inl, inr, Option, some, List, [], ◌∷◌, ◌++◌,
  arith, leb, length, take, drop, unwrap_or, length-append, length-drop, Bool-cases, ◌∙◌, ap, sym,
  subst,
}
use synth_hires_bridge.Proc.{LogRing, default, push, read, limit, ring_capacity}

module _ {ℓ} {A : Type ℓ} where
  drop-append : (n : ℕ) (xs ys : List A) → n ≤ length xs → drop n (xs ++ ys) ≡ drop n xs ++ ys
  drop-append zero xs ys h = refl
  drop-append (suc n) [] ys h = absurd (omega arith)
  drop-append (suc n) (x ∷ xs) ys h = drop-append n xs ys (omega arith)

  drop-drop-one : (n : ℕ) (xs : List A) → drop 1 (drop n xs) ≡ drop (suc n) xs
  drop-drop-one zero xs = refl
  drop-drop-one (suc n) [] = refl
  drop-drop-one (suc n) (x ∷ xs) = drop-drop-one n xs

  append_snoc : (xs : List A) (x : A) (ys : List A) → (xs ++ x ∷ []) ++ ys ≡ xs ++ x ∷ ys
  append_snoc [] x ys = refl
  append_snoc (z ∷ xs) x ys = ap (λ zs. z ∷ zs) (append_snoc xs x ys)

  append_nil : (xs : List A) → xs ++ [] ≡ xs
  append_nil [] = refl
  append_nil (x ∷ xs) = ap (λ zs. x ∷ zs) (append_nil xs)

  drop-all : (n : ℕ) (xs : List A) → length xs ≤ n → drop n xs ≡ []
  drop-all zero [] h = refl
  drop-all zero (x ∷ xs) h = absurd (omega arith)
  drop-all (suc n) [] h = refl
  drop-all (suc n) (x ∷ xs) h = drop-all n xs (omega arith)

take_drop_nil : (n m : ℕ) → ◌≡◌ {A = List String} (take n (drop m [])) []
take_drop_nil zero m = refl
take_drop_nil (suc n) zero = refl
take_drop_nil (suc n) (suc m) = refl

-- The ring after the lines were pushed, the first of them first.
abbrev pub push_all : LogRing → List String → LogRing
push_all ring [] = ring
push_all ring (line ∷ lines) = push_all (push ring line) lines

-- The ring holds the last 500 of these lines.
abbrev Logged : LogRing → List String → Type 0
Logged ring lines =
    (ring.total ≡ length lines) × (ring.lines ≡ drop (length lines - ring_capacity) lines)

push-Logged :
    (ring : LogRing) (lines : List String) (line : String)
    → Logged ring lines
    → Logged (push ring line) (lines ++ line ∷ [])
unfolding push
push-Logged ring lines line h =
    let count = length-append lines (line ∷ []) in
    let held = ap (λ xs. length xs) h.1 ∙ length-drop (length lines - ring_capacity) lines in
    let gone = length lines - ring_capacity in
    elim (Bool-cases (leb ring_capacity (length ring.lines))) [
      | inl full ↦ (
        omega arith,
        rw full (
            ap (λ xs. drop 1 xs ++ line ∷ []) h.1
            ∙ ap (λ xs. xs ++ line ∷ []) (drop-drop-one gone lines)
            ∙ sym (drop-append (suc gone) lines (line ∷ []) (ground arith))
            ∙ ap (λ n. drop n (lines ++ line ∷ [])) {x = suc gone} (ground arith)),
      )
      | inr room ↦ (
        omega arith,
        rw room (
            ap (λ xs. xs ++ line ∷ []) h.1
            ∙ sym (drop-append gone lines (line ∷ []) (ground arith))
            ∙ ap (λ n. drop n (lines ++ line ∷ [])) (ground arith)),
      )
    ]

push_all-Logged :
    (ring : LogRing) (before lines : List String)
    → Logged ring before
    → Logged (push_all ring lines) (before ++ lines)
push_all-Logged ring before [] h = subst (Logged ring) (sym (append_nil before)) h
push_all-Logged ring before (line ∷ lines) h =
    subst (Logged (push_all (push ring line) lines)) (append_snoc before line lines) (
      push_all-Logged (push ring line) (before ++ line ∷ []) lines (push-Logged ring before line h))

-- The ring counts every line, and holds the last 500 of them in order.
pub push_all-last :
    (lines : List String)
    → ((push_all default lines).total ≡ length lines)
      × ((push_all default lines).lines ≡ drop (length lines - ring_capacity) lines)
push_all-last lines = push_all-Logged default [] lines (refl, refl)

read-Logged :
    (ring : LogRing) (n : ℕ) (held : List String) (start max_lines : Option ℕ)
    → ring.total ≡ n
    → ring.lines ≡ held
    → read ring start max_lines
      ≡ (take (limit max_lines) (drop (min (unwrap_or start 0) n) (drop (n - length held) held)), n)
unfolding read
read-Logged ring n held start max_lines h k = rw h (rw k refl)

-- While the process has written no more than 500 lines, a read from line `start` gives the lines from
-- there on, up to the limit.
pub read-whole :
    (lines : List String) (start : ℕ) (max_lines : Option ℕ)
    → length lines ≤ ring_capacity
    → read (push_all default lines) (some start) max_lines
      ≡ (take (limit max_lines) (drop (min start (length lines)) lines), length lines)
read-whole lines start max_lines h =
    let (count, held) = push_all-last lines in
    let none_gone : length lines - ring_capacity ≡ 0 = omega arith in
    let all_held = held ∙ ap (λ n. drop n lines) none_gone in
    let no_skip : length lines - length lines ≡ 0 = omega arith in
    read-Logged (push_all default lines) (length lines) lines (some start) max_lines count all_held
    ∙ ap
        (λ n.
          (take (limit max_lines) (drop (min start (length lines)) (drop n lines)), length lines))
        no_skip

-- Once the process has written 1000 lines, every read gives no line at all, although the ring holds
-- the last 500.
pub read-lost :
    (lines : List String) (start max_lines : Option ℕ)
    → (ring_capacity + ring_capacity) ≤ length lines
    → (read (push_all default lines) start max_lines ≡ ([], length lines))
      × (length (push_all default lines).lines ≡ ring_capacity)
read-lost lines start max_lines h =
    let (count, held) = push_all-last lines in
    let last = drop (length lines - ring_capacity) lines in
    let size : length last ≡ ring_capacity =
      length-drop (length lines - ring_capacity) lines ∙ omega arith in
    let shown = drop-all (length lines - length last) last (omega arith) in
    (
      read-Logged (push_all default lines) (length lines) last start max_lines count held
          ∙ ap
              (λ xs. (
                take (limit max_lines) (drop (min (unwrap_or start 0) (length lines)) xs),
                length lines,
              ))
              shown
          ∙ ap (λ xs. (xs, length lines))
              (take_drop_nil (limit max_lines) (min (unwrap_or start 0) (length lines))),
      ap (λ xs. length xs) held ∙ size,
    )
