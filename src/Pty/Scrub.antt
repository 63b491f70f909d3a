-- ===== src/Pty/Scrub.antt =====
-- What `scrub_ansi` of pty_ops.rs leaves of a text.
use synth_hires_bridge.Prelude.{
  ℕ, true, false, ◌≡◌, ◌≢◌, refl, ap, List, [], ◌∷◌, ◌++◌, arith, All, Bool-cases, inl, inr, ◌∙◌,
}
use synth_hires_bridge.Pty.{Mode, plain, escape, csi, esc, is_noise, next, keeps, scrub, scrub_ansi}

-- A character of plain text: neither an escape nor a control character that is dropped.
abbrev pub Plain : ℕ → Type 0
Plain c = (c ≢ esc) × (is_noise c ≡ false)

keeps-Plain : (mode : Mode) (c : ℕ) → keeps mode c ≡ true → Plain c
unfolding keeps
keeps-Plain plain c h = (ground arith, ground arith)
keeps-Plain escape c h = absurd (cc)
keeps-Plain csi c h = absurd (cc)

scrub-Plain : (mode : Mode) (s : List ℕ) → All Plain (scrub mode s)
unfolding scrub
scrub-Plain mode [] = tt
scrub-Plain mode (c ∷ s) = elim (Bool-cases (keeps mode c)) [
  | inl kept ↦ rw kept (keeps-Plain mode c kept, scrub-Plain (next mode c) s)
  | inr gone ↦ rw gone (scrub-Plain (next mode c) s)
]

plain_stays : (c : ℕ) → Plain c → (keeps plain c ≡ true) × (next plain c ≡ plain)
unfolding keeps next
plain_stays c h = (ground arith, ground arith)

scrub_same : (s : List ℕ) → All Plain s → scrub plain s ≡ s
unfolding scrub
scrub_same [] h = refl
scrub_same (c ∷ s) h =
    let (kept, on) = plain_stays c h.0 in rw (kept, on) (ap (λ t. c ∷ t) (scrub_same s h.1))

-- What is left of a text has no escape and no dropped control character, and plain text is left as it
-- is; so a second pass changes nothing.
pub scrub_ansi-Plain :
    (s : List ℕ)
    → All Plain (scrub_ansi s)
      × (All Plain s → scrub_ansi s ≡ s)
      × (scrub_ansi (scrub_ansi s) ≡ scrub_ansi s)
unfolding scrub_ansi
scrub_ansi-Plain s =
    (scrub-Plain plain s, scrub_same s, scrub_same (scrub plain s) (scrub-Plain plain s))

-- The mode behind a text.
abbrev pub modes : Mode → List ℕ → Mode
modes mode [] = mode
modes mode (c ∷ s) = modes (next mode c) s

scrub-append :
    (mode : Mode) (s t : List ℕ) → scrub mode (s ++ t) ≡ scrub mode s ++ scrub (modes mode s) t
unfolding scrub
scrub-append mode [] t = refl
scrub-append mode (c ∷ s) t = elim (Bool-cases (keeps mode c)) [
  | inl kept ↦ rw kept (ap (λ u. c ∷ u) (scrub-append (next mode c) s t))
  | inr gone ↦ rw gone (scrub-append (next mode c) s t)
]

-- Two chunks of which the first does not end inside a sequence are scrubbed as the one text.
pub scrub_ansi-chunks :
    (s t : List ℕ) → modes plain s ≡ plain → scrub_ansi (s ++ t) ≡ scrub_ansi s ++ scrub_ansi t
unfolding scrub_ansi
scrub_ansi-chunks s t whole =
    scrub-append plain s t ∙ ap (λ mode. scrub plain s ++ scrub mode t) whole
