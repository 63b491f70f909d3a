-- ===== src/Server/Access.antt =====
-- Which callers the guards of server.rs let through: `is_allowed_origin` and `check_local`.
use synth_hires_bridge.Prelude.{
  ℕ, true, List, [], ◌∷◌, ◌++◌, ◌≡◌, refl, ap, ◌∙◌, ◌⊎◌, inl, inr, ◌↔◌, arith, all, drop, length,
  Bool-cases, unwrap_or,
}
use synth_hires_bridge.Prelude.Text.{codes, bytes_eq, bytes_eq_iff, has_prefix}
use synth_hires_bridge.Server.{
  HeaderMap, success, is_ascii_digit, port_after, is_allowed_origin, check_origin, is_expected_host,
  check_host, check_local,
}

has_prefix-append : (p s : List ℕ) → has_prefix p (p ++ s) ≡ true
unfolding has_prefix
has_prefix-append [] s = refl
has_prefix-append (c ∷ p) s = ground (arith, has_prefix-append p s)

pub has_prefix-drop : (p s : List ℕ) → has_prefix p s ≡ true → s ≡ p ++ drop (length p) s
unfolding has_prefix
has_prefix-drop [] s h = refl
has_prefix-drop (x ∷ p) [] h = ground arith
has_prefix-drop (x ∷ p) (c ∷ s) h = ground (arith, has_prefix-drop p s)

drop-append : (p s : List ℕ) → drop (length p) (p ++ s) ≡ s
drop-append [] s = refl
drop-append (c ∷ p) s = drop-append p s

-- A scheme and host of this machine, and a port of digits only.
abbrev pub LocalOrigin : List ℕ → List ℕ → Type 0
LocalOrigin host origin =
    (port : List ℕ) × (all is_ascii_digit port ≡ true) × (origin ≡ host ++ port)

prefix_iff :
    (p origin : List ℕ)
    → ((has_prefix p origin ≡ true) × (port_after p origin ≡ true)) ↔ LocalOrigin p origin
unfolding port_after
prefix_iff p origin = (
  λ h. (drop (length p) origin, h.1, has_prefix-drop p origin h.0),
  λ (port, digits, same). (
    ap (has_prefix p) same ∙ has_prefix-append p port,
    ap (λ o. all is_ascii_digit (drop (length p) o)) same
        ∙ ap (all is_ascii_digit) (drop-append p port)
        ∙ digits,
  ),
)

-- An origin is allowed exactly where it is the product's own site or, without encryption, this
-- machine under one of two names with a port of digits.
pub is_allowed_origin_iff :
    (origin : List ℕ)
    → (is_allowed_origin origin ≡ true) ↔ (
        (origin ≡ codes "https://synthhires.com")
        ⊎ (LocalOrigin (codes "http://localhost:") origin
            ⊎ LocalOrigin (codes "http://127.0.0.1:") origin))
unfolding is_allowed_origin bytes_eq has_prefix port_after
is_allowed_origin_iff origin = (
  λ e. elim (Bool-cases (bytes_eq origin (codes "https://synthhires.com"))) [
    | inl site ↦ inl ((bytes_eq_iff origin (codes "https://synthhires.com")).0 site)
    | inr other ↦ inr (elim (Bool-cases (has_prefix (codes "http://localhost:") origin)) [
      | inl named ↦ inl ((prefix_iff (codes "http://localhost:") origin).0 (named, ground arith))
      | inr not_named ↦
          inr ((prefix_iff (codes "http://127.0.0.1:") origin).0 (ground arith, ground arith))
    ])
  ],
  λ h. elim h [
    | inl site ↦ ap is_allowed_origin site
    | inr (inl (port, digits, same)) ↦ ap is_allowed_origin same ∙ digits
    | inr (inr (port, digits, same)) ↦ ap is_allowed_origin same ∙ digits
  ],
)

-- A request passes the guards exactly where its origin is allowed and its host is this machine's.
pub check_local_iff :
    (decimal : ℕ → List ℕ) (headers : HeaderMap) (port : ℕ)
    → (check_local decimal headers port ≡ success tt) ↔ (
        (is_allowed_origin (unwrap_or headers.origin []) ≡ true)
        × (is_expected_host decimal port (unwrap_or headers.host []) ≡ true))
unfolding check_local check_origin check_host
check_local_iff decimal headers port = ground arith
