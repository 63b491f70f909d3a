-- ===== src/Pairing/Address.antt =====
-- Which addresses `validate_backend_url` of pairing.rs accepts.
use synth_hires_bridge.Prelude.{
  none≢some, ℕ, String, Bool, true, false, Option, none, some, List, [], ◌∷◌, ◌≡◌, ◌≢◌, refl, sym,
  ap, ◌∙◌, ◌⊎◌, inl, inr, ◌↔◌, arith, any, Bool-cases, ◌==◌, if◌then◌else◌, subst,
}
use synth_hires_bridge.Prelude.Text.{
  codes, onto_first, bytes_eq, bytes_eq_iff, trim, split, to_ascii_lowercase,
}
use synth_hires_bridge.Pairing.{
  accepted, rejected, empty, split_once, authority_of, host_of, is_one_of, is_loopback, first_piece,
  bad_character, check_scheme, scheme_end, validate_backend_url,
}

-- The parts of an address that the code accepts, in its own words.
pub record CheckedAddress (b scheme rest : List ℕ) : Type 0 where
  pub parted : split_once scheme_end (to_ascii_lowercase b) ≡ some (scheme, rest)
  pub encrypted_or_local :
      (is_one_of scheme ("https" ∷ "wss" ∷ []) ≡ true)
      ⊎ ((is_one_of scheme ("http" ∷ "ws" ∷ []) ≡ true)
          × (is_one_of (host_of (authority_of rest)) ("localhost" ∷ "127.0.0.1" ∷ []) ≡ true))
  pub hosted : authority_of rest ≢ []
  pub no_user : any (λ c. c == b'@') (authority_of rest) ≡ false
  pub printable : any bad_character b ≡ false

-- The first piece of a text that is split at a character does not have it.
pub any-first_piece-split :
    (at : ℕ) (text : List ℕ) → any (λ c. c == at) (first_piece (split at text)) ≡ false
unfolding first_piece split onto_first
any-first_piece-split at [] = refl
any-first_piece-split at (c ∷ text) = onto (split at text) (any-first_piece-split at text)
  where
    onto :
        (pieces : List (List ℕ))
        → any (λ x. x == at) (first_piece pieces) ≡ false
        → any (λ x. x == at) (first_piece (if c == at then [] ∷ pieces else onto_first c pieces))
          ≡ false
    onto [] h = ground arith
    onto (p ∷ pieces) h = ground arith

not_name :
    (name : String) (host : List ℕ)
    → any (λ c. c == b':') (codes name) ≡ true
    → any (λ c. c == b':') host ≡ false
    → bytes_eq (codes name) host ≡ false
not_name name host h k = elim (Bool-cases (bytes_eq (codes name) host)) [
  | inr other ↦ other
  | inl same ↦
      let clash : true ≡ false =
        sym h ∙ ap (λ t. any (λ c. c == b':') t) ((bytes_eq_iff (codes name) host).0 same) ∙ k in
      cc
]

-- A host has no colon, so of the names that the code lists only two can be one.
is_loopback_host :
    (authority : List ℕ)
    → is_loopback (host_of authority)
      ≡ is_one_of (host_of authority) ("localhost" ∷ "127.0.0.1" ∷ [])
unfolding is_loopback is_one_of host_of
is_loopback_host authority = ground (
  arith,
  not_name "::1" (host_of authority) refl,
  not_name "[::1]" (host_of authority) refl,
  any-first_piece-split b':' authority,
)

not-bytes_eq : (xs ys : List ℕ) → xs ≢ ys → bytes_eq xs ys ≡ false
not-bytes_eq xs ys h = elim (Bool-cases (bytes_eq xs ys)) [
  | inl same ↦ absurd (h ((bytes_eq_iff xs ys).0 same))
  | inr other ↦ other
]

-- No scheme is both.
encrypted-plain :
    (scheme : List ℕ)
    → is_one_of scheme ("https" ∷ "wss" ∷ []) ≡ true
    → is_one_of scheme ("http" ∷ "ws" ∷ []) ≡ false
unfolding is_one_of bytes_eq
encrypted-plain scheme h = elim (Bool-cases (bytes_eq (codes "https") scheme)) [
  | inl same ↦
      subst (λ s. is_one_of s ("http" ∷ "ws" ∷ []) ≡ false)
        ((bytes_eq_iff (codes "https") scheme).0 same) refl
  | inr other ↦
      subst (λ s. is_one_of s ("http" ∷ "ws" ∷ []) ≡ false)
        ((bytes_eq_iff (codes "wss") scheme).0 (ground arith)) refl
]

accepts :
    (b scheme rest : List ℕ)
    → (check_scheme b (some (scheme, rest)) ≡ accepted) ↔ (
        ((is_one_of scheme ("https" ∷ "wss" ∷ []) ≡ true)
          ⊎ ((is_one_of scheme ("http" ∷ "ws" ∷ []) ≡ true)
              × (is_one_of (host_of (authority_of rest)) ("localhost" ∷ "127.0.0.1" ∷ []) ≡ true)))
        × (authority_of rest ≢ [])
        × (any (λ c. c == b'@') (authority_of rest) ≡ false)
        × (any bad_character b ≡ false))
unfolding check_scheme is_one_of
accepts b scheme rest = (
  λ e. (
    ground (arith, is_loopback_host (authority_of rest)),
    (λ same. absurd (ground (arith, (bytes_eq_iff (authority_of rest) []).1 same))),
    ground arith,
    ground arith,
  ),
  λ e.
      (let hosted : bytes_eq (authority_of rest) [] ≡ false =
          not-bytes_eq (authority_of rest) [] e.1 in
        ground (arith, is_loopback_host (authority_of rest), encrypted-plain scheme)),
)

checked_iff :
    (b : List ℕ) (o : Option (List ℕ × List ℕ))
    → split_once scheme_end (to_ascii_lowercase b) ≡ o
    → (check_scheme b o ≡ accepted)
      ↔ ((scheme : List ℕ) × (rest : List ℕ) × CheckedAddress b scheme rest)
unfolding check_scheme
checked_iff b none e =
    ((λ h. cc), (λ (scheme, rest, safe). absurd (none≢some (sym e ∙ safe.parted))))
checked_iff b (some (scheme, rest)) e = (
  λ h.
      (let parts = (accepts b scheme rest).0 h in
        (
          scheme,
          rest,
          record {
            parted = e;
            encrypted_or_local = parts.0;
            hosted = parts.1;
            no_user = parts.2;
            printable = parts.3;
          },
        )),
  λ (s, r, safe).
      ap (check_scheme b) (sym e ∙ safe.parted)
      ∙ (accepts b s r).1 (safe.encrypted_or_local, safe.hosted, safe.no_user, safe.printable),
)

pub validate_backend_url-checked :
    (backend : List ℕ)
    → (validate_backend_url backend ≡ accepted)
      ↔ ((scheme : List ℕ) × (rest : List ℕ) × CheckedAddress (trim backend) scheme rest)
unfolding validate_backend_url split_once
validate_backend_url-checked backend = empty_or (bytes_eq (trim backend) []) refl
  where
    empty_or :
        (none_left : Bool)
        → bytes_eq (trim backend) [] ≡ none_left
        → ((if none_left
              then rejected empty
              else check_scheme
                  (trim backend)
                  (split_once scheme_end (to_ascii_lowercase (trim backend))))
            ≡ accepted)
          ↔ ((scheme : List ℕ) × (rest : List ℕ) × CheckedAddress (trim backend) scheme rest)
    empty_or true e = (
      (λ h. cc),
      (λ (s, r, safe). absurd (
          none≢some (
            sym (ap (λ t. split_once scheme_end (to_ascii_lowercase t)) ((bytes_eq_iff _ _).0 e))
            ∙ safe.parted))),
    )
    empty_or false e = checked_iff (trim backend) _ refl

pub first_piece-onto_first :
    (c : ℕ) (pieces : List (List ℕ)) → first_piece (onto_first c pieces) ≡ c ∷ first_piece pieces
unfolding first_piece onto_first
first_piece-onto_first c [] = refl
first_piece-onto_first c (p ∷ pieces) = refl

-- A host in brackets keeps its bracket.
host_of-bracket :
    (text : List ℕ) → host_of (authority_of (b'[' ∷ text)) ≡ b'[' ∷ host_of (authority_of text)
unfolding host_of authority_of split
host_of-bracket text =
    ap (λ a. first_piece (split b':' a)) (first_piece-onto_first b'[' (split b'/' text))
    ∙ first_piece-onto_first b'[' (split b':' (first_piece (split b'/' text)))

-- An address whose host is in brackets, as an address of IPv6 is, is accepted only with an
-- encrypted scheme: the names "::1" and "[::1]" in the list of loopback hosts match no address.
pub bracketed-rejected :
    (b scheme text : List ℕ)
    → check_scheme b (some (scheme, b'[' ∷ text)) ≡ accepted
    → is_one_of scheme ("https" ∷ "wss" ∷ []) ≡ true
unfolding is_one_of bytes_eq
bracketed-rejected b scheme text e =
    let parts = (accepts b scheme (b'[' ∷ text)).0 e in
    elim parts.0 [
      | inl encrypted ↦ encrypted
      | inr (plain, here) ↦ absurd (
          ground (
            arith,
            here,
            host_of-bracket text,
            ap (λ h. is_one_of h ("localhost" ∷ "127.0.0.1" ∷ [])) (host_of-bracket text),
          ))
    ]
