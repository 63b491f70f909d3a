-- ===== src/Pairing/Safe.antt =====
-- The addresses that `validate_backend_url` of pairing.rs accepts, described without its helpers.
use synth_hires_bridge.Prelude.{
  ℕ, String, true, false, Option, none, some, List, [], ◌∷◌, ◌++◌, ◌≡◌, ◌≢◌, refl, sym, ap, ◌∙◌,
  ◌⊎◌, inl, inr, ◌↔◌, ◌≤◌, ◌<◌, arith, any, All, Bool-cases, ◌==◌, ==_iff, subst, none≢some,
}
use mathlib.Core.Option.{some-injective}
use synth_hires_bridge.Prelude.Text.{
  codes, bytes_eq, bytes_eq_iff, has_prefix, split, trim, to_ascii_lowercase, between,
}
use synth_hires_bridge.Server.Access.{has_prefix-drop}
use synth_hires_bridge.Pairing.{
  accepted, split_once, before_all, authority_of, host_of, is_one_of, first_piece, bad_character,
  is_control, scheme_end, validate_backend_url,
}
use synth_hires_bridge.Pairing.Address.{
  CheckedAddress, validate_backend_url-checked, first_piece-onto_first, any-first_piece-split,
}

-- Nothing, or the mark and more.
abbrev pub Behind : ℕ → List ℕ → Type 0
Behind mark text = (text ≡ []) ⊎ ((more : List ℕ) × (text ≡ mark ∷ more))

-- The authority names this machine, with a port or without.
abbrev pub Local : List ℕ → Type 0
Local authority =
    (host : List ℕ) × (port : List ℕ) × (authority ≡ host ++ port)
    × Behind b':' port
    × ((host ≡ codes "localhost") ⊎ (host ≡ codes "127.0.0.1"))

-- Neither a space nor a control character.
abbrev pub Printable : ℕ → Type 0
Printable c = (32 < c) × ((c < 127) ⊎ (160 ≤ c))

-- An address that is safe to pair with: a scheme with encryption, or one without for this machine only,
-- an authority that is there, ends at the first slash and has nothing of a user, and no space or
-- control character.
pub record SafeAddress (b scheme authority : List ℕ) : Type 0 where
  pub path : List ℕ
  pub parted : to_ascii_lowercase b ≡ scheme ++ (codes "://" ++ (authority ++ path))
  pub ends : Behind b'/' path
  pub no_slash : All (λ c. c ≢ b'/') authority
  pub encrypted_or_local :
      ((scheme ≡ codes "https") ⊎ (scheme ≡ codes "wss"))
      ⊎ (((scheme ≡ codes "http") ⊎ (scheme ≡ codes "ws")) × Local authority)
  pub hosted : authority ≢ []
  pub no_user : All (λ c. c ≢ b'@') authority
  pub printable : All Printable b

any-All-ne : (mark : ℕ) (s : List ℕ) → (any (λ c. c == mark) s ≡ false) ↔ All (λ c. c ≢ mark) s
any-All-ne mark [] = ((λ h. tt), (λ h. refl))
any-All-ne mark (c ∷ s) =
    ((λ h. ground (arith, any-All-ne mark s)), (λ h. ground (arith, any-All-ne mark s)))

any-Printable : (s : List ℕ) → (any bad_character s ≡ false) ↔ All Printable s
unfolding bad_character is_control between
any-Printable [] = ((λ h. tt), (λ h. refl))
any-Printable (c ∷ s) =
    ((λ h. ground (arith, any-Printable s)), (λ h. ground (arith, any-Printable s)))

-- The first piece is what stands before the mark.
first_piece-parts :
    (mark : ℕ) (text : List ℕ)
    → (tail : List ℕ) × (text ≡ first_piece (split mark text) ++ tail) × Behind mark tail
unfolding first_piece split
first_piece-parts mark [] = ([], refl, inl refl)
first_piece-parts mark (c ∷ text) = elim (Bool-cases (c == mark)) [
  | inl here ↦ rw here (c ∷ text, refl, inr (text, ap (λ x. x ∷ text) ((==_iff c mark).0 here)))
  | inr other ↦
      let (tail, e, behind) = first_piece-parts mark text in
      rw (other, first_piece-onto_first c (split mark text)) (tail, ap (λ t. c ∷ t) e, behind)
]

first_piece-found :
    (mark : ℕ) (piece tail : List ℕ)
    → All (λ c. c ≢ mark) piece
    → Behind mark tail
    → first_piece (split mark (piece ++ tail)) ≡ piece
unfolding first_piece split
first_piece-found mark [] tail h (inl e) = ap (λ t. first_piece (split mark t)) e
first_piece-found mark [] tail h (inr (more, e)) =
    ap (λ t. first_piece (split mark t)) e ∙ ground arith
first_piece-found mark (c ∷ piece) tail h k =
    rw (other, first_piece-onto_first c (split mark (piece ++ tail)))
      (ap (λ t. c ∷ t) (first_piece-found mark piece tail h.1 k))
  where
    other : (c == mark) ≡ false
    other = ground (arith, h.0)

before_all-some :
    (c : ℕ) (o : Option (List ℕ × List ℕ)) (head tail : List ℕ)
    → before_all c o ≡ some (head, tail)
    → (first : List ℕ) × (o ≡ some (first, tail)) × (head ≡ c ∷ first)
unfolding before_all
before_all-some c none head tail e = absurd (none≢some e)
before_all-some c (some (first, rest)) head tail e = (first, cc, cc)

split_once-parts :
    (separator text head tail : List ℕ)
    → split_once separator text ≡ some (head, tail)
    → text ≡ head ++ (separator ++ tail)
unfolding split_once
split_once-parts separator [] head tail e = absurd (none≢some e)
split_once-parts separator (c ∷ text) head tail e =
    elim (Bool-cases (has_prefix separator (c ∷ text))) [
      | inl here ↦
          let same = some-injective _ _ (rw here at e) in
          has_prefix-drop separator (c ∷ text) here
          ∙ ap (λ (p : List ℕ × List ℕ). p.0 ++ (separator ++ p.1)) same
      | inr later ↦
          let (first, found, same) =
            before_all-some c (split_once separator text) head tail (rw later at e) in
          ap (λ t. c ∷ t) (split_once-parts separator text first tail found)
          ∙ ap (λ h. h ++ (separator ++ tail)) (sym same)
    ]

one_of_two :
    (text : List ℕ) (a c : String)
    → (is_one_of text (a ∷ c ∷ []) ≡ true) ↔ ((text ≡ codes a) ⊎ (text ≡ codes c))
unfolding is_one_of
one_of_two text a c = (
  λ h. elim (Bool-cases (bytes_eq (codes a) text)) [
    | inl same ↦ inl (sym ((bytes_eq_iff (codes a) text).0 same))
    | inr other ↦ inr (sym ((bytes_eq_iff (codes c) text).0 (ground arith)))
  ],
  λ h. elim h [
    | inl e ↦ let same = (bytes_eq_iff (codes a) text).1 (sym e) in ground arith
    | inr e ↦ let same = (bytes_eq_iff (codes c) text).1 (sym e) in ground arith
  ],
)

host_iff :
    (authority : List ℕ)
    → (is_one_of (host_of authority) ("localhost" ∷ "127.0.0.1" ∷ []) ≡ true) ↔ Local authority
unfolding host_of
host_iff authority = (
  λ h.
      (let (port, e, behind) = first_piece-parts b':' authority in
        (
          host_of authority,
          port,
          e,
          behind,
          (one_of_two (host_of authority) "localhost" "127.0.0.1").0 h,
        )),
  λ (host, port, e, behind, name).
      (let found : host_of authority ≡ host =
          ap host_of e ∙ first_piece-found b':' host port (plain host name) behind in
        ap (λ h. is_one_of h ("localhost" ∷ "127.0.0.1" ∷ [])) found
        ∙ (one_of_two host "localhost" "127.0.0.1").1 name),
)
  where
    plain :
        (host : List ℕ)
        → (host ≡ codes "localhost") ⊎ (host ≡ codes "127.0.0.1")
        → All (λ c. c ≢ b':') host
    plain host (inl e) = subst (All (λ c. c ≢ b':')) (sym e) (omega arith)
    plain host (inr e) = subst (All (λ c. c ≢ b':')) (sym e) (omega arith)

authority_of-found :
    (authority path : List ℕ)
    → All (λ c. c ≢ b'/') authority
    → Behind b'/' path
    → authority_of (authority ++ path) ≡ authority
unfolding authority_of
authority_of-found authority path h behind = first_piece-found b'/' authority path h behind

authority_of-parts :
    (rest : List ℕ)
    → (path : List ℕ) × (rest ≡ authority_of rest ++ path)
      × Behind b'/' path
      × All (λ c. c ≢ b'/') (authority_of rest)
unfolding authority_of
authority_of-parts rest =
    let (path, e, behind) = first_piece-parts b'/' rest in
    (path, e, behind, (any-All-ne b'/' _).0 (any-first_piece-split b'/' rest))

-- The four schemes have no colon, so the first separator is the one behind them.
split_once-scheme :
    (scheme rest : List ℕ)
    → ((scheme ≡ codes "https") ⊎ (scheme ≡ codes "wss"))
      ⊎ ((scheme ≡ codes "http") ⊎ (scheme ≡ codes "ws"))
    → split_once scheme_end (scheme ++ (codes "://" ++ rest)) ≡ some (scheme, rest)
unfolding split_once before_all has_prefix
split_once-scheme scheme rest (inl (inl e)) =
    subst (λ s. split_once scheme_end (s ++ (codes "://" ++ rest)) ≡ some (s, rest)) (sym e) refl
split_once-scheme scheme rest (inl (inr e)) =
    subst (λ s. split_once scheme_end (s ++ (codes "://" ++ rest)) ≡ some (s, rest)) (sym e) refl
split_once-scheme scheme rest (inr (inl e)) =
    subst (λ s. split_once scheme_end (s ++ (codes "://" ++ rest)) ≡ some (s, rest)) (sym e) refl
split_once-scheme scheme rest (inr (inr e)) =
    subst (λ s. split_once scheme_end (s ++ (codes "://" ++ rest)) ≡ some (s, rest)) (sym e) refl

checked-Safe :
    (b scheme rest : List ℕ)
    → CheckedAddress b scheme rest
    → SafeAddress b scheme (authority_of rest)
checked-Safe b scheme rest h =
    let (path, e, behind, clean) = authority_of-parts rest in
    record {
      path = path;
      parted =
          split_once-parts scheme_end (to_ascii_lowercase b) scheme rest h.parted
          ∙ ap (λ r. scheme ++ (codes "://" ++ r)) e;
      ends = behind;
      no_slash = clean;
      encrypted_or_local = elim h.encrypted_or_local [
        | inl encrypted ↦ inl ((one_of_two scheme "https" "wss").0 encrypted)
        | inr (plain, here) ↦
            inr ((one_of_two scheme "http" "ws").0 plain, (host_iff (authority_of rest)).0 here)
      ];
      hosted = h.hosted;
      no_user = (any-All-ne b'@' (authority_of rest)).0 h.no_user;
      printable = (any-Printable b).0 h.printable;
    }

safe-Checked :
    (b scheme authority : List ℕ)
    → (h : SafeAddress b scheme authority) → CheckedAddress b scheme (authority ++ h.path)
safe-Checked b scheme authority h =
    let found = authority_of-found authority h.path h.no_slash h.ends in
    record {
      parted =
          ap (split_once scheme_end) h.parted
          ∙ split_once-scheme scheme (authority ++ h.path) (elim h.encrypted_or_local [
            | inl encrypted ↦ inl encrypted
            | inr (plain, here) ↦ inr plain
          ]);
      encrypted_or_local = elim h.encrypted_or_local [
        | inl encrypted ↦ inl ((one_of_two scheme "https" "wss").1 encrypted)
        | inr (plain, here) ↦ inr (
          (one_of_two scheme "http" "ws").1 plain,
          ap (λ a. is_one_of (host_of a) ("localhost" ∷ "127.0.0.1" ∷ [])) found
              ∙ (host_iff authority).1 here,
        )
      ];
      hosted = λ e. h.hosted (sym found ∙ e);
      no_user = ap (any (λ c. c == b'@')) found ∙ (any-All-ne b'@' authority).1 h.no_user;
      printable = (any-Printable b).1 h.printable;
    }

-- An address is accepted exactly where, without the white space around it, it is safe: its scheme, read
-- without regard to case, is "https" or "wss", or it is "http" or "ws" and the authority names this
-- machine; the authority is not empty, ends at the first slash and has no at sign; and no character of
-- the address is a space or a control character.
pub validate_backend_url_iff :
    (backend : List ℕ)
    → (validate_backend_url backend ≡ accepted)
      ↔ ((scheme : List ℕ) × (authority : List ℕ) × SafeAddress (trim backend) scheme authority)
validate_backend_url_iff backend = (
  λ e.
      (let (scheme, rest, h) = (validate_backend_url-checked backend).0 e in
        (scheme, authority_of rest, checked-Safe (trim backend) scheme rest h)),
  λ (scheme, authority, h).
      (validate_backend_url-checked backend).1
        (scheme, authority ++ h.path, safe-Checked (trim backend) scheme authority h),
)
