-- ===== src/Server/Handlers.antt =====
-- What the handlers of server.rs do, and to whom.
use mathlib.Core.Option.{some-injective}
use synth_hires_bridge.Prelude.{
  ℕ, String, Bool, true, false, not, Option, none, some, List, ◌≡◌, refl, sym, ◌⊎◌, inl, inr, subst,
  none≢some, true≢false, if◌then◌else◌, ◌+◌, ◌*◌, ◌≤◌, ◌++◌, [], ap, map, arith, unwrap_or, eq_iff,
  Bool-cases,
}
use synth_hires_bridge.Prelude.Text.{codes, to_lower, bytes_eq, bytes_eq_iff}
use synth_hires_bridge.Pairing.{trim_end_matches}
use synth_hires_bridge.Server.Access.{LocalOrigin, is_allowed_origin_iff, check_local_iff}
use synth_hires_bridge.Server.{
  HeaderMap, ServerState, Machine, forbidden, Reply, success, failure, is_live, take_nonce,
  check_local, is_expected_host, is_some, handle_shutdown, handle_pair, handle_unpair, passing,
  passing_on, Request, status, pair, unpair, shutdown, is_success, serve,
}

-- The secret that a request presents; asking for the status presents none.
abbrev pub presented : Request → Option String
presented status = none
presented (pair payload) = some payload.nonce
presented (unpair nonce) = some nonce
presented (shutdown nonce) = some nonce

module _ (decimal : ℕ → List ℕ) where
  -- The code's own words for it: the guards pass and the nonce is live.
  abbrev pub Passed : ServerState → Machine → HeaderMap → String → Type 0
  Passed s m headers nonce =
      (check_local decimal headers s.local_port ≡ success tt)
      × (is_live s.pairing_nonce m.now nonce ≡ true)

  -- A `Host` that is this machine under the server's port, without regard to case and to final dots.
  abbrev pub LocalHost : List ℕ → ℕ → Type 0
  LocalHost host port =
      (map to_lower (trim_end_matches b'.' host) ≡ codes "127.0.0.1:" ++ decimal port)
      ⊎ (map to_lower (trim_end_matches b'.' host) ≡ codes "localhost:" ++ decimal port)

  -- The caller's origin is the product's site or this machine, its host is this machine, and it
  -- presents the very nonce that was minted, at most 120 seconds ago.
  abbrev pub Authorised : ServerState → Machine → HeaderMap → String → Type 0
  Authorised s m headers nonce =
      ((unwrap_or headers.origin [] ≡ codes "https://synthhires.com")
        ⊎ (LocalOrigin (codes "http://localhost:") (unwrap_or headers.origin [])
            ⊎ LocalOrigin (codes "http://127.0.0.1:") (unwrap_or headers.origin [])))
      × LocalHost (unwrap_or headers.host []) s.local_port
      × ((minted : ℕ) × (s.pairing_nonce ≡ some (nonce, minted)) × (m.now ≤ minted + 120 * 1000))

  is_live-minted :
      (o : Option (String × ℕ)) (now : ℕ) (nonce : String)
      → is_live o now nonce ≡ true
      → (minted : ℕ) × (o ≡ some (nonce, minted)) × (now ≤ minted + 120 * 1000)
  unfolding is_live
  is_live-minted none now nonce h = absurd (true≢false (sym h))
  is_live-minted (some (val, minted)) now nonce h =
      let same : val ≡ nonce = (eq_iff val nonce).0 (ground arith) in
      (minted, ap (λ v. some (v, minted)) same, ground arith)

  expected-LocalHost :
      (port : ℕ) (host : List ℕ) → is_expected_host decimal port host ≡ true → LocalHost host port
  unfolding is_expected_host
  expected-LocalHost port host h =
      let name = map to_lower (trim_end_matches b'.' host) in
      elim (Bool-cases (bytes_eq name (codes "127.0.0.1:" ++ decimal port))) [
        | inl same ↦ inl ((bytes_eq_iff name (codes "127.0.0.1:" ++ decimal port)).0 same)
        | inr other ↦
            inr ((bytes_eq_iff name (codes "localhost:" ++ decimal port)).0 (ground arith))
      ]

  Passed-Authorised :
      (s : ServerState) (m : Machine) (headers : HeaderMap) (nonce : String)
      → Passed s m headers nonce
      → Authorised s m headers nonce
  Passed-Authorised s m headers nonce (local, live) =
      let (origin, host) = (check_local_iff decimal headers s.local_port).0 local in
      (
        (is_allowed_origin_iff (unwrap_or headers.origin [])).0 origin,
        expected-LocalHost s.local_port (unwrap_or headers.host []) host,
        is_live-minted s.pairing_nonce m.now nonce live,
      )

  -- The result of a handler that asks for authority.
  abbrev pub Guarded : {A : Type 0} → ServerState → Type 0 → Reply A × ServerState → Type 0
  Guarded s authority (success a, after) = authority
  Guarded s authority (failure code message, after) = after ≡ s ⊎ authority

  passing-Guarded :
      {A : Type 0} (s : ServerState) (m : Machine) (nonce : String) (guard : Reply (Unit {0}))
      (next : Reply A × ServerState)
      → Guarded s (is_live s.pairing_nonce m.now nonce ≡ true) next
      → Guarded s
          ((guard ≡ success tt) × (is_live s.pairing_nonce m.now nonce ≡ true))
          (passing guard s next)
  passing-Guarded s m nonce (failure code message) next h = inl refl
  passing-Guarded s m nonce (success _) (success a, after) h = (refl, h)
  passing-Guarded s m nonce (success _) (failure code message, after) (inl kept) = inl kept
  passing-Guarded s m nonce (success _) (failure code message, after) (inr live) = inr (refl, live)

  after_live :
      {A : Type 0} (s : ServerState) (now : ℕ) (nonce : String) (r : Reply A × ServerState)
      → is_live s.pairing_nonce now nonce ≡ true
      → Guarded s (is_live s.pairing_nonce now nonce ≡ true) r
  after_live s now nonce (success a, after) live = live
  after_live s now nonce (failure code message, after) live = inr live

  -- Behind the nonce, with what it was taken for.
  taken-Guarded :
      {A : Type 0} (s : ServerState) (now : ℕ) (nonce : String)
      (next : ServerState → Reply A × ServerState)
      → Guarded s
          (is_live s.pairing_nonce now nonce ≡ true)
          (passing_on (take_nonce s now nonce) next)
  unfolding take_nonce
  taken-Guarded s now nonce next = taken (is_live s.pairing_nonce now nonce) refl
    where
      taken :
          (live : Bool)
          → is_live s.pairing_nonce now nonce ≡ live
          → Guarded s (is_live s.pairing_nonce now nonce ≡ true) (
              passing_on
                (if not live
                  then (failure forbidden "Invalid nonce", s)
                  else (success tt, record s { pairing_nonce = none }))
                next)
      taken false e = inl refl
      taken true e = after_live s now nonce (next (record s { pairing_nonce = none })) e

  unless :
      {A : Type 0} (s : ServerState) (m : Machine) (nonce : String) (c : Bool) (e : Reply A)
      (next : Reply A × ServerState)
      → is_success e ≡ false
      → Guarded s (is_live s.pairing_nonce m.now nonce ≡ true) next
      → Guarded s (is_live s.pairing_nonce m.now nonce ≡ true) (if c then (e, s) else next)
  unless s m nonce true (success a) next h k = absurd (true≢false h)
  unless s m nonce true (failure code message) next h k = inl refl
  unless s m nonce false e next h k = k

  seen :
      {A : Type 0} (s : ServerState) (authority : Type 0) (r : Reply A × ServerState)
      → Guarded s authority r
      → (is_success r.0 ≡ true → authority) × (r.1 ≡ s ⊎ authority)
  seen s authority (success a, after) h = ((λ _. h), inr h)
  seen s authority (failure code message, after) h = ((λ e. absurd (true≢false (sym e))), h)

  abbrev Guards : ServerState → Machine → HeaderMap → Request → String → Type 0
  Guards s m headers r nonce =
      ((serve decimal s m headers r).0 ≡ true → Passed s m headers nonce)
      × ((serve decimal s m headers r).1 ≡ s ⊎ Passed s m headers nonce)

  pub serve-Passed :
      (s : ServerState) (m : Machine) (headers : HeaderMap) (r : Request) (nonce : String)
      → presented r ≡ some nonce
      → ((serve decimal s m headers r).0 ≡ true → Passed s m headers nonce)
        × ((serve decimal s m headers r).1 ≡ s ⊎ Passed s m headers nonce)
  unfolding serve handle_pair handle_unpair handle_shutdown
  serve-Passed s m headers status nonce e = absurd (none≢some e)
  serve-Passed s m headers (pair payload) nonce e =
      subst (λ n. Guards s m headers (pair payload) n) (some-injective _ _ e)
        (seen s _ _ (
          passing-Guarded s m payload.nonce (check_local decimal headers s.local_port) _ (
            unless s m payload.nonce (is_some s.daemon_state.device_id) _ _ refl
              (taken-Guarded s m.now payload.nonce _))))
  serve-Passed s m headers (unpair n) nonce e =
      subst (λ k. Guards s m headers (unpair n) k) (some-injective _ _ e)
        (seen s _ _ (
          passing-Guarded s m n (check_local decimal headers s.local_port) _
            (taken-Guarded s m.now n _)))
  serve-Passed s m headers (shutdown n) nonce e =
      subst (λ k. Guards s m headers (shutdown n) k) (some-injective _ _ e)
        (seen s _ _ (
          passing-Guarded s m n (check_local decimal headers s.local_port) _
            (taken-Guarded s m.now n _)))

  -- A request that presents a nonce, to pair, to unpair or to shut down, succeeds only for a caller
  -- whose origin is the product's site or this machine, whose host is this machine under the server's
  -- port, and that presents the very nonce that was minted at most 120 seconds ago; for any other
  -- caller it leaves the state as it is.
  pub serve-Authorised :
      (s : ServerState) (m : Machine) (headers : HeaderMap) (r : Request) (nonce : String)
      → presented r ≡ some nonce
      → ((serve decimal s m headers r).0 ≡ true → Authorised s m headers nonce)
        × ((serve decimal s m headers r).1 ≡ s ⊎ Authorised s m headers nonce)
  serve-Authorised s m headers r nonce e =
      let guards = serve-Passed s m headers r nonce e in
      (
        (λ done. Passed-Authorised s m headers nonce (guards.0 done)),
        elim guards.1 [
          | inl kept ↦ inl kept
          | inr passed ↦ inr (Passed-Authorised s m headers nonce passed)
        ],
      )
