-- ===== src/Server/Replay.antt =====
-- A nonce of server.rs opens one request at most, whatever else is asked in between.
use synth_hires_bridge.Prelude.{
  ℕ, suc, ◌≤◌, String, Bool, true, false, ◌&&◌, Option, none, some, List, [], ◌∷◌, ◌≡◌, refl, sym,
  ap, ◌∙◌, subst, inl, inr, arith, str_eq, eq_iff, Bool-cases, true≢false, &&-eq-true,
  if◌then◌else◌, All,
}
use synth_hires_bridge.Server.{
  HeaderMap, ServerState, Machine, Request, status, pair, unpair, shutdown, serve,
}
use synth_hires_bridge.Server.Handlers.{presented, serve-Passed}
use synth_hires_bridge.Server.Nonce.{
  Spent, Spent-not-live, Renewed, Renewed-Spent, handle_shutdown-Spends, handle_unpair-Spends,
  handle_pair-Spends, Spends-Renewed, serve-nonce,
}

-- One request with what the machine answers it.
pub record Call : Type 0 where
  pub machine : Machine
  pub headers : HeaderMap
  pub request : Request

unfoldable pub presents : String → Option String → Bool
presents n none = false
presents n (some v) = str_eq v n

module _ (decimal : ℕ → List ℕ) where
  -- How many of the calls present the nonce and succeed.
  unfoldable pub successes : String → ServerState → List Call → ℕ
  unfolding presents
  successes n s [] = 0
  successes n s (call ∷ calls) =
      let served = serve decimal s call.machine call.headers call.request in
      let rest = successes n served.1 calls in
      if presents n (presented call.request) && served.0 then suc rest else rest

module _ (decimal : ℕ → List ℕ) (s : ServerState) (m : Machine) (headers : HeaderMap) where
  serve-Renewed :
      (r : Request) (n : String)
      → presents n (presented r) ≡ true
      → (serve decimal s m headers r).0 ≡ true
      → Renewed m.fresh (serve decimal s m headers r).1.pairing_nonce
  unfolding serve presents
  serve-Renewed status n h e = absurd (true≢false (sym h))
  serve-Renewed (pair p) n h e =
      Spends-Renewed s m.fresh _ (handle_pair-Spends decimal s m headers p) e
  serve-Renewed (unpair k) n h e =
      Spends-Renewed s m.fresh _ (handle_unpair-Spends decimal s m headers k) e
  serve-Renewed (shutdown k) n h e =
      Spends-Renewed s m.fresh _ (handle_shutdown-Spends decimal s m headers k) e

  serve-Spent :
      (r : Request) (n : String)
      → str_eq m.fresh n ≡ false
      → Spent n s.pairing_nonce
      → Spent n (serve decimal s m headers r).1.pairing_nonce
  serve-Spent r n apart h = elim (serve-nonce decimal s m headers r) [
    | inl same ↦ subst (Spent n) (sym same) h
    | inr renewed ↦ Renewed-Spent n m.fresh _ apart renewed
  ]

  presents-some :
      (r : Request) (n : String) → presents n (presented r) ≡ true → presented r ≡ some n
  unfolding presents
  presents-some status n h = absurd (true≢false (sym h))
  presents-some (pair p) n h = ap some ((eq_iff p.nonce n).0 h)
  presents-some (unpair k) n h = ap some ((eq_iff k n).0 h)
  presents-some (shutdown k) n h = ap some ((eq_iff k n).0 h)

  Spent-refused :
      (r : Request) (n : String)
      → Spent n s.pairing_nonce
      → (presents n (presented r) && (serve decimal s m headers r).0) ≡ false
  Spent-refused r n h = elim (Bool-cases (presents n (presented r))) [
    | inr other ↦ ground arith
    | inl same ↦ elim (Bool-cases (serve decimal s m headers r).0) [
      | inr refused ↦ ground arith
      | inl granted ↦
          let live =
            ((serve-Passed decimal s m headers r n (presents-some r n same)).0 granted).1 in
          absurd (true≢false (sym live ∙ Spent-not-live n s.pairing_nonce m.now h))
    ]
  ]

-- Later calls never draw this identifier.
abbrev pub FreshFrom : String → List Call → Type 0
FreshFrom n = All λ call. str_eq call.machine.fresh n ≡ false

module _ (decimal : ℕ → List ℕ) where
  successes-Spent :
      (n : String) (s : ServerState) (calls : List Call)
      → FreshFrom n calls
      → Spent n s.pairing_nonce
      → successes decimal n s calls ≡ 0
  unfolding successes
  successes-Spent n s [] f h = refl
  successes-Spent n s (call ∷ calls) f h =
      rw (Spent-refused decimal s call.machine call.headers call.request n h) (
        successes-Spent n (serve decimal s call.machine call.headers call.request).1 calls f.1
          (serve-Spent decimal s call.machine call.headers call.request n f.0 h))

  -- Of any sequence of requests, from any state and whatever the machine answers, at most one that
  -- presents the nonce succeeds. The identifiers drawn in the meantime differ from it.
  pub successes-le :
      (n : String) (s : ServerState) (calls : List Call)
      → FreshFrom n calls
      → successes decimal n s calls ≤ 1
  unfolding successes
  successes-le n s [] f = omega arith
  successes-le n s (call ∷ calls) f =
      elim (Bool-cases (
        presents n (presented call.request)
        && (serve decimal s call.machine call.headers call.request).0)) [
          | inr refused ↦
              rw refused (
                successes-le n (serve decimal s call.machine call.headers call.request).1 calls f.1)
          | inl granted ↦
              let parts = &&-eq-true _ _ granted in
              let spent = Renewed-Spent n call.machine.fresh _ f.0 (
                serve-Renewed decimal s call.machine call.headers call.request n parts.0 parts.1) in
              let rest =
                successes-Spent n (serve decimal s call.machine call.headers call.request).1 calls
                  f.1 spent in
              rw (granted, rest) (omega arith)
        ]
