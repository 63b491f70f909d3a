-- ===== src/Server/Nonce.antt =====
-- What the handlers of server.rs leave of the nonce.
use synth_hires_bridge.Prelude.{
  ℕ, String, Bool, true, false, not, Option, none, some, List, ◌≡◌, refl, sym, subst, ◌⊎◌, inl, inr,
  arith, str_eq, Bool-cases, true≢false, if◌then◌else◌,
}
use synth_hires_bridge.Pairing.{UrlCheck, accepted, rejected, validate_backend_url}
use synth_hires_bridge.Server.{
  HeaderMap, ServerState, Machine, Reply, success, failure, forbidden, PairRequest, is_live,
  take_nonce, current_nonce, keep_or_set, mint_nonce, check_local, is_some, save, valid_id,
  bind_device, pair_id, pair_backend, unbind_device, handle_status, handle_shutdown, handle_pair,
  handle_unpair, passing, passing_on, Request, status, pair, unpair, shutdown, is_success, serve,
}

-- The nonce is not the one that is stored.
abbrev pub Spent : String → Option (String × ℕ) → Type 0
Spent n none = Unit
Spent n (some (v, at)) = str_eq v n ≡ false

pub Spent-not-live :
    (n : String) (o : Option (String × ℕ)) (now : ℕ) → Spent n o → is_live o now n ≡ false
unfolding is_live
Spent-not-live n none now h = refl
Spent-not-live n (some (v, at)) now h = ground arith

-- No nonce, or the fresh one.
abbrev pub Renewed : String → Option (String × ℕ) → Type 0
Renewed fresh o = (o ≡ none) ⊎ ((at : ℕ) × (o ≡ some (fresh, at)))

pub Renewed-Spent :
    (n fresh : String) (o : Option (String × ℕ))
    → str_eq fresh n ≡ false
    → Renewed fresh o
    → Spent n o
Renewed-Spent n fresh o h (inl e) = subst (Spent n) (sym e) tt
Renewed-Spent n fresh o h (inr (at, e)) = subst (Spent n) (sym e) h

-- What a handler leaves of the nonce.
abbrev pub Spends : {A : Type 0} → ServerState → String → Reply A × ServerState → Type 0
Spends s fresh (success a, after) = Renewed fresh after.pairing_nonce
Spends s fresh (failure code message, after) =
    (after.pairing_nonce ≡ s.pairing_nonce) ⊎ Renewed fresh after.pairing_nonce

module _ {A : Type 0} (s : ServerState) (fresh : String) where
  passing-Spends :
      (guard : Reply (Unit {0})) (next : Reply A × ServerState)
      → Spends s fresh next
      → Spends s fresh (passing guard s next)
  passing-Spends (failure code message) next h = inl refl
  passing-Spends (success _) next h = h

  unless-Spends :
      (c : Bool) (e : Reply A) (next : Reply A × ServerState)
      → is_success e ≡ false
      → Spends s fresh next
      → Spends s fresh (if c then (e, s) else next)
  unless-Spends true (success a) next h k = absurd (true≢false h)
  unless-Spends true (failure code message) next h k = inl refl
  unless-Spends false e next h k = k

  Renewed-Spends : (r : Reply A × ServerState) → Renewed fresh r.1.pairing_nonce → Spends s fresh r
  Renewed-Spends (success a, after) h = h
  Renewed-Spends (failure code message, after) h = inr h

  taken-Spends :
      (now : ℕ) (nonce : String) (next : ServerState → Reply A × ServerState)
      → Renewed fresh (next (record s { pairing_nonce = none })).1.pairing_nonce
      → Spends s fresh (passing_on (take_nonce s now nonce) next)
  unfolding take_nonce
  taken-Spends now nonce next h = taken (is_live s.pairing_nonce now nonce)
    where
      taken :
          (live : Bool)
          → Spends s fresh (
              passing_on
                (if not live
                  then (failure forbidden "Invalid nonce", s)
                  else (success tt, record s { pairing_nonce = none }))
                next)
      taken false = inl refl
      taken true = Renewed-Spends (next (record s { pairing_nonce = none })) h

save-nonce : (m : Machine) (s : ServerState) → (save m s).pairing_nonce ≡ s.pairing_nonce
unfolding save
save-nonce m s = elim (Bool-cases m.save_fails) [
  | inl fails ↦ rw fails refl
  | inr saves ↦ rw saves refl
]

pair_id-nonce :
    (s : ServerState) (m : Machine) (payload : PairRequest) (id : Option String)
    → (pair_id s m payload id).1.pairing_nonce ≡ s.pairing_nonce
unfolding pair_id bind_device
pair_id-nonce s m payload none = refl
pair_id-nonce s m payload (some id) = elim (Bool-cases m.keyring_fails) [
  | inl fails ↦ rw fails refl
  | inr works ↦ rw works (save-nonce m _)
]

pair_backend-nonce :
    (s : ServerState) (m : Machine) (payload : PairRequest) (c : UrlCheck)
    → (pair_backend s m payload c).1.pairing_nonce ≡ s.pairing_nonce
unfolding pair_backend
pair_backend-nonce s m payload (rejected e) = refl
pair_backend-nonce s m payload accepted = pair_id-nonce s m payload (valid_id payload.device_id)

module _ (decimal : ℕ → List ℕ) (s : ServerState) (m : Machine) (headers : HeaderMap) where
  pub handle_shutdown-Spends :
      (n : String) → Spends s m.fresh (handle_shutdown decimal s m headers n)
  unfolding handle_shutdown
  handle_shutdown-Spends n =
      passing-Spends s m.fresh (check_local decimal headers s.local_port) _
        (taken-Spends s m.fresh m.now n _ (inl refl))

  pub handle_unpair-Spends : (n : String) → Spends s m.fresh (handle_unpair decimal s m headers n)
  unfolding handle_unpair unbind_device
  handle_unpair-Spends n =
      passing-Spends s m.fresh (check_local decimal headers s.local_port) _
        (taken-Spends s m.fresh m.now n _ (inr (m.now, refl)))

  pub handle_pair-Spends : (p : PairRequest) → Spends s m.fresh (handle_pair decimal s m headers p)
  unfolding handle_pair
  handle_pair-Spends p = passing-Spends s m.fresh (check_local decimal headers s.local_port) _ (
      unless-Spends s m.fresh (is_some s.daemon_state.device_id) _ _ refl (
        taken-Spends s m.fresh m.now p.nonce _
          (inl (pair_backend-nonce _ m p (validate_backend_url p.backend_url)))))

keep_or_set-nonce :
    (s : ServerState) (m : Machine) (o : Option String)
    → ((keep_or_set s m o).1.pairing_nonce ≡ s.pairing_nonce)
      ⊎ Renewed m.fresh (keep_or_set s m o).1.pairing_nonce
unfolding keep_or_set
keep_or_set-nonce s m none = inr (inr (m.now, refl))
keep_or_set-nonce s m (some v) = inl refl

-- What is left of the nonce, by any reply.
abbrev pub Keeps : {A : Type 0} → ServerState → String → Reply A × ServerState → Type 0
Keeps s fresh r = (r.1.pairing_nonce ≡ s.pairing_nonce) ⊎ Renewed fresh r.1.pairing_nonce

Spends-Keeps :
    {A : Type 0} (s : ServerState) (fresh : String) (r : Reply A × ServerState)
    → Spends s fresh r
    → Keeps s fresh r
Spends-Keeps s fresh (success a, after) h = inr h
Spends-Keeps s fresh (failure code message, after) h = h

pub Spends-Renewed :
    {A : Type 0} (s : ServerState) (fresh : String) (r : Reply A × ServerState)
    → Spends s fresh r
    → is_success r.0 ≡ true
    → Renewed fresh r.1.pairing_nonce
Spends-Renewed s fresh (success a, after) h e = h
Spends-Renewed s fresh (failure code message, after) h e = absurd (true≢false (sym e))

passing-Keeps :
    {A : Type 0} (s : ServerState) (fresh : String) (guard : Reply (Unit {0}))
    (next : Reply A × ServerState)
    → Keeps s fresh next
    → Keeps s fresh (passing guard s next)
passing-Keeps s fresh (failure code message) next h = inl refl
passing-Keeps s fresh (success _) next h = h

module _ (decimal : ℕ → List ℕ) (s : ServerState) (m : Machine) (headers : HeaderMap) where
  pub serve-nonce :
      (r : Request)
      → ((serve decimal s m headers r).1.pairing_nonce ≡ s.pairing_nonce)
        ⊎ Renewed m.fresh (serve decimal s m headers r).1.pairing_nonce
  unfolding serve handle_status mint_nonce
  serve-nonce status =
      passing-Keeps s m.fresh (check_local decimal headers s.local_port) _
        (keep_or_set-nonce _ m (current_nonce s.pairing_nonce m.now))
  serve-nonce (pair p) = Spends-Keeps s m.fresh _ (handle_pair-Spends decimal s m headers p)
  serve-nonce (unpair n) = Spends-Keeps s m.fresh _ (handle_unpair-Spends decimal s m headers n)
  serve-nonce (shutdown n) = Spends-Keeps s m.fresh _ (handle_shutdown-Spends decimal s m headers n)
