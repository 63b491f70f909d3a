-- ===== src/Ws/Reconnect.antt =====
-- The outer loop of ws_client.rs, `run`: what follows each connection that ends, and the backoff.
--
-- The backoff is in seconds. The random part of the pause, under one second more, is left out.
use synth_hires_bridge.Prelude.{
  ℕ, zero, suc, ◌*◌, ◌≤◌, min, String, ◌||◌, ◌≡◌, refl, Option, none, some, List, [], ◌∷◌, arith,
  if◌then◌else◌, All, length, ◌≢◌, ◌∙◌, ap,
}
use synth_hires_bridge.Prelude.Text.{codes, contains}
use synth_hires_bridge.Errors.{DaemonError, protocol, Done, ok, err, to_string}
use synth_hires_bridge.Ws.Health.{WsHealth, set_error, mark_disconnected}

pub record Retry : Type 0 where
  pub health : WsHealth
  pub backoff : ℕ

-- The message of an error after which the daemon does not reconnect.
unfoldable pub fatal : DaemonError → Option String
fatal (protocol message) =
    if contains (codes "auth_failed") (codes message) || contains (codes "revoked") (codes message)
    then some message
    else none
fatal _ = none

-- The `match` on what `connect_once` returned.
unfoldable pub lost : Retry → ℕ → DaemonError → Option String → Option DaemonError × Retry
lost r now e (some message) = (
  some (protocol message),
  record r { health = mark_disconnected (set_error r.health message) now },
)
lost r now e none =
    (none, record r { health = mark_disconnected (set_error r.health (to_string e)) now })

unfoldable pub settle : Retry → ℕ → Done → Option DaemonError × Retry
unfolding lost
settle r now (ok _) = (none, record r { health = mark_disconnected r.health now; backoff = 1 })
settle r now (err e) = lost r now e (fatal e)

unfoldable pub double : ℕ → ℕ
double backoff = min (backoff * 2) 30

abbrev slept :
    Option DaemonError × Retry → (Retry → List ℕ × Option DaemonError) → List ℕ × Option DaemonError
slept (some e, r) rest = ([], some e)
slept (none, r) rest =
    let tail = rest (record r { backoff = double r.backoff }) in (r.backoff ∷ tail.0, tail.1)

-- `run` over the connections' results, each with the time at which it came: the pauses, in seconds,
-- and the error that `run` returns, if one of the results is fatal.
unfoldable pub run : Retry → List (ℕ × Done) → List ℕ × Option DaemonError
unfolding double
run r [] = ([], none)
run r ((now, result) ∷ results) = slept (settle r now result) (λ next. run next results)

abbrev pub Within : ℕ → Type 0
Within pause = (1 ≤ pause) × (pause ≤ 30)

double-Within : (b : ℕ) → Within b → Within (double b)
unfolding double
double-Within b h = (omega arith, omega arith)

some-none {ℓ} : {A : Type ℓ} {a : A} → some a ≢ none
some-none h = cc

lost-Within :
    (r : Retry) (now : ℕ) (e : DaemonError) (o : Option String)
    → Within r.backoff
    → Within (lost r now e o).1.backoff
unfolding lost
lost-Within r now e none h = h
lost-Within r now e (some message) h = h

settle-Within :
    (r : Retry) (now : ℕ) (result : Done)
    → Within r.backoff
    → Within (settle r now result).1.backoff
unfolding settle
settle-Within r now (ok _) h = (omega arith, omega arith)
settle-Within r now (err e) h = lost-Within r now e (fatal e) h

slept-Within :
    (s : Option DaemonError × Retry) (rest : Retry → List ℕ × Option DaemonError)
    → Within s.1.backoff
    → ((r : Retry) → Within r.backoff → All Within (rest r).0)
    → All Within (slept s rest).0
slept-Within (some e, r) rest h k = tt
slept-Within (none, r) rest h k =
    (h, k (record r { backoff = double r.backoff }) (double-Within r.backoff h))

-- If the first pause is of 1 to 30 seconds, so is every pause between two attempts, whatever the
-- connections come to.
pub run-Within :
    (r : Retry) (results : List (ℕ × Done)) → Within r.backoff → All Within (run r results).0
unfolding run
run-Within r [] h = tt
run-Within r ((now, result) ∷ results) h =
    slept-Within (settle r now result) (λ next. run next results) (settle-Within r now result h)
      (λ next k. run-Within next results k)

-- The connection was lost by an error that is worth another attempt.
abbrev pub Lost : ℕ × Done → Type 0
Lost (now, ok _) = ⊥
Lost (now, err e) = fatal e ≡ none

-- The pauses of `n` lost connections in a row.
abbrev pub escalation : ℕ → ℕ → List ℕ
escalation backoff zero = []
escalation backoff (suc n) = backoff ∷ escalation (double backoff) n

settle-Lost :
    (r : Retry) (now : ℕ) (result : Done)
    → Lost (now, result)
    → ((settle r now result).0 ≡ none) × ((settle r now result).1.backoff ≡ r.backoff)
unfolding settle lost
settle-Lost r now (ok _) h = absurd h
settle-Lost r now (err e) h = rw h (refl, refl)

slept-next :
    (s : Option DaemonError × Retry) (rest : Retry → List ℕ × Option DaemonError) (b : ℕ)
    (pauses : List ℕ)
    → s.0 ≡ none
    → s.1.backoff ≡ b
    → (rest (record s.1 { backoff = double s.1.backoff })).0 ≡ pauses
    → (slept s rest).0 ≡ b ∷ pauses
slept-next (some e, r) rest b pauses h k l = absurd (some-none h)
slept-next (none, r) rest b pauses h k l = rw l (rw k refl)

-- While every connection is lost by an error that is not fatal, the pauses double from the first one,
-- up to 30 seconds.
pub run-escalation :
    (r : Retry) (results : List (ℕ × Done))
    → All Lost results
    → (run r results).0 ≡ escalation r.backoff (length results)
unfolding run
run-escalation r [] h = refl
run-escalation r ((now, result) ∷ results) h =
    let (goes, same) = settle-Lost r now result h.0 in
    let next = record (settle r now result).1 {
      backoff = double (settle r now result).1.backoff;
    } in
    slept-next (settle r now result) (λ n. run n results) r.backoff
      (escalation (double r.backoff) (length results)) goes same
      (run-escalation next results h.1 ∙ ap (λ b. escalation (double b) (length results)) same)
