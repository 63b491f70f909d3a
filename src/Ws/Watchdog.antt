-- ===== src/Ws/Watchdog.antt =====
-- The zombie watchdog of ws_client.rs: when it gives a connection up, and when it must not.
use synth_hires_bridge.Prelude.{
  ℕ, ◌+◌, ◌≤◌, String, false, ◌≡◌, refl, ◌≢◌, ◌⊎◌, inl, inr, Option, none, some, arith, Bool-cases,
  subst, sym, ap, eq_iff,
}
use synth_hires_bridge.Protocol.{ActionRequestFrame, BridgeFrame, heartbeat, heartbeat_ack}
use synth_hires_bridge.Errors.{ws, Done, ok, err}
use synth_hires_bridge.Ws.Base.{Client, send}
use synth_hires_bridge.Ws.Action.{Dispatch, sweep_expired_parked}
use synth_hires_bridge.Ws.Connection.{
  Connection, Input, text, other_message, decision, tick, is_burst, one_more, missed, judge,
  send_heartbeat, after_beat, zombie_decision, note_ack, after_frame, on_tick, watchdog, step,
}

module _ (interval : ℕ) where
  -- What the watchdog remembers of a connection whose last ack came at `last`: with no miss a beat
  -- sent since that ack, with one a beat that is a full interval younger than the ack.
  abbrev pub Pending : Option ℕ → ℕ → ℕ → ℕ → Type 0
  Pending none misses last clock = misses ≡ 0
  Pending (some t) misses last clock =
      (t ≤ clock) × (((misses ≡ 0) × (last ≤ t)) ⊎ ((misses ≡ 1) × ((last + interval) ≤ t)))

  -- What a tick may make of it.
  abbrev Judged : ℕ → ℕ → Option Done × Connection → Type 0
  Judged last now r =
      (r.0 ≡ none → Pending r.1.expected_heartbeat r.1.consecutive_misses last now)
      × (r.0 ≡ some (err watchdog) → (last + (interval + interval)) ≤ now)

  abbrev beat_lost : Option Done
  beat_lost = some (err (ws "send heartbeat"))

  none_differs {ℓ} : {A : Type ℓ} {a : A} → none ≢ some a
  none_differs h = cc

  beat_differs : beat_lost ≢ some (err watchdog)
  beat_differs h =
      let e = eq_iff "send heartbeat" "heartbeat watchdog: no ack from server" in ground arith

  Pending-later :
      (e : Option ℕ) (m last clock now : ℕ)
      → clock ≤ now
      → Pending e m last clock
      → Pending e m last now
  Pending-later none m last clock now h p = p
  Pending-later (some t) m last clock now h p = (omega arith, p.1)

  Judged-send :
      (s : Connection) (last now : ℕ) (r : Done × Client)
      → Pending (some now) s.consecutive_misses last now
      → Judged last now (after_beat s now r)
  unfolding after_beat
  Judged-send s last now (ok _, client) h = ((λ e. h), (λ e. absurd (none_differs e)))
  Judged-send s last now (err _, client) h =
      ((λ e. absurd (none_differs (sym e))), (λ e. absurd (beat_differs e)))

  judge-first :
      (s : Connection) (t now : ℕ)
      → s.consecutive_misses ≡ 0
      → judge s now (some t) ≡ after_beat (missed s) now (send s.client (heartbeat now))
  unfolding judge send_heartbeat missed zombie_decision one_more
  judge-first s t now h = ground arith

  judge-second :
      (s : Connection) (t now : ℕ)
      → s.consecutive_misses ≡ 1
      → judge s now (some t) ≡ (some (err watchdog), missed s)
  unfolding judge send_heartbeat missed zombie_decision one_more
  judge-second s t now h = ground arith

  Judged-judge :
      (s : Connection) (e : Option ℕ) (last clock now : ℕ)
      → last ≤ clock
      → clock ≤ now
      → is_burst interval now e ≡ false
      → Pending e s.consecutive_misses last clock
      → Judged last now (judge s now e)
  unfolding judge send_heartbeat is_burst missed zombie_decision one_more
  Judged-judge s none last clock now h k b p =
      Judged-send s last now (send s.client (heartbeat now))
        (subst (λ m. Pending (some now) m last now) (sym p) (omega arith, inl (refl, omega arith)))
  Judged-judge s (some t) last clock now h k b p = elim p.1 [
    | inl (fresh, late) ↦
        subst (λ r. Judged last now r) (sym (judge-first s t now fresh))
          (Judged-send (missed s) last now (send s.client (heartbeat now))
            (omega arith, inr (ground arith, ground arith)))
    | inr (second, late) ↦
        subst (λ r. Judged last now r) (sym (judge-second s t now second))
          ((λ e. absurd (none_differs (sym e))), (λ e. ground arith))
  ]

  Judged-on_tick :
      (s : Connection) (last clock now : ℕ)
      → last ≤ clock
      → clock ≤ now
      → Pending s.expected_heartbeat s.consecutive_misses last clock
      → Judged last now (on_tick interval s now)
  unfolding on_tick
  Judged-on_tick s last clock now h k p =
      let swept = record s { client = sweep_expired_parked s.client now } in
      elim (Bool-cases (is_burst interval now s.expected_heartbeat)) [
        | inl burst ↦ rw burst (
          (λ e. Pending-later s.expected_heartbeat s.consecutive_misses last clock now k p),
          (λ e. absurd (none_differs e)),
        )
        | inr aged ↦ rw aged (Judged-judge swept s.expected_heartbeat last clock now h k aged p)
      ]

  module _ (parse_uuid : String → Option ℕ) (dispatch : Dispatch)
      (chat_push : Client → ℕ → ActionRequestFrame → Done × Client) where
    -- When the last ack came, after an input at `now`.
    abbrev pub last_ack : ℕ → ℕ → Input → ℕ
    last_ack last now (text (heartbeat_ack t)) = now
    last_ack last now _ = last

    -- The connections that the loop reaches from one whose hello has just ended, by inputs at times
    -- that never decrease, with the time of the last ack and that of the last input.
    pub data Reached : Connection → ℕ → ℕ → Type 0 where
      start :
          {s : Connection} {now : ℕ}
          → s.expected_heartbeat ≡ none
          → s.consecutive_misses ≡ 0
          → Reached s now now
      go :
          {s s' : Connection} {last clock : ℕ} (now : ℕ) (input : Input)
          → Reached s last clock
          → clock ≤ now
          → step parse_uuid dispatch chat_push interval s now input ≡ (none, s')
          → Reached s' (last_ack last now input) now

    Kept : Connection → Connection → Type 0
    Kept s s' =
        (s'.expected_heartbeat ≡ s.expected_heartbeat)
        × (s'.consecutive_misses ≡ s.consecutive_misses)

    after_frame-Kept :
        (s s' : Connection) (r : Done × Client) → after_frame s r ≡ (none, s') → Kept s s'
    unfolding after_frame Kept
    after_frame-Kept s s' (ok _, client) h = (ground arith, ground arith)
    after_frame-Kept s s' (err _, client) h = absurd (none_differs (sym (ap (λ r. r.0) h)))

    Pending-Kept :
        (s s' : Connection) (last clock now : ℕ)
        → clock ≤ now
        → Kept s s'
        → Pending s.expected_heartbeat s.consecutive_misses last clock
        → Pending s'.expected_heartbeat s'.consecutive_misses last now
    unfolding Kept
    Pending-Kept s s' last clock now h kept p =
        rw kept.0
          (rw kept.1 (Pending-later s.expected_heartbeat s.consecutive_misses last clock now h p))

    Pending-text :
        (s s' : Connection) (last clock now : ℕ) (frame : BridgeFrame) (r : Done × Client)
        → clock ≤ now
        → Pending s.expected_heartbeat s.consecutive_misses last clock
        → after_frame (note_ack s now frame) r ≡ (none, s')
        → Pending s'.expected_heartbeat s'.consecutive_misses (last_ack last now (text frame)) now
    unfolding note_ack Kept
    Pending-text s s' last clock now (heartbeat_ack t) r h p e =
        let kept = after_frame-Kept (note_ack s now (heartbeat_ack t)) s' r e in
        rw kept.0 (rw kept.1 refl)
    Pending-text s s' last clock now _ r h p e =
        Pending-Kept s s' last clock now h (after_frame-Kept s s' r e) p

    Pending-step :
        (s s' : Connection) (last clock now : ℕ) (input : Input)
        → last ≤ clock
        → clock ≤ now
        → Pending s.expected_heartbeat s.consecutive_misses last clock
        → step parse_uuid dispatch chat_push interval s now input ≡ (none, s')
        → Pending s'.expected_heartbeat s'.consecutive_misses (last_ack last now input) now
    unfolding step Kept
    Pending-step s s' last clock now (text frame) h k p e =
        Pending-text s s' last clock now frame _ k p e
    Pending-step s s' last clock now tick h k p e =
        subst (λ r. Pending r.1.expected_heartbeat r.1.consecutive_misses last now) e
          ((Judged-on_tick s last clock now h k p).0 (ap (λ r. r.0) e))
    Pending-step s s' last clock now other_message h k p e =
        Pending-Kept s s' last clock now k (ground arith, ground arith) p
    Pending-step s s' last clock now (decision given) h k p e =
        Pending-Kept s s' last clock now k (ground arith, ground arith) p
    Pending-step s s' last clock now _ h k p e = absurd (none_differs (sym (ap (λ r. r.0) e)))

    last_ack-le :
        (last clock now : ℕ) (input : Input)
        → last ≤ clock
        → clock ≤ now
        → last_ack last now input ≤ now
    last_ack-le last clock now (text (heartbeat_ack t)) h k = omega arith
    last_ack-le last clock now _ h k = omega arith

    Pending-Reached :
        (s : Connection) (last clock : ℕ)
        → Reached s last clock
        → (last ≤ clock) × Pending s.expected_heartbeat s.consecutive_misses last clock
    Pending-Reached s last clock (start none_pending no_miss) =
        (omega arith, rw none_pending no_miss)
    Pending-Reached s' _ now (go {s} {last = last} {clock = clock} _ input r later e) =
        let (h, p) = Pending-Reached s last clock r in
        (
          last_ack-le last clock now input h later,
          Pending-step s s' last clock now input h later p e,
        )

    -- On every connection that the loop reaches from the end of its hello, while the clock does
    -- not go back, a tick that gives the connection up comes at least two heartbeat intervals
    -- after the last ack from the server, or after the hello if there was none.
    pub watchdog-patience :
        (s : Connection) (last clock now : ℕ)
        → Reached s last clock
        → clock ≤ now
        → (step parse_uuid dispatch chat_push interval s now tick).0 ≡ some (err watchdog)
        → (last + (interval + interval)) ≤ now
    unfolding step
    watchdog-patience s last clock now r later e =
        let (h, p) = Pending-Reached s last clock r in
        (Judged-on_tick s last clock now h later p).1 e
