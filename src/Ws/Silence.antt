-- ===== src/Ws/Silence.antt =====
-- The zombie watchdog of ws_client.rs on a silent server: how soon it gives the connection up.
use synth_hires_bridge.Prelude.{
  ℕ, ◌+◌, ◌-◌, ◌≤◌, false, ◌≡◌, refl, ◌⊎◌, inl, inr, Option, none, some, arith, Bool-cases, ltb,
  leb, List, [], ◌∷◌, Option-cases, min, ◌≢◌, sym,
}
use synth_hires_bridge.Protocol.{heartbeat}
use synth_hires_bridge.Errors.{ws, Done, ok, err}
use synth_hires_bridge.Ws.Base.{Client, send}
use synth_hires_bridge.Ws.Action.{sweep_expired_parked}
use synth_hires_bridge.Ws.Connection.{
  Connection, is_burst, one_more, missed, judge, send_heartbeat, after_beat, zombie_decision,
  on_tick, watchdog,
}

-- Ticks in turn, up to the one that ends the loop.
abbrev then_ticks :
    (Connection → Option Done × Connection) → Option Done × Connection → Option Done × Connection
then_ticks rest (none, s) = rest s
then_ticks rest (some done, s) = (some done, s)

none-some {ℓ} : {A : Type ℓ} {a : A} → none ≢ some a
none-some h = cc

module _ (interval : ℕ) where
  abbrev pub ticks : List ℕ → Connection → Option Done × Connection
  ticks [] s = (none, s)
  ticks (now ∷ times) s = then_ticks (ticks times) (on_tick interval s now)

  -- The beat that a tick leaves pending is as old as the tick or older, and is counted or new.
  abbrev Waiting : ℕ → ℕ → Connection → Type 0
  Waiting now misses s =
      (t : ℕ) × (s.expected_heartbeat ≡ some t) × (t ≤ now) × (misses ≤ s.consecutive_misses)

  abbrev pub Stops : Option Done × Connection → Type 0
  Stops r = (r.0 ≡ some (err watchdog)) ⊎ (r.0 ≡ some (err (ws "send heartbeat")))

  abbrev Goes : (Connection → Type 0) → Option Done × Connection → Type 0
  Goes P r = Stops r ⊎ ((r.0 ≡ none) × P r.1)

  beat-Goes :
      (s : Connection) (now misses : ℕ) (r : Done × Client)
      → misses ≤ s.consecutive_misses
      → Goes (Waiting now misses) (after_beat s now r)
  unfolding after_beat
  beat-Goes s now misses (ok _, client) h = inr (refl, (now, refl, omega arith, h))
  beat-Goes s now misses (err _, client) h = inl (inr refl)

  send-Goes :
      (s : Connection) (now misses : ℕ)
      → misses ≤ s.consecutive_misses
      → Goes (Waiting now misses) (send_heartbeat s now)
  unfolding send_heartbeat
  send-Goes s now misses h = beat-Goes s now misses (send s.client (heartbeat now)) h

  judge-Goes :
      (s : Connection) (t now misses : ℕ)
      → misses ≤ s.consecutive_misses
      → Goes (Waiting now (min 2 (misses + 1))) (judge s now (some t))
  unfolding judge zombie_decision missed one_more
  judge-Goes s t now misses h = elim (Bool-cases (leb 2 (one_more s.consecutive_misses))) [
    | inl kill ↦ inl (inl (ground arith))
    | inr live ↦ rw live (send-Goes (missed s) now (min 2 (misses + 1)) (ground arith))
  ]

  judge-Stops :
      (s : Connection) (t now : ℕ) → 1 ≤ s.consecutive_misses → Stops (judge s now (some t))
  unfolding judge zombie_decision missed one_more
  judge-Stops s t now h = inl (ground arith)

  tick-first :
      (s : Connection) (now : ℕ)
      → ((t : ℕ) → s.expected_heartbeat ≡ some t → t ≤ now)
      → Goes (Waiting now 0) (on_tick interval s now)
  unfolding on_tick judge is_burst
  tick-first s now h =
      let swept = record s { client = sweep_expired_parked s.client now } in
      elim (Option-cases s.expected_heartbeat) [
        | inl e ↦ rw e (send-Goes swept now 0 (omega arith))
        | inr (t, e) ↦ elim (Bool-cases (ltb (now - t) interval)) [
          | inl burst ↦ rw e (rw burst (inr (refl, (t, refl, h t e, omega arith))))
          | inr aged ↦ elim (judge-Goes swept t now 0 (omega arith)) [
            | inl stops ↦ rw e (rw aged (inl stops))
            | inr (goes, (u, x, y, z)) ↦ rw e (rw aged (inr (goes, (u, x, y, omega arith))))
          ]
        ]
      ]

  aged : (past now t : ℕ) → t ≤ past → (past + interval) ≤ now → ltb (now - t) interval ≡ false
  aged past now t h k = ground arith

  tick-second :
      (s : Connection) (past now : ℕ)
      → Waiting past 0 s
      → (past + interval) ≤ now
      → Goes (Waiting now 1) (on_tick interval s now)
  unfolding on_tick is_burst
  tick-second s past now (t, e, h, m) k = rw e (
      rw (aged past now t h k)
        (judge-Goes (record s { client = sweep_expired_parked s.client now }) t now 0 m))

  tick-third :
      (s : Connection) (past now : ℕ)
      → Waiting past 1 s
      → (past + interval) ≤ now
      → Stops (on_tick interval s now)
  unfolding on_tick is_burst
  tick-third s past now (t, e, h, m) k = rw e (
      rw (aged past now t h k)
        (judge-Stops (record s { client = sweep_expired_parked s.client now }) t now m))

  then_ticks-Stops :
      (rest : Connection → Option Done × Connection) (r : Option Done × Connection)
      → Stops r
      → Stops (then_ticks rest r)
  then_ticks-Stops rest (some done, s) h = h
  then_ticks-Stops rest (none, s) (inl h) = absurd (none-some h)
  then_ticks-Stops rest (none, s) (inr h) = absurd (none-some h)

  then_ticks-Goes :
      (P : Connection → Type 0) (rest : Connection → Option Done × Connection)
      (r : Option Done × Connection)
      → Goes P r
      → ((s : Connection) → P s → Stops (rest s))
      → Stops (then_ticks rest r)
  then_ticks-Goes P rest r (inl stops) next = then_ticks-Stops rest r stops
  then_ticks-Goes P rest (none, s) (inr (e, p)) next = next s p
  then_ticks-Goes P rest (some done, s) (inr (e, p)) next = absurd (none-some (sym e))

  -- A server that has gone silent is noticed: from any state whose pending beat was not sent in the
  -- future, the third of three ticks that are a heartbeat interval apart at least ends the
  -- connection, if not an earlier one, by the watchdog or by a beat that could not be sent.
  pub silence-is-noticed :
      (s : Connection) (t₁ t₂ t₃ : ℕ)
      → ((t : ℕ) → s.expected_heartbeat ≡ some t → t ≤ t₁)
      → (t₁ + interval) ≤ t₂
      → (t₂ + interval) ≤ t₃
      → Stops (ticks (t₁ ∷ t₂ ∷ t₃ ∷ []) s)
  silence-is-noticed s t₁ t₂ t₃ past h k =
      then_ticks-Goes (Waiting t₁ 0) (ticks (t₂ ∷ t₃ ∷ [])) (on_tick interval s t₁)
        (tick-first s t₁ past)
        (λ s₂ w₂.
          then_ticks-Goes (Waiting t₂ 1) (ticks (t₃ ∷ [])) (on_tick interval s₂ t₂)
            (tick-second s₂ t₁ t₂ w₂ h)
            (λ s₃ w₃.
              then_ticks-Stops (ticks []) (on_tick interval s₃ t₃) (tick-third s₃ t₂ t₃ w₃ k)))
