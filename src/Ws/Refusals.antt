-- ===== src/Ws/Refusals.antt =====
-- What `handle_action` of ws_client.rs refuses before anything runs, and what it lets through.
use synth_hires_bridge.Prelude.{
  ℕ, String, true, false, not, ◌&&◌, ◌≡◌, refl, ◌≢◌, ◌⊎◌, inl, inr, Option, none, some, [], ◌∷◌,
  ◌++◌, arith, subst, sym, str_eq, eq_iff, if◌then◌else◌,
}
use Prim.Native.String.{◌++◌ as ◌+++◌}
use synth_hires_bridge.Prelude.Text.{codes}
use synth_hires_bridge.Capability.{allows}
use synth_hires_bridge.Capability.Laws.{Granted, allows_iff}
use synth_hires_bridge.Consent.{ConsentAnswer}
use synth_hires_bridge.Protocol.{ActionRequestFrame, BridgeFrame, action_result, protocol_version}
use synth_hires_bridge.Ws.Base.{
  Client, send, send_error, result_status, send_action_result, finish_task, action_error,
}
use synth_hires_bridge.Ws.Scope.{one_of, required_scope, contains_dangerous_shell}
use synth_hires_bridge.Ws.Action.{
  Dispatch, command_of, audit, register_task, register_id, park, check_and_dispatch, handle_action,
}

-- The capability's scope is not granted, or the command is on the backstop list.
abbrev pub Refused : Client → ActionRequestFrame → Type 0
Refused c request =
    ((required_scope request ≢ "self") × (¬ Granted c.gate (required_scope request)))
    ⊎ ((request.capability ≡ "desktop.shell.execute")
        × (contains_dangerous_shell (codes (command_of request)) ≡ true))

module _ (parse_uuid : String → Option ℕ) where
  gate-registered :
      (c : Client) (now : ℕ) (request : ActionRequestFrame) (o : Option ℕ)
      → (audit (register_id c now request o) request).gate ≡ c.gate
  unfolding audit register_id
  gate-registered c now request none = refl
  gate-registered c now request (some id) = refl

  sent-registered :
      (c : Client) (now : ℕ) (request : ActionRequestFrame) (o : Option ℕ)
      → (audit (register_id c now request o) request).sent ≡ c.sent
  unfolding audit register_id
  sent-registered c now request none = refl
  sent-registered c now request (some id) = refl

  kill_scope :
      (request : ActionRequestFrame)
      → request.capability ≡ "desktop.process.kill"
      → required_scope request ≡ "desktop.process.kill"
  unfolding required_scope one_of
  kill_scope request e = rw e

  kill-Granted :
      (c : Client) (request : ActionRequestFrame)
      → request.capability ≡ "desktop.process.kill"
      → (required_scope request ≡ "self") ⊎ Granted c.gate (required_scope request)
      → Granted c.gate "desktop.process.kill"
  kill-Granted c request e (inl self) =
      let scope = kill_scope request e in ground (arith, eq_iff "desktop.process.kill" "self")
  kill-Granted c request e (inr granted) =
      subst (λ s. Granted c.gate s) (kill_scope request e) granted

  -- The client as the checks of an action find it: registered and audited.
  abbrev pub admitted : Client → ℕ → ActionRequestFrame → Client
  admitted c now request = audit (register_task parse_uuid c now request) request

  -- The answer to an action that is refused before anything runs.
  abbrev pub refusal : Client → ActionRequestFrame → String
  refusal c request =
      if not (str_eq (required_scope request) "self")
        && not (allows c.gate (required_scope request))
      then "capability not granted: " +++ request.capability
      else "hard_stop_blocked: dangerous command pattern"

  check-Refused :
      (dispatch : Dispatch) (c : Client) (now : ℕ) (request : ActionRequestFrame)
      (decision : Option ConsentAnswer)
      → Refused c request
      → check_and_dispatch parse_uuid dispatch c now request decision
        ≡ send_error parse_uuid c now request.id (refusal c request)
  unfolding check_and_dispatch
  check-Refused dispatch c now request decision h =
      let granted = allows_iff c.gate (required_scope request) in
      ground (
        arith,
        eq_iff (required_scope request) "self",
        eq_iff request.capability "desktop.shell.execute",
      )

  check-passed :
      (dispatch : Dispatch) (c : Client) (now : ℕ) (request : ActionRequestFrame)
      (decision : Option ConsentAnswer)
      → (required_scope request ≡ "self") ⊎ Granted c.gate (required_scope request)
      → (request.capability ≢ "desktop.shell.execute")
        ⊎ (contains_dangerous_shell (codes (command_of request)) ≡ false)
      → check_and_dispatch parse_uuid dispatch c now request decision
        ≡ park now request (dispatch c now request decision)
  unfolding check_and_dispatch
  check-passed dispatch c now request decision scope safe =
      let granted = allows_iff c.gate (required_scope request) in
      let kill = allows_iff c.gate "desktop.process.kill" in
      ground (
        arith,
        eq_iff (required_scope request) "self",
        eq_iff request.capability "desktop.shell.execute",
        eq_iff request.capability "desktop.process.kill",
        λ (e : request.capability ≡ "desktop.process.kill"). kill-Granted c request e scope,
      )

  -- The error frame that answers a refused action.
  abbrev pub refusal_frame : ActionRequestFrame → String → BridgeFrame
  refusal_frame request message = action_result (record {
    v = protocol_version;
    id = request.id;
    ok = false;
    output = none;
    error = action_error (some message);
    duration_ms = 0;
  })

  -- What a refusal leaves of the client: one error result sent, and nothing else that a later
  -- action could see.
  abbrev pub OnlyAnswered : Client → Client → BridgeFrame → Type 0
  OnlyAnswered before after frame =
      (after.sent ≡ before.sent ++ frame ∷ [])
      × (after.gate ≡ before.gate)
      × (after.consent ≡ before.consent)
      × (after.parked ≡ before.parked)

  send_error-refused :
      (c : Client) (now : ℕ) (request : ActionRequestFrame) (message : String) (o : Option ℕ)
      → c.open_socket ≡ true
      → OnlyAnswered c
          (send
            (finish_task
              (audit (register_id c now request o) request)
              now
              o
              (result_status false (some message)))
            (refusal_frame request message)).1
          (refusal_frame request message)
  unfolding send finish_task audit register_id
  send_error-refused c now request message none up = ground arith
  send_error-refused c now request message (some id) up = ground arith

  finished-answered :
      (c : Client) (now : ℕ) (request : ActionRequestFrame) (message : String) (o : Option ℕ)
      → c.open_socket ≡ true
      → OnlyAnswered c
          (send
            (finish_task c now o (result_status false (some message)))
            (refusal_frame request message)).1
          (refusal_frame request message)
  unfolding send finish_task
  finished-answered c now request message none up = ground arith
  finished-answered c now request message (some id) up = ground arith

  -- An error is sent as the one result, and changes nothing that a later action could see.
  pub send_error-answered :
      (c : Client) (now : ℕ) (request : ActionRequestFrame) (message : String)
      → c.open_socket ≡ true
      → OnlyAnswered c
          (send_error parse_uuid c now request.id message).1
          (refusal_frame request message)
  unfolding send_error send_action_result
  send_error-answered c now request message up =
      finished-answered c now request message (parse_uuid request.id) up

  Refused-registered :
      (c : Client) (now : ℕ) (request : ActionRequestFrame)
      → Refused c request
      → Refused (admitted c now request) request
  unfolding register_task
  Refused-registered c now request h = rw (gate-registered c now request (parse_uuid request.id)) h

  -- An action whose scope is not granted, or that is a shell command on the backstop list, never
  -- reaches the dispatch: whatever the engines are and whatever the owner decided, over an open
  -- socket `handle_action` sends one error result for it, and leaves the gate, the prompts and the
  -- parked actions as they were.
  pub handle_action-Refused :
      (dispatch : Dispatch) (c : Client) (now : ℕ) (request : ActionRequestFrame)
      (decision : Option ConsentAnswer)
      → c.open_socket ≡ true
      → Refused c request
      → OnlyAnswered c
          (handle_action parse_uuid dispatch c now request decision).1
          (refusal_frame request (refusal (admitted c now request) request))
  unfolding handle_action register_task send_error send_action_result
  handle_action-Refused dispatch c now request decision up h =
      let refused = Refused-registered c now request h in
      subst
        (λ r. OnlyAnswered c r.1 (refusal_frame request (refusal (admitted c now request) request)))
        (sym (check-Refused dispatch (admitted c now request) now request decision refused))
        (send_error-refused c now request (refusal (admitted c now request) request)
          (parse_uuid request.id) up)

  -- An action whose scope is granted and that is no shell command on the backstop list is dispatched
  -- once, after it has been registered and audited, and parked if and only if an arm asks for it.
  handle_action-admitted :
      (dispatch : Dispatch) (c : Client) (now : ℕ) (request : ActionRequestFrame)
      (decision : Option ConsentAnswer)
      → (required_scope request ≡ "self") ⊎ Granted c.gate (required_scope request)
      → (request.capability ≢ "desktop.shell.execute")
        ⊎ (contains_dangerous_shell (codes (command_of request)) ≡ false)
      → handle_action parse_uuid dispatch c now request decision
        ≡ park now request (dispatch (admitted c now request) now request decision)
  unfolding handle_action register_task
  handle_action-admitted dispatch c now request decision scope safe =
      check-passed dispatch (admitted c now request) now request decision
        (subst (λ g. (required_scope request ≡ "self") ⊎ Granted g (required_scope request))
          (sym (gate-registered c now request (parse_uuid request.id))) scope)
        safe
