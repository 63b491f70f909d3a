-- ===== src/Ws/Action.antt =====
-- `handle_action` of ws_client.rs around its dispatch, the parked actions, and `handle_frame`.
--
-- `dispatch` is the `match` on the capability with the engines behind it, and `chat_push` is
-- `handle_chat_push`; both are arguments. Each takes the request's decision as the source does, and
-- gives the value of its arm. `now` is what the step reads from the clock.
use synth_hires_bridge.Prelude.{
  ℕ, ◌-◌, String, Bool, false, not, ◌&&◌, Option, none, some, List, [], ◌∷◌, ◌++◌, ltb, str_eq,
  if◌then◌else◌, unwrap_or,
}
use Prim.Native.String.{◌++◌ as ◌+++◌}
use synth_hires_bridge.Prelude.Map.{Map, lookup, insert, without}
use synth_hires_bridge.Prelude.Text.{codes}
use synth_hires_bridge.Capability.{allows, from_scopes}
use synth_hires_bridge.Capability
use synth_hires_bridge.Consent.{ConsentAnswer, answer, consent_timeout_ms}
use synth_hires_bridge.Tasks.{
  TaskKind, shell_exec, file_read, file_write, db_proxy, other, running, record_global_task,
}
use synth_hires_bridge.Protocol.{
  ActionRequestFrame, BridgeFrame, action_request, consent_response, scope_update, revoke, get,
  as_str,
}
use synth_hires_bridge.Errors.{protocol, awaiting_consent, Done, ok, err}
use synth_hires_bridge.Ws.Base.{Client, send_error}
use synth_hires_bridge.Ws.Scope.{one_of, required_scope, contains_dangerous_shell}
use synth_hires_bridge.Ws.Redact.{redact}

unfoldable pub task_kind : String → TaskKind
task_kind c =
    if one_of c ("desktop.shell.execute" ∷ [])
    then shell_exec
    else if one_of c ("desktop.fs.read" ∷ [])
    then file_read
    else if one_of c (
        "desktop.fs.write" ∷ "desktop.fs.delete" ∷ "desktop.fs.patch" ∷ "desktop.code.ast_edit"
        ∷ "desktop.fs.restore" ∷ [])
    then file_write
    else if one_of c ("desktop.code.ast_grep" ∷ [])
    then file_read
    else if one_of c ("desktop.code.eval" ∷ "desktop.lsp.rename" ∷ [])
    then shell_exec
    else if one_of c
        ("desktop.lsp.diagnostics" ∷ "desktop.lsp.hover" ∷ "desktop.lsp.definition" ∷ [])
    then file_read
    else if one_of c (
        "desktop.memory.remember" ∷ "desktop.memory.recall" ∷ "desktop.memory.forget"
        ∷ "desktop.memory.reflect" ∷ "desktop.memory.stats" ∷ [])
    then db_proxy
    else if one_of c ("desktop.git.overview" ∷ "desktop.git.diff" ∷ [])
    then file_read
    else if one_of c ("sync.chat.push" ∷ [])
    then db_proxy
    else other c

unfoldable pub register_id : Client → ℕ → ActionRequestFrame → Option ℕ → Client
register_id c now request none = c
register_id c now request (some id) = record c {
  shared = record_global_task c.shared (record {
    id = id;
    kind = task_kind request.capability;
    description = request.capability +++ (" · " +++ request.id);
    status = running;
    started_at = now;
    finished_at = none;
  });
}

-- One line of the audit log.
unfoldable pub audit : Client → ActionRequestFrame → Client
audit c request = record c {
  audit_log = c.audit_log ++ (request.capability, redact request.params) ∷ [];
}

-- `request.params.get("command").and_then(|v| v.as_str()).unwrap_or("")`
abbrev pub command_of : ActionRequestFrame → String
command_of request = unwrap_or (as_str (get request.params "command")) ""

-- What an arm's value leaves to do: only the park marker is not an answer already sent.
unfoldable pub park : ℕ → ActionRequestFrame → Done × Client → Done × Client
park now request (err awaiting_consent, c) =
    (ok tt, record c { parked = insert request.id (request, now) c.parked })
park now request (outcome, c) = (ok tt, c)

abbrev pub Dispatch : Type 0
Dispatch = Client → ℕ → ActionRequestFrame → Option ConsentAnswer → Done × Client

-- A parked action whose owner has not answered within the consent timeout.
unfoldable pub is_expired : ℕ → ℕ → Bool
is_expired now at = ltb consent_timeout_ms (now - at)

unfoldable pub expired_ids : ℕ → Map (ActionRequestFrame × ℕ) → List String
expired_ids now [] = []
expired_ids now ((id, (request, at)) ∷ m) =
    let rest = expired_ids now m in if is_expired now at then id ∷ rest else rest

abbrev pub denial : ConsentAnswer
denial = record { approved = false; remember = false }

unfoldable pub drop_parked : Client → String → Client
drop_parked c id = record c {
  parked = without id c.parked;
  consent = (answer c.consent id denial).1;
}

unfoldable pub drop_all : Client → List String → Client
drop_all c [] = c
drop_all c (id ∷ ids) = drop_all (drop_parked c id) ids

unfoldable pub sweep_expired_parked : Client → ℕ → Client
sweep_expired_parked c now = drop_all c (expired_ids now c.parked)

module _ (parse_uuid : String → Option ℕ) where
  unfoldable pub register_task : Client → ℕ → ActionRequestFrame → Client
  unfolding register_id
  register_task c now request = register_id c now request (parse_uuid request.id)

  module _ (dispatch : Dispatch) where
    -- From the scope check on.
    unfoldable pub check_and_dispatch :
        Client → ℕ → ActionRequestFrame → Option ConsentAnswer → Done × Client
    check_and_dispatch c now request decision =
        let scope = required_scope request in
        if not (str_eq scope "self") && not (allows c.gate scope)
        then send_error parse_uuid c now request.id
            ("capability not granted: " +++ request.capability)
        else if str_eq request.capability "desktop.shell.execute"
            && contains_dangerous_shell (codes (command_of request))
        then send_error parse_uuid c now request.id "hard_stop_blocked: dangerous command pattern"
        else if str_eq request.capability "desktop.process.kill"
            && not (allows c.gate "desktop.process.kill")
        then send_error parse_uuid c now request.id "capability_denied: desktop.process.kill"
        else park now request (dispatch c now request decision)

    unfoldable pub handle_action :
        Client → ℕ → ActionRequestFrame → Option ConsentAnswer → Done × Client
    handle_action c now request decision =
        check_and_dispatch (audit (register_task c now request) request) now request decision

    -- The loop's arm for an owner's decision; an error of the resumed action is only logged.
    unfoldable pub resume : Client → ℕ → String × ConsentAnswer → Client
    resume c now (action_id, given) = elim (lookup action_id c.parked) [
      | none ↦ c
      | some (request, at) ↦
          (handle_action (record c { parked = without action_id c.parked }) now request
            (some given)).1
    ]

    module _ (chat_push : Client → ℕ → ActionRequestFrame → Done × Client) where
      unfoldable pub handle_frame : Client → ℕ → BridgeFrame → Done × Client
      handle_frame c now (action_request request) =
          if str_eq request.capability "sync.chat.push"
          then chat_push c now request
          else handle_action c now request none
      handle_frame c now (scope_update scopes) =
          (ok tt, record c { gate = Capability.new (from_scopes scopes) })
      handle_frame c now (consent_response response) = (
        ok tt,
        record c {
          consent =
              (answer c.consent response.id
                (record { approved = response.approved; remember = response.remember })).1;
        },
      )
      handle_frame c now (revoke reason) = (err (protocol "revoked"), c)
      handle_frame c now frame = (ok tt, c)
