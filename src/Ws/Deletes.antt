-- ===== src/Ws/Deletes.antt =====
-- A deletion that needs its owner's consent is answered before the owner is: ws_client.rs.
use Prim.Native.String.{◌++◌ as ◌+++◌}
use synth_hires_bridge.Prelude.{
  String, Bool, true, false, Option, none, some, List, ℕ, ◌⊎◌, inl, inr, ◌≡◌, ◌≢◌, refl, sym, ap,
  subst, ◌∙◌, if◌then◌else◌,
}
use synth_hires_bridge.Capability.Paths.{FilePath, Platform}
use synth_hires_bridge.Capability.Resolve.{Canonicalize}
use synth_hires_bridge.Capability.{CapabilityGate}
use synth_hires_bridge.Consent.{ConsentAnswer}
use synth_hires_bridge.Protocol.{Json, BridgeFrame, ActionRequestFrame}
use synth_hires_bridge.Errors.{
  DaemonError, capability_denied, path_denied, io, json, keyring, ws, protocol, user_denied,
  cancelled, awaiting_consent, timeout, eval_failed, Result, Done, ok, err, to_string,
}
use synth_hires_bridge.Ws.Base.{Client, send, send_action_result, send_error}
use synth_hires_bridge.Ws.Action.{park}
use synth_hires_bridge.Ws.PathGate.{path_gate}
use synth_hires_bridge.Ws.Refusals.{OnlyAnswered, refusal_frame, send_error-answered}
use synth_hires_bridge.Ws.Mutations.{
  World, Moment, Engine, refuse, reply, mutate, delete_gated, delete_parsed, delete_arm,
}

-- Not the mark with which an action is parked.
abbrev pub Answered : Done → Type 0
Answered d = d ≢ err awaiting_consent

ok-Answered : Answered (ok tt)
ok-Answered e = cc

ws-Answered : Answered (err (ws "send"))
ws-Answered e = cc

either-Answered :
    (up : Bool) (x y : Done × Client)
    → Answered x.0
    → Answered y.0
    → Answered (if up then x else y).0
either-Answered true x y h k = h
either-Answered false x y h k = k

send-Answered : (c : Client) (frame : BridgeFrame) → Answered (send c frame).0
unfolding send
send-Answered c frame = either-Answered c.open_socket _ _ ok-Answered ws-Answered

-- An action whose arm did not give the mark is not parked.
park-Answered :
    (now : ℕ) (request : ActionRequestFrame) (d : Done) (c : Client)
    → Answered d
    → (park now request (d, c)).1.parked ≡ c.parked
unfolding park
park-Answered now request (ok _) c h = refl
park-Answered now request (err awaiting_consent) c h = absurd (h refl)
park-Answered now request (err (capability_denied s)) c h = refl
park-Answered now request (err (path_denied s)) c h = refl
park-Answered now request (err (io s)) c h = refl
park-Answered now request (err (json s)) c h = refl
park-Answered now request (err (keyring s)) c h = refl
park-Answered now request (err (ws s)) c h = refl
park-Answered now request (err (protocol s)) c h = refl
park-Answered now request (err (timeout s)) c h = refl
park-Answered now request (err (eval_failed s)) c h = refl
park-Answered now request (err user_denied) c h = refl
park-Answered now request (err cancelled) c h = refl

module _ (parse_uuid : String → Option ℕ) (m : Moment) (request : ActionRequestFrame) where
  refuse-Answered :
      (w : World) (message : String) → Answered (refuse parse_uuid w m request message).0
  unfolding refuse send_error send_action_result
  refuse-Answered w message = send-Answered _ _

  reply-Answered :
      (w : World) (text : String) (r : Result (Bool × Json))
      → Answered (reply parse_uuid w m request text r).0
  unfolding reply send_action_result
  reply-Answered w text (err e) = refuse-Answered w (to_string e)
  reply-Answered w text (ok (verified, output)) = send-Answered _ _

  mutate-Answered :
      {V : Type 0} (engine : Engine V) (text : String) (g : CapabilityGate) (v : V)
      (taken : Option String × World)
      → Answered (mutate parse_uuid engine m request text g v taken).0
  unfolding mutate
  mutate-Answered engine text g v (some e, w) = refuse-Answered w e
  mutate-Answered engine text g v (none, w) = reply-Answered _ text (engine g v w.store.files).0

  module _ (platform : Platform) (canonicalize : Canonicalize) (display : FilePath → String)
      (sha256 : List ℕ → String) {V : Type 0} (parse : Json → String ⊎ V) (path_of : V → FilePath)
      (engine : Engine V) (w : World) (decision : Option ConsentAnswer) where
    delete_gated-Answered :
        (v : V) (passed : Result CapabilityGate × Client)
        → Answered
            (delete_gated platform canonicalize display sha256 parse_uuid parse path_of engine w m
              request v passed).0
    unfolding delete_gated
    delete_gated-Answered v (ok g, c) = mutate-Answered engine "" g v _
    delete_gated-Answered v (err e, c) = refuse-Answered (record w { client = c }) (to_string e)

    delete_parsed-Answered :
        (parsed : String ⊎ V)
        → Answered
            (delete_parsed platform canonicalize display sha256 parse_uuid parse path_of engine w m
              request decision parsed).0
    unfolding delete_parsed
    delete_parsed-Answered (inl e) = refuse-Answered w ("bad params: " +++ e)
    delete_parsed-Answered (inr v) = delete_gated-Answered v _

    abbrev Told : DaemonError → Client → Done × World → Type 0
    Told e c done =
        OnlyAnswered parse_uuid c done.1.client (refusal_frame parse_uuid request (to_string e))
        × (done.1.store ≡ w.store)

    gate_error-answered :
        (v : V) (e : DaemonError) (c : Client)
        → c.open_socket ≡ true
        → let done =
            delete_gated platform canonicalize display sha256 parse_uuid parse path_of engine w m
              request v
              (err e, c) in
          OnlyAnswered parse_uuid c done.1.client (refusal_frame parse_uuid request (to_string e))
          × (done.1.store ≡ w.store)
    unfolding delete_gated refuse
    gate_error-answered v e c up =
        (send_error-answered parse_uuid c m.now request (to_string e) up, refl)

    -- A deletion is never parked, not even where the owner was asked for it: an error of the gate, the
    -- mark of a pending consent like any other, is sent as the one result of the request over an open
    -- socket, with nothing parked and no file changed, so that no later answer can resume it.
    pub delete_arm-not_parked :
        let done =
          delete_arm platform canonicalize display sha256 parse_uuid parse path_of engine w m
            request decision in
        ((park m.now request (done.0, done.1.client)).1.parked ≡ done.1.client.parked)
        × ((v : V) (e : DaemonError) (c : Client)
            → parse request.params ≡ inr v
            → path_gate platform canonicalize display w.client request "desktop.fs.delete"
                (path_of v)
                decision
              ≡ (err e, c)
            → c.open_socket ≡ true
            → OnlyAnswered parse_uuid c done.1.client
                (refusal_frame parse_uuid request (to_string e))
              × (done.1.store ≡ w.store))
    unfolding delete_arm delete_parsed
    delete_arm-not_parked = (
      park-Answered m.now request _ _ (delete_parsed-Answered (parse request.params)),
      λ v e c read failed up.
          subst (Told e c)
            (sym (
              ap
                (λ o.
                  delete_parsed platform canonicalize display sha256 parse_uuid parse path_of engine
                    w m request decision o)
                read
              ∙ ap
                  (λ g.
                    delete_gated platform canonicalize display sha256 parse_uuid parse path_of
                      engine w m request v g)
                  failed))
            (gate_error-answered v e c up),
    )
