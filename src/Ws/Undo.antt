-- ===== src/Ws/Undo.antt =====
-- What the arms of ws_client.rs that change files do to them: Ws.Mutations.
use synth_hires_bridge.Prelude.{
  ℕ, ◌≤◌, String, true, false, Option, none, some, List, ◌⊎◌, inl, inr, ◌≡◌, ◌≢◌, sym, ap, ◌∙◌,
  subst, All, length, true≢false, if◌then◌else◌,
}
use synth_hires_bridge.Prelude.Map.{Map, lookup}
use synth_hires_bridge.Capability.Paths.{FilePath, Platform}
use synth_hires_bridge.Capability.Resolve.{Canonicalize}
use synth_hires_bridge.Capability.{CapabilityGate}
use synth_hires_bridge.Consent.{ConsentAnswer}
use synth_hires_bridge.Protocol.{Json, ActionRequestFrame}
use synth_hires_bridge.Errors.{DaemonError, Result, ok, err}
use synth_hires_bridge.Checkpoint.{CheckpointEntry, Node, file, capture, restore, max_file_bytes}
use synth_hires_bridge.Checkpoint.Restore.{HasRoom, Writable, restore-capture}
use synth_hires_bridge.Ws.Base.{Client}
use synth_hires_bridge.Ws.PathGate.{path_gate}
use synth_hires_bridge.Ws.Mutations.{
  World, Moment, Engine, mutate, take_checkpoint, checkpoint_before, gated, write_parsed, write_arm,
}
use synth_hires_bridge.Ws.Guards.{Cleared, reply-store}

ok-injective : {A : Type 0} {a b : A} → ok a ≡ ok b → a ≡ b
ok-injective e = cc

err≢ok : {A : Type 0} {why : DaemonError} {a : A} → err why ≢ ok a
err≢ok e = cc

module _ (platform : Platform) (canonicalize : Canonicalize) (display : FilePath → String)
    (sha256 : List ℕ → String) (parse_uuid : String → Option ℕ) {V : Type 0}
    (parse : Json → String ⊎ V) (path_of : V → FilePath) (engine : Engine V) (w : World)
    (m : Moment) (request : ActionRequestFrame) (unverified : String)
    (decision : Option ConsentAnswer) where
  abbrev pub WriteCleared : V → CapabilityGate → Type 0
  WriteCleared =
      Cleared platform canonicalize display sha256 parse_uuid parse path_of engine w m request
        unverified decision "desktop.fs.write"

  gated-ok :
      (v : V) (g : CapabilityGate) (passed : Result CapabilityGate × Client)
      → passed.0 ≡ ok g
      → gated platform canonicalize display sha256 parse_uuid parse path_of engine w m request
          unverified v passed
        ≡ mutate parse_uuid engine m request unverified g v (
            checkpoint_before display sha256 (record w { client = passed.1 }) m request (path_of v))
  unfolding gated
  gated-ok v g (ok gate, c) e =
      ap
        (λ x.
          mutate parse_uuid engine m request unverified x v
            (checkpoint_before display sha256 (record w { client = c }) m request (path_of v)))
        (ok-injective e)
  gated-ok v g (err why, c) e = absurd (err≢ok e)

  checkpointed :
      (world : World) (path : FilePath)
      → world.checkpoints ≡ true
      → (world.checkpoints ≡ false) ⊎ (m.capture_fault ≡ none)
      → checkpoint_before display sha256 world m request path ≡ (
        none,
        record world {
          store = (capture sha256 world.store m.now request.id request.capability (display path)).1;
        },
      )
  unfolding checkpoint_before take_checkpoint
  checkpointed world path on (inl off) = absurd (true≢false (sym on ∙ off))
  checkpointed world path on (inr works) =
      ap
        (λ b.
          if b
          then take_checkpoint display sha256 m.capture_fault world m request path
          else (none, world))
        on
      ∙ ap (λ f. take_checkpoint display sha256 f world m request path) works

  mutate-store :
      (v : V) (g : CapabilityGate) (world : World)
      → (files : Map Node) × ((mutate parse_uuid engine m request unverified g v
            (none, world)).1.store
          ≡ record world.store { files = files })
  unfolding mutate
  mutate-store v g world =
      (_, reply-store parse_uuid _ m request unverified (engine g v world.store.files).0)

  -- After a cleared mutation the store is the one with the checkpoint, and only the files differ.
  store-write_arm :
      (v : V) (g : CapabilityGate)
      → w.checkpoints ≡ true
      → WriteCleared v g
      → (files : Map Node) × ((write_arm platform canonicalize display sha256 parse_uuid parse
            path_of engine w m request unverified decision).1.store
          ≡ record (capture sha256 w.store m.now request.id request.capability
              (display (path_of v))).1 { files = files })
  unfolding write_arm write_parsed gated mutate
  store-write_arm v g on cleared =
      let passed =
        path_gate platform canonicalize display w.client request "desktop.fs.write" (path_of v)
          decision in
      let done = mutate-store v g (record w {
        client = passed.1;
        store =
            (capture sha256 w.store m.now request.id request.capability (display (path_of v))).1;
      }) in
      (
        done.0,
        ap
              (λ o.
                (write_parsed platform canonicalize display sha256 parse_uuid parse path_of engine w
                  m request unverified decision o).1.store)
              cleared.0
            ∙ ap (λ r. r.1.store) (gated-ok v g passed cleared.1)
            ∙ ap (λ r. (mutate parse_uuid engine m request unverified g v r).1.store)
                (checkpointed (record w { client = passed.1 }) (path_of v) on cleared.2)
            ∙ done.1,
      )

  -- Undo: whatever a cleared mutation by "desktop.fs.patch" or "desktop.fs.write" does to the files,
  -- and whatever it answers, restoring the checkpoint that was taken before it succeeds and puts back
  -- the file that was at the path, of at most 32 MiB, unless a directory is there now or the disk
  -- refuses to write at the path. The store is there, no earlier checkpoint bears the same
  -- time, the restore comes at another time, and the budget has room for the restore's own checkpoint.
  pub write_arm-undo :
      (v : V) (g : CapabilityGate) (bytes : List ℕ) (later : ℕ)
      → w.checkpoints ≡ true
      → WriteCleared v g
      → lookup (display (path_of v)) w.store.files ≡ some (file bytes)
      → length bytes ≤ max_file_bytes
      → All (λ e. e.ts ≢ m.now) w.store.index
      → later ≢ m.now
      → HasRoom sha256
          (write_arm platform canonicalize display sha256 parse_uuid parse path_of engine w m
            request unverified decision).1.store
          (display (path_of v))
      → Writable sha256
          (write_arm platform canonicalize display sha256 parse_uuid parse path_of engine w m
            request unverified decision).1.store
          (display (path_of v))
      → let done =
          restore sha256
            (write_arm platform canonicalize display sha256 parse_uuid parse path_of engine w m
              request unverified decision).1.store
            later
            m.now in
        ((rollback : CheckpointEntry) × (done.0 ≡ inr rollback))
        × (lookup (display (path_of v)) done.1.files ≡ some (file bytes))
  write_arm-undo v g bytes later on cleared there small fresh other room writable =
      let known = store-write_arm v g on cleared in
      let path = display (path_of v) in
      let done =
        restore-capture sha256 w.store m.now later request.id request.capability path bytes known.0
          there small fresh other (subst (λ s. HasRoom sha256 s path) known.1 room)
          (subst (λ s. Writable sha256 s path) known.1 writable) in
      (
        (done.0.0, ap (λ s. (restore sha256 s later m.now).0) known.1 ∙ done.0.1),
        ap (λ s. lookup path (restore sha256 s later m.now).1.files) known.1 ∙ done.1,
      )
