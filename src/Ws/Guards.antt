-- ===== src/Ws/Guards.antt =====
-- What must go well before an arm of ws_client.rs changes files: Ws.Mutations.
use Prim.Native.String.{◌++◌ as ◌+++◌}
use synth_hires_bridge.Prelude.{
  ℕ, String, Bool, false, Option, none, some, List, ◌⊎◌, inl, inr, ◌≡◌, refl, ap, ◌∙◌, Bool-cases,
  Option-cases,
}
use synth_hires_bridge.Capability.Paths.{FilePath, Platform}
use synth_hires_bridge.Capability.Resolve.{Canonicalize}
use synth_hires_bridge.Capability.{CapabilityGate}
use synth_hires_bridge.Consent.{ConsentAnswer}
use synth_hires_bridge.Protocol.{Json, ActionRequestFrame}
use synth_hires_bridge.Errors.{Result, Done, ok, err, to_string}
use synth_hires_bridge.Prelude.Map.{Map}
use synth_hires_bridge.Checkpoint.{Node, capture}
use synth_hires_bridge.Ws.Base.{Client}
use synth_hires_bridge.Ws.PathGate.{path_gate}
use synth_hires_bridge.Ws.Mutations.{
  World, Moment, Engine, is_awaiting_consent, refuse, reply, mutate, take_checkpoint,
  checkpoint_before, gated, write_parsed, write_arm, delete_gated, delete_parsed, delete_arm,
}

refuse-store :
    (parse_uuid : String → Option ℕ) (w : World) (m : Moment) (request : ActionRequestFrame)
    (message : String)
    → (refuse parse_uuid w m request message).1.store ≡ w.store
unfolding refuse
refuse-store parse_uuid w m request message = refl

pub reply-store :
    (parse_uuid : String → Option ℕ) (w : World) (m : Moment) (request : ActionRequestFrame)
    (unverified : String) (r : Result (Bool × Json))
    → (reply parse_uuid w m request unverified r).1.store ≡ w.store
unfolding reply refuse
reply-store parse_uuid w m request unverified (err e) = refl
reply-store parse_uuid w m request unverified (ok (verified, output)) = refl

module _ (platform : Platform) (canonicalize : Canonicalize) (display : FilePath → String)
    (sha256 : List ℕ → String) (parse_uuid : String → Option ℕ) {V : Type 0}
    (parse : Json → String ⊎ V) (path_of : V → FilePath) (engine : Engine V) (w : World)
    (m : Moment) (request : ActionRequestFrame) (unverified : String)
    (decision : Option ConsentAnswer) where
  -- The parameters were read, the gate passed, and a store that is there took the checkpoint.
  abbrev pub Cleared : String → V → CapabilityGate → Type 0
  Cleared capability v g =
      (parse request.params ≡ inr v)
      × ((path_gate platform canonicalize display w.client request capability (path_of v)
            decision).0
          ≡ ok g)
      × ((w.checkpoints ≡ false) ⊎ (m.capture_fault ≡ none))

  -- The world once a store that is there has the checkpoint of the file at the path.
  abbrev with_checkpoint : World → FilePath → World
  with_checkpoint world path = record world {
    store = (capture sha256 world.store m.now request.id request.capability (display path)).1;
  }

  -- A checkpoint is taken, or the mutation is refused and the world is as it was.
  checkpoint_before-cases :
      (world : World) (path : FilePath)
      → ((world.checkpoints ≡ false)
          × (checkpoint_before display sha256 world m request path ≡ (none, world)))
        ⊎ ((m.capture_fault ≡ none)
            × (checkpoint_before display sha256 world m request path
                ≡ (none, with_checkpoint world path)))
        ⊎ ((e : String) × (checkpoint_before display sha256 world m request path ≡ (some e, world)))
  unfolding checkpoint_before take_checkpoint
  checkpoint_before-cases world path = elim (Bool-cases world.checkpoints) [
    | inr off ↦ inl (off, rw off refl)
    | inl on ↦ elim (Option-cases m.capture_fault) [
      | inl works ↦ inr (inl (works, rw (on, works, take_checkpoint) refl))
      | inr (e, fails) ↦ inr (
          inr
            ("checkpoint failed (mutation refused): " +++ e, rw (on, fails, take_checkpoint) refl))
    ]
  ]

  -- The store is not there, or what it holds now is the checkpoint of the file at the path as it was
  -- before, behind the earlier ones.
  abbrev pub Taken : FilePath → Done × World → Type 0
  Taken path r =
      (w.checkpoints ≡ false)
      ⊎ ((m.capture_fault ≡ none)
          × ((files : Map Node) × (r.1.store
                ≡ record (capture sha256 w.store m.now request.id request.capability
                    (display path)).1 { files = files })))

  -- What the arm leaves of the files: no change, or everything before the mutation went well, and the
  -- checkpoint is there.
  abbrev pub Guarded : String → Done × World → Type 0
  Guarded capability r =
      (r.1.store.files ≡ w.store.files)
      ⊎ ((v : V) × (g : CapabilityGate) × Cleared capability v g × Taken (path_of v) r)

  mutate-files :
      (v : V) (g : CapabilityGate) (text : String) (world : World)
      → (files : Map Node) × ((mutate parse_uuid engine m request text g v (none, world)).1.store
          ≡ record world.store { files = files })
  unfolding mutate
  mutate-files v g text world =
      (_, reply-store parse_uuid _ m request text (engine g v world.store.files).0)

  mutate-Guarded :
      (capability : String) (v : V) (g : CapabilityGate) (c : Client) (text : String)
      → (parse request.params ≡ inr v)
      → ((path_gate platform canonicalize display w.client request capability
            (path_of v)
            decision).0
          ≡ ok g)
      → Guarded capability (
          mutate parse_uuid engine m request text g v
            (checkpoint_before display sha256 (record w { client = c }) m request (path_of v)))
  unfolding mutate
  mutate-Guarded capability v g c text read passed =
      let world : World = record w { client = c } in
      let run =
        λ (taken : Option String × World). mutate parse_uuid engine m request text g v taken in
      elim (checkpoint_before-cases world (path_of v)) [
        | inl (off, e) ↦ inr (v, g, (read, passed, inl off), inl off)
        | inr (inl (works, e)) ↦
            let done = mutate-files v g text (with_checkpoint world (path_of v)) in
            inr (
              v,
              g,
              (read, passed, inr works),
              inr (works, (done.0, ap (λ r. (run r).1.store) e ∙ done.1)),
            )
        | inr (inr (e, refused)) ↦ inl (
            ap (λ r. (run r).1.store.files) refused
            ∙ ap (λ s. s.files) (refuse-store parse_uuid world m request e))
      ]

  gated-Guarded :
      (v : V) (passed : Result CapabilityGate × Client)
      → (parse request.params ≡ inr v)
      → (path_gate platform canonicalize display w.client request "desktop.fs.write"
            (path_of v)
            decision
          ≡ passed)
      → Guarded "desktop.fs.write" (
          gated platform canonicalize display sha256 parse_uuid parse path_of engine w m request
            unverified v passed)
  unfolding gated
  gated-Guarded v (ok g, c) read e =
      mutate-Guarded "desktop.fs.write" v g c unverified read (ap (λ p. p.0) e)
  gated-Guarded v (err why, c) read e = elim (Bool-cases (is_awaiting_consent why)) [
    | inl parked ↦ inl (rw parked refl)
    | inr failed ↦ inl (rw failed refl)
  ]

  delete_gated-Guarded :
      (v : V) (passed : Result CapabilityGate × Client)
      → (parse request.params ≡ inr v)
      → (path_gate platform canonicalize display w.client request "desktop.fs.delete"
            (path_of v)
            decision
          ≡ passed)
      → Guarded "desktop.fs.delete" (
          delete_gated platform canonicalize display sha256 parse_uuid parse path_of engine w m
            request v passed)
  unfolding delete_gated
  delete_gated-Guarded v (ok g, c) read e =
      mutate-Guarded "desktop.fs.delete" v g c "" read (ap (λ p. p.0) e)
  delete_gated-Guarded v (err why, c) read e = inl (
      ap (λ s. s.files)
        (refuse-store parse_uuid (record w { client = c }) m request (to_string why)))

  write_parsed-Guarded :
      (parsed : String ⊎ V)
      → parse request.params ≡ parsed
      → Guarded "desktop.fs.write" (
          write_parsed platform canonicalize display sha256 parse_uuid parse path_of engine w m
            request unverified decision parsed)
  unfolding write_parsed
  write_parsed-Guarded (inl e) read =
      inl (ap (λ s. s.files) (refuse-store parse_uuid w m request ("bad params: " +++ e)))
  write_parsed-Guarded (inr v) read = gated-Guarded v _ read refl

  delete_parsed-Guarded :
      (parsed : String ⊎ V)
      → parse request.params ≡ parsed
      → Guarded "desktop.fs.delete" (
          delete_parsed platform canonicalize display sha256 parse_uuid parse path_of engine w m
            request decision parsed)
  unfolding delete_parsed
  delete_parsed-Guarded (inl e) read =
      inl (ap (λ s. s.files) (refuse-store parse_uuid w m request ("bad params: " +++ e)))
  delete_parsed-Guarded (inr v) read = delete_gated-Guarded v _ read refl

  -- The arms that patch, write and delete change no file unless the parameters were read, the path
  -- passed its gate, and the checkpoint was taken where there is a store for it.
  pub arms-Guarded :
      Guarded "desktop.fs.write" (
        write_arm platform canonicalize display sha256 parse_uuid parse path_of engine w m request
          unverified decision)
      × Guarded "desktop.fs.delete" (
          delete_arm platform canonicalize display sha256 parse_uuid parse path_of engine w m
            request decision)
  unfolding write_arm delete_arm
  arms-Guarded = (
    write_parsed-Guarded (parse request.params) refl,
    delete_parsed-Guarded (parse request.params) refl,
  )
