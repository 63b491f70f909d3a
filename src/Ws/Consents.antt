-- ===== src/Ws/Consents.antt =====
-- What `path_gate` of ws_client.rs lets through, and what it changes.
use synth_hires_bridge.Prelude.{
  String, true, ◌≡◌, refl, ◌↔◌, ◌⊎◌, inl, inr, Option, none, some, arith, Bool-cases, ◌&&◌,
  Option-cases,
}
use synth_hires_bridge.Capability.Paths.{FilePath, Platform}
use synth_hires_bridge.Capability.Resolve.{Canonicalize}
use synth_hires_bridge.Capability.Covers.{HasParentDir}
use synth_hires_bridge.Capability.{
  GateDecision, allow, CapabilityGate, allows, with_additional_path, with_one_shot_path,
  check_path_real,
}
use synth_hires_bridge.Capability.Laws.{Granted, allows_iff}
use synth_hires_bridge.Capability.Symlinks.{ResolvesTo}
use synth_hires_bridge.Capability.Grants.{
  one_shot_passes, check_path_real-with_additional_path, Granted-with_additional_path,
}
use synth_hires_bridge.Consent.{ConsentAnswer}
use synth_hires_bridge.Protocol.{ActionRequestFrame}
use synth_hires_bridge.Errors.{awaiting_consent, ok, err}
use synth_hires_bridge.Ws.Base.{Client, send}
use synth_hires_bridge.Ws.PathGate.{is_allow, passes, decided, ask_owner, interactive, path_gate}

pub is_allow_iff : (d : GateDecision) → (is_allow d ≡ true) ↔ (d ≡ allow)
unfolding is_allow
is_allow_iff allow = ((λ h. refl), (λ h. refl))
is_allow_iff _ = ((λ h. cc), (λ h. cc))

-- The owner approved this action.
abbrev pub Approved : Option ConsentAnswer → Type 0
Approved decision = (a : ConsentAnswer) × (decision ≡ some a) × (a.approved ≡ true)

module _ (platform : Platform) (canonicalize : Canonicalize) (display : FilePath → String)
    (c : Client) (request : ActionRequestFrame) (capability : String) (path : FilePath)
    (decision : Option ConsentAnswer) where
  -- The local gate allows the path as the disk resolves it.
  abbrev pub Allowed : Type 0
  Allowed = check_path_real platform canonicalize c.gate capability path ≡ allow

  passes_iff : (passes platform canonicalize c.gate capability path ≡ true) ↔ Allowed
  unfolding passes
  passes_iff = is_allow_iff (check_path_real platform canonicalize c.gate capability path)

  -- An action gets a gate to run under only if the capability is granted and either the local
  -- gate allows the path as the disk resolves it, or the owner approved this action, whether or
  -- not the server sets `skip_consent_prompt`.
  pub path_gate-ok :
      (g : CapabilityGate)
      → (path_gate platform canonicalize display c request capability path decision).0 ≡ ok g
      → Granted c.gate capability × (Allowed ⊎ Approved decision)
  unfolding path_gate interactive decided
  path_gate-ok g h =
      let granted = allows_iff c.gate capability in
      let passed = passes_iff in
      elim (Bool-cases (passes platform canonicalize c.gate capability path)) [
        | inl now ↦ (ground arith, inl (passed.0 now))
        | inr later ↦ elim (Option-cases decision) [
          | inl e ↦ ground arith
          | inr (a, e) ↦ (ground arith, inr (a, e, ground arith))
        ]
      ]

  -- `path_gate` leaves the connection's own gate as it is, except that an approval to be remembered
  -- adds this one path to it.
  pub path_gate-gate :
      ((path_gate platform canonicalize display c request capability path decision).1.gate ≡ c.gate)
      ⊎ ((a : ConsentAnswer) × (decision ≡ some a)
          × (a.approved ≡ true)
          × (a.remember ≡ true)
          × ((path_gate platform canonicalize display c request capability path decision).1.gate
              ≡ with_additional_path c.gate path))
  unfolding path_gate interactive decided ask_owner send
  path_gate-gate = elim (Option-cases decision) [
    | inl e ↦ inl (ground arith)
    | inr (a, e) ↦ elim (Bool-cases (a.approved && a.remember)) [
      | inl both ↦ elim (Bool-cases (allows c.gate capability)) [
        | inr denied ↦ inl (ground arith)
        | inl granted ↦ elim (Bool-cases (passes platform canonicalize c.gate capability path)) [
          | inl now ↦ inl (ground arith)
          | inr later ↦ inr (a, e, ground arith, ground arith, ground arith)
        ]
      ]
      | inr not_both ↦ inl (ground arith)
    ]
  ]

  -- The owner is asked, and the action waits, exactly when the capability is granted, the local gate
  -- does not allow the path, and no decision has come yet.
  pub path_gate-awaits_iff :
      ((path_gate platform canonicalize display c request capability path decision).0
        ≡ err awaiting_consent)
      ↔ (Granted c.gate capability × (¬ Allowed) × (decision ≡ none))
  unfolding path_gate interactive decided
  path_gate-awaits_iff =
      let granted = allows_iff c.gate capability in
      let passed = passes_iff in ((λ h. ground arith), (λ h. ground arith))

-- An approved action can run: where its capability is granted, its path does not climb by `..`, and
-- some ancestor of the path exists, the resume gets a gate, and the operation's own check against
-- that gate passes, wherever the path resolves to, through a symbolic link at the target too.
pub path_gate-approved :
    (platform : Platform) (canonicalize : Canonicalize) (display : FilePath → String) (c : Client)
    (request : ActionRequestFrame) (capability : String) (path real : FilePath) (a : ConsentAnswer)
    → Granted c.gate capability
    → ¬ HasParentDir path
    → ResolvesTo canonicalize path real
    → a.approved ≡ true
    → (g : CapabilityGate) × ((path_gate platform canonicalize display c request capability path
          (some a)).0
        ≡ ok g)
      × (check_path_real platform canonicalize g capability path ≡ allow)
unfolding path_gate interactive decided
path_gate-approved platform canonicalize display c request capability path real a granted dots r
      approved =
    let allowed = (allows_iff c.gate capability).1 granted in
    let passed = passes_iff platform canonicalize display c request capability path (some a) in
    let remembered = with_additional_path c.gate path in
    elim (Bool-cases (passes platform canonicalize c.gate capability path)) [
      | inl now ↦ elim (Bool-cases request.skip_consent_prompt) [
        | inl skip ↦ (
          remembered,
          ground arith,
          check_path_real-with_additional_path platform canonicalize c.gate capability path path
              (passed.0 now),
        )
        | inr ask_first ↦ (c.gate, ground arith, passed.0 now)
      ]
      | inr later ↦ elim (Bool-cases a.remember) [
        | inl keep ↦ (
          with_one_shot_path remembered path,
          ground arith,
          one_shot_passes platform canonicalize remembered capability path real
              (Granted-with_additional_path platform canonicalize c.gate capability path granted)
              dots r,
        )
        | inr once ↦ (
          with_one_shot_path c.gate path,
          ground arith,
          one_shot_passes platform canonicalize c.gate capability path real granted dots r,
        )
      ]
    ]
