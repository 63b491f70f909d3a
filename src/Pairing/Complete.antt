-- ===== src/Pairing/Complete.antt =====
-- `PairingFlow::complete` of pairing.rs, and the keyring check of keyring.rs that it makes first.
--
-- `Keyring` says what the system's keyring answers; `response` what the backend answers to the request
-- that was posted. The state is the requests that have left, the tokens under their devices, and the
-- sentinel that stands under the probe's account.
use Prim.Native.String.{◌++◌ as ◌+++◌}
use synth_hires_bridge.Prelude.{
  ℕ, String, Bool, not, Option, none, some, List, [], ◌∷◌, ◌++◌, ◌≡◌, ◌⊎◌, ap, sym, subst, ◌∙◌,
  false, inl, inr, eq_iff, Bool-cases, Option-cases, refl, any, if◌then◌else◌, str_eq,
}
use synth_hires_bridge.Prelude.Map.{Map, insert}
use synth_hires_bridge.Prelude.Text.{codes}
use synth_hires_bridge.Errors.{DaemonError, keyring, protocol, to_string, Result, Done, ok, err}
use synth_hires_bridge.Pairing.{
  UrlCheck, UrlError, accepted, rejected, validate_backend_url, trim_end_matches,
  ws_endpoint_for_origin,
}

pub record PairCompleteRequest : Type 0 where
  pub code : String
  pub pairing_id : Option String
  pub device_kind : String
  pub device_name : String
  pub fingerprint : String
  pub desired_scopes : List String

pub record PairCompleteData : Type 0 where
  pub device_id : String
  pub token : String
  pub token_expires_at : String
  pub ws_url : List ℕ

pub record PairCompleteResponse : Type 0 where
  pub succeeded : Bool
  pub device : PairCompleteData

-- An operation with a text fails with it; `reads_back` is what is read of the sentinel, and
-- `deletes` says whether its deletion works.
pub record Keyring : Type 0 where
  pub entry_error : Option String
  pub set_error : Option String
  pub reads_back : Result String
  pub deletes : Bool

pub record Outbox : Type 0 where
  pub posted : List (List ℕ × PairCompleteRequest)
  pub tokens : Map String
  pub probe_account : Option String

-- `Entry::new` and `set_password`; the text goes in front of the second's error.
unfoldable pub set_password : Keyring → String → Done
set_password k context = elim k.entry_error [
  | some e ↦ err (keyring e)
  | none ↦ elim k.set_error [ some e ↦ err (keyring (context +++ e)) | none ↦ ok tt ]
]

-- From the read-back on: an error of it comes before the sentinel is deleted.
unfoldable pub compare_back : Keyring → String → Result String → Outbox → Done × Outbox
compare_back k sentinel (err e) out =
    (err (keyring ("keyring read-back failed: " +++ to_string e)), out)
compare_back k sentinel (ok back) out = (
  if not (str_eq back sentinel)
      then err (keyring "keyring read-back mismatch — refusing to pair")
      else ok tt,
  if k.deletes then record out { probe_account = none } else out,
)

unfoldable pub probe_set : Keyring → String → Done → Outbox → Done × Outbox
unfolding compare_back
probe_set k sentinel (err e) out = (err e, out)
probe_set k sentinel (ok _) out =
    compare_back k sentinel k.reads_back (record out { probe_account = some sentinel })

-- `TokenStore::probe`
unfoldable pub probe : Keyring → String → Outbox → Done × Outbox
unfolding set_password probe_set
probe k sentinel out =
    probe_set k sentinel
      (set_password k "keyring unavailable (no Secret Service / dbus session?): ") out

abbrev pub desktop_scopes : List String
desktop_scopes =
    "desktop.shell.execute" ∷ "desktop.fs.read" ∷ "desktop.fs.write" ∷ "desktop.fs.delete"
    ∷ "desktop.fs.verify" ∷ "desktop.fs.list" ∷ "desktop.fs.watch" ∷ "desktop.process.list"
    ∷ "desktop.process.kill" ∷ "desktop.network.fetch" ∷ "sync.chat.push" ∷ []

unfoldable pub add_scopes : List String → List String → List String
add_scopes [] scopes = scopes
add_scopes (capability ∷ rest) scopes = add_scopes rest (
    if not (any (λ value. str_eq value capability) scopes)
    then scopes ++ capability ∷ []
    else scopes)

unfoldable pub with_scopes : PairCompleteRequest → PairCompleteRequest
unfolding add_scopes
with_scopes req =
    if str_eq req.device_kind "desktop"
    then record req { desired_scopes = add_scopes desktop_scopes req.desired_scopes }
    else req

-- The token is stored, and the answer is passed on with its endpoint.
unfoldable pub store_token :
    Keyring → Outbox → List ℕ → PairCompleteResponse → Result PairCompleteResponse × Outbox
store_token k out backend_url body = elim (set_password k "") [
  | err e ↦ (err e, out)
  | ok _ ↦ (
    ok (record body {
      device = record body.device {
        ws_url = ws_endpoint_for_origin backend_url body.device.ws_url;
      };
    }),
    record out { tokens = insert body.device.device_id body.device.token out.tokens },
  )
]

unfoldable pub received :
    Keyring → Outbox → List ℕ → Result PairCompleteResponse → Result PairCompleteResponse × Outbox
unfolding store_token
received k out backend_url (err e) = (err e, out)
received k out backend_url (ok body) = store_token k out backend_url body

-- `?` on a check that sends nothing.
abbrev pub after_check :
    Done × Outbox
    → (Outbox → Result PairCompleteResponse × Outbox)
    → Result PairCompleteResponse × Outbox
after_check (ok _, out) next = next out
after_check (err e, out) next = (err e, out)

-- From the added capabilities to the stored token.
unfoldable pub post_code :
    Keyring
    → (List ℕ → PairCompleteRequest → Result PairCompleteResponse)
    → List ℕ
    → PairCompleteRequest
    → Outbox
    → Result PairCompleteResponse × Outbox
unfolding received with_scopes
post_code k response backend_url req out =
    let url = trim_end_matches b'/' backend_url ++ codes "/api/devices/pair/complete" in
    let sent = with_scopes req in
    received k (record out { posted = out.posted ++ (url, sent) ∷ [] }) backend_url
      (response url sent)

-- `explain` is the text of a refused address.
module _ (explain : UrlError → String) where
  unfoldable pub admitted : Keyring → String → UrlCheck → Outbox → Done × Outbox
  admitted k sentinel (rejected e) out = (err (protocol (explain e)), out)
  admitted k sentinel accepted out = probe k sentinel out

  unfoldable pub complete :
      Keyring
      → String
      → (List ℕ → PairCompleteRequest → Result PairCompleteResponse)
      → List ℕ
      → PairCompleteRequest
      → Outbox
      → Result PairCompleteResponse × Outbox
  unfolding admitted post_code
  complete k sentinel response backend_url req out =
      after_check (admitted k sentinel (validate_backend_url backend_url) out)
        (λ checked. post_code k response backend_url req checked)

  -- The keyring took the sentinel and gave the same text back.
  abbrev pub Keeps : Keyring → String → Type 0
  Keeps k sentinel = (k.entry_error ≡ none) × (k.set_error ≡ none) × (k.reads_back ≡ ok sentinel)

  -- Nothing was sent and no token stored. The sentinel is left under the probe's account only where it
  -- could not be read back or not be deleted.
  abbrev pub Unsent : Keyring → String → Outbox → Outbox → Type 0
  Unsent k sentinel before after =
      (after.posted ≡ before.posted)
      × (after.tokens ≡ before.tokens)
      × ((after.probe_account ≡ before.probe_account)
          ⊎ ((after.probe_account ≡ none)
              ⊎ ((after.probe_account ≡ some sentinel)
                  × (((e : DaemonError) × (k.reads_back ≡ err e)) ⊎ (k.deletes ≡ false)))))

  -- What the check in front of the request gives.
  abbrev Checked : Keyring → String → UrlCheck → Outbox → Done × Outbox → Type 0
  Checked k sentinel c before (ok _, after) = (c ≡ accepted) × Keeps k sentinel
  Checked k sentinel c before (err e, after) = Unsent k sentinel before after

  compared :
      (k : Keyring) (sentinel : String) (back : Result String) (out : Outbox)
      → k.reads_back ≡ back
      → k.entry_error ≡ none
      → k.set_error ≡ none
      → Checked k sentinel accepted out
          (compare_back k sentinel back (record out { probe_account = some sentinel }))
  unfolding compare_back
  compared k sentinel (err e) out back there set = (refl, refl, inr (inr (refl, inl (e, back))))
  compared k sentinel (ok text) out back there set = elim (Bool-cases (str_eq text sentinel)) [
    | inl same ↦ rw same (refl, (there, set, back ∙ ap (λ t. ok t) ((eq_iff text sentinel).0 same)))
    | inr other ↦ rw other (elim (Bool-cases k.deletes) [
      | inl works ↦ rw works (refl, refl, inr (inl refl))
      | inr fails ↦ rw fails (refl, refl, inr (inr (refl, inr refl)))
    ])
  ]

  set_password-ok :
      (k : Keyring) (context : String)
      → k.entry_error ≡ none
      → k.set_error ≡ none
      → set_password k context ≡ ok tt
  unfolding set_password
  set_password-ok k context there set = rw (there, set) refl

  probed :
      (k : Keyring) (sentinel : String) (out : Outbox)
      → Checked k sentinel accepted out (probe k sentinel out)
  unfolding probe probe_set set_password
  probed k sentinel out = elim (Option-cases k.entry_error) [
    | inr (e, locked) ↦ rw (locked, probe_set) (refl, refl, inl refl)
    | inl there ↦ elim (Option-cases k.set_error) [
      | inr (e, refused) ↦ rw (there, refused, probe_set) (refl, refl, inl refl)
      | inl set ↦
          subst (λ d. Checked k sentinel accepted out (probe_set k sentinel d out))
            (sym (set_password-ok k _ there set))
            (compared k sentinel k.reads_back out refl there set)
    ]
  ]

  admitted-Checked :
      (k : Keyring) (sentinel : String) (c : UrlCheck) (out : Outbox)
      → Checked k sentinel c out (admitted k sentinel c out)
  unfolding admitted
  admitted-Checked k sentinel (rejected e) out = (refl, refl, inl refl)
  admitted-Checked k sentinel accepted out = probed k sentinel out

  -- The single-use code leaves only for an address that is accepted, and after the keyring took a
  -- sentinel and gave the same text back; otherwise the call fails, with nothing sent and no token stored,
  -- and leaves the sentinel in the keyring at most where it could not be read back or not be deleted.
  pub complete-guarded :
      (k : Keyring) (sentinel : String)
      (response : List ℕ → PairCompleteRequest → Result PairCompleteResponse) (backend_url : List ℕ)
      (req : PairCompleteRequest) (out : Outbox)
      → ((validate_backend_url backend_url ≡ accepted) × Keeps k sentinel)
        ⊎ (((e : DaemonError) × ((complete k sentinel response backend_url req out).0 ≡ err e))
            × Unsent k sentinel out (complete k sentinel response backend_url req out).1)
  unfolding complete
  complete-guarded k sentinel response backend_url req out =
      decided (admitted k sentinel (validate_backend_url backend_url) out)
        (admitted-Checked k sentinel (validate_backend_url backend_url) out)
    where
      decided :
          (d : Done × Outbox)
          → Checked k sentinel (validate_backend_url backend_url) out d
          → let done = after_check d (λ checked. post_code k response backend_url req checked) in
            ((validate_backend_url backend_url ≡ accepted) × Keeps k sentinel)
            ⊎ (((e : DaemonError) × (done.0 ≡ err e)) × Unsent k sentinel out done.1)
      decided (ok _, after) h = inl h
      decided (err why, after) h = inr ((why, refl), h)
