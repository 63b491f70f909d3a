-- ===== src/Update/Offers.antt =====
-- What autoupdate.rs offers and what it lets through.
use synth_hires_bridge.Prelude.{
  ℕ, String, Bool, true, false, not, ◌≡◌, refl, Option, none, some, List, [], ◌∷◌, arith,
  if◌then◌else◌, Any, str_eq, eq_iff, Bool-cases, subst, inl, inr, ◌≢◌, sym, ap, ◌∙◌, length, ◌==◌,
  ==_iff, unwrap_or, true≢false, none≢some,
}
use synth_hires_bridge.Prelude.Text.{codes, bytes_eq, bytes_eq_iff}
use synth_hires_bridge.Errors.{DaemonError, protocol, Result, ok, err}
use Prim.Native.String.{◌++◌ as ◌+++◌}
use mathlib.Core.Option.{some-injective}
use synth_hires_bridge.Protocol.{
  Json, null, bool, num, str, arr, obj, Fields, end, field, get, get_field, as_str,
}
use synth_hires_bridge.Update.Versions.{is_newer_version}
use synth_hires_bridge.Update.Check.{
  ArtifactEntry, SignedManifest, UpdateStatus, update_available, check_failed, up_to_date, Fetched,
  got, lost, Crates, verify_manifest_signature, find_artifact, offer, judge_manifest,
  check_for_update, download_and_verify, latest_of, unsigned, remove_field, of_length, parsed,
  or_refuse, manifest_url, releases_api, or_stop, or_fail,
}

err_ok {κ} : {B : Type κ} {e : DaemonError} {b : B} → err e ≢ ok b
err_ok h = cc

failed_available :
    {s v : String} {entry : ArtifactEntry} → check_failed s ≢ update_available v entry
failed_available h = cc

up_to_date_available : {v : String} {entry : ArtifactEntry} → up_to_date ≢ update_available v entry
up_to_date_available h = cc

if_available :
    (b : Bool) (x y : UpdateStatus) (v : String) (entry : ArtifactEntry)
    → x ≢ update_available v entry
    → (if not b then x else y) ≡ update_available v entry
    → (b ≡ true) × (y ≡ update_available v entry)
if_available true x y v entry h e = (refl, e)
if_available false x y v entry h e = absurd (h e)

-- The value without its signature, and with every other field as it is.
abbrev pub Bare : Json → Json → Type 0
Bare value body =
    (get body "signature" ≡ none) × ((k : String) → k ≢ "signature" → get body k ≡ get value k)

get_field-removed : (k : String) (fs : Fields) → get_field k (remove_field k fs) ≡ none
unfolding get_field remove_field
get_field-removed k end = refl
get_field-removed k (field j v fs) = elim (Bool-cases (str_eq j k)) [
  | inl here ↦ rw here (get_field-removed k fs)
  | inr other ↦ rw (other, other) (get_field-removed k fs)
]

get_field-other :
    (k gone : String) (fs : Fields) → k ≢ gone → get_field k (remove_field gone fs) ≡ get_field k fs
unfolding get_field remove_field
get_field-other k gone end h = refl
get_field-other k gone (field j v fs) h = elim (Bool-cases (str_eq j gone)) [
  | inl here ↦
      let away : str_eq j k ≡ false = ground (arith, eq_iff j gone, eq_iff j k) in
      rw (here, away) (get_field-other k gone fs h)
  | inr other ↦ elim (Bool-cases (str_eq j k)) [
    | inl found ↦ rw (other, found) refl
    | inr away ↦ rw (other, away) (get_field-other k gone fs h)
  ]
]

unsigned-Bare : (value : Json) → Bare value (unsigned value)
unfolding unsigned get
unsigned-Bare (obj fs) =
    (get_field-removed "signature" fs, λ k other. get_field-other k "signature" fs other)
unsigned-Bare null = (refl, λ k other. refl)
unsigned-Bare (bool b) = (refl, λ k other. refl)
unsigned-Bare (num n) = (refl, λ k other. refl)
unsigned-Bare (str s) = (refl, λ k other. refl)
unsigned-Bare (arr items) = (refl, λ k other. refl)

module _ (crates : Crates) where
  -- The embedded key of 32 bytes verifies the manifest's signature of 64 bytes strictly, over the
  -- manifest without it.
  pub record Signed (pubkey_hex : String) (raw : List ℕ) : Type 0 where
    pub key_bytes : List ℕ
    pub key : crates.Key
    pub value : Json
    pub body : Json
    pub signature_bytes : List ℕ
    pub signature : crates.Signature
    pub hex_key : crates.hex_decode pubkey_hex ≡ got key_bytes
    pub key_length : length key_bytes ≡ 32
    pub is_key : crates.key_from_bytes key_bytes ≡ some key
    pub is_json : crates.parse raw ≡ got value
    pub hex_signature :
        crates.hex_decode (unwrap_or (as_str (get value "signature")) "") ≡ got signature_bytes
    pub signature_length : length signature_bytes ≡ 64
    pub is_signature : crates.signature_from_slice signature_bytes ≡ some signature
    pub bare : Bare value body
    pub verified : crates.verify_strict key (crates.to_vec body) signature ≡ true

  or_refuse-true {ℓ} :
      {A : Type ℓ} (x : Option A) (next : A → Bool)
      → or_refuse crates x next ≡ true
      → (a : A) × (x ≡ some a) × (next a ≡ true)
  or_refuse-true none next h = absurd (true≢false (sym h))
  or_refuse-true (some a) next h = (a, refl, h)

  of_length-some :
      (n : ℕ) (x : Fetched (List ℕ)) (b : List ℕ)
      → of_length n x ≡ some b
      → (x ≡ got b) × (length b ≡ n)
  unfolding of_length
  of_length-some n (lost e) b h = absurd (none≢some h)
  of_length-some n (got a) b h = elim (Bool-cases (length a == n)) [
    | inl fits ↦
        let same : a ≡ b = some-injective _ _ (rw fits at h) in
        (ap (λ x. got x) same, sym (ap length same) ∙ (==_iff (length a) n).0 fits)
    | inr other ↦ absurd (none≢some (rw other at h))
  ]

  parsed-some : (x : Fetched Json) (v : Json) → parsed x ≡ some v → x ≡ got v
  unfolding parsed
  parsed-some (got v) w h = ap (λ x. got x) (some-injective _ _ h)
  parsed-some (lost e) w h = absurd (none≢some h)

  verify-Signed :
      (pubkey_hex : String) (raw : List ℕ)
      → verify_manifest_signature crates pubkey_hex raw ≡ true
      → Signed pubkey_hex raw
  unfolding verify_manifest_signature
  verify-Signed pubkey_hex raw h =
      let (kb, k₁, h₁) = or_refuse-true _ _ h in
      let (key, k₂, h₂) = or_refuse-true _ _ h₁ in
      let (value, k₃, h₃) = or_refuse-true _ _ h₂ in
      let (sb, k₄, h₄) = or_refuse-true _ _ h₃ in
      let (sig, k₅, h₅) = or_refuse-true _ _ h₄ in
      let hexed = of_length-some 32 _ kb k₁ in
      let signed = of_length-some 64 _ sb k₄ in
      record {
        key_bytes = kb;
        key = key;
        value = value;
        body = unsigned value;
        signature_bytes = sb;
        signature = sig;
        hex_key = hexed.0;
        key_length = hexed.1;
        is_key = k₂;
        is_json = parsed-some _ value k₃;
        hex_signature = signed.0;
        signature_length = signed.1;
        is_signature = k₅;
        bare = unsigned-Bare value;
        verified = h₅;
      }

  or_stop-ok {ℓ κ} :
      {A : Type ℓ} {B : Type κ} (e : DaemonError) (x : Fetched A) (next : A → Result B) (b : B)
      → or_stop crates e x next ≡ ok b
      → (a : A) × (x ≡ got a) × (next a ≡ ok b)
  unfolding or_stop
  or_stop-ok e (lost s) next b h = absurd (err_ok h)
  or_stop-ok e (got a) next b h = (a, refl, h)

  or_fail-available {ℓ} :
      {A : Type ℓ} (step : String) (x : Fetched A) (next : A → UpdateStatus) (v : String)
      (entry : ArtifactEntry)
      → or_fail crates step x next ≡ update_available v entry
      → (a : A) × (x ≡ got a) × (next a ≡ update_available v entry)
  unfolding or_fail
  or_fail-available step (lost e) next v entry h = absurd (failed_available h)
  or_fail-available step (got a) next v entry h = (a, refl, h)

  -- What is written to disk is the binary that the manifest names: its SHA-256 is the one that the
  -- entry carries.
  pub download_and_verify-ok :
      (entry : ArtifactEntry) (bytes : List ℕ)
      → download_and_verify crates entry ≡ ok bytes
      → crates.hex_decode entry.sha256 ≡ got (crates.sha256 bytes)
  unfolding download_and_verify
  download_and_verify-ok entry bytes h =
      let (c, _, h₁) = or_stop-ok _ _ _ bytes h in
      let (resp, _, h₂) = or_stop-ok _ _ _ bytes h₁ in
      let (good, _, h₃) = or_stop-ok _ _ _ bytes h₂ in
      let (body, _, h₄) = or_stop-ok _ _ _ bytes h₃ in
      let (expected, e, h₅) = or_stop-ok _ _ _ bytes h₄ in
      elim (Bool-cases (bytes_eq (crates.sha256 body) expected)) [
        | inl same ↦ let q = (bytes_eq_iff (crates.sha256 body) expected).0 same in cc
        | inr differ ↦ absurd (
            err_ok (
              subst
                (λ b.
                  (if not b
                    then err (protocol "downloaded binary SHA-256 mismatch — update aborted")
                    else ok body)
                  ≡ ok bytes)
                differ h₅))
      ]

  find_artifact-some :
      (target : String) (entries : List (String × ArtifactEntry)) (entry : ArtifactEntry)
      → find_artifact target entries ≡ some entry
      → Any (λ e. e.1 ≡ entry) entries × (entry.target ≡ target)
  unfolding find_artifact
  find_artifact-some target [] entry h = cc
  find_artifact-some target ((name, e) ∷ es) entry h = elim (Bool-cases (str_eq e.target target)) [
    | inl here ↦ let q = (eq_iff e.target target).0 here in ground arith
    | inr not_here ↦
        let rest = find_artifact-some target es entry (ground arith) in (inr rest.0, rest.1)
  ]

  offer-available :
      (target latest v : String) (manifest : SignedManifest) (o : Option ArtifactEntry)
      (entry : ArtifactEntry)
      → offer target latest manifest o ≡ update_available v entry
      → (manifest.version ≡ v) × (o ≡ some entry)
  unfolding offer
  offer-available target latest v manifest none entry h = absurd (failed_available h)
  offer-available target latest v manifest (some e) entry h = (ground arith, ground arith)

  -- The manifest whose bytes are `raw` is signed, is of version `v`, and names `entry` for the target.
  abbrev pub Vouched : String → String → List ℕ → String → ArtifactEntry → Type 0
  Vouched pubkey_hex target raw v entry =
      Signed pubkey_hex raw
      × ((manifest : SignedManifest) × (crates.parse_manifest raw ≡ got manifest)
          × (manifest.version ≡ v)
          × Any (λ e. e.1 ≡ entry) manifest.artifacts
          × (entry.target ≡ target))

  judge_manifest-available :
      (pubkey_hex target latest v : String) (raw : List ℕ) (entry : ArtifactEntry)
      → judge_manifest crates pubkey_hex target latest raw ≡ update_available v entry
      → Vouched pubkey_hex target raw v entry
  unfolding judge_manifest
  judge_manifest-available pubkey_hex target latest v raw entry h =
      let (good, h₀) =
        if_available (verify_manifest_signature crates pubkey_hex raw) _ _ v entry failed_available
          h in
      let (manifest, parsed_raw, h₁) = or_fail-available _ _ _ v entry h₀ in
      let (version, found) =
        offer-available target latest v manifest (find_artifact target manifest.artifacts) entry
          h₁ in
      let (named, here) = find_artifact-some target manifest.artifacts entry found in
      (verify-Signed pubkey_hex raw good, (manifest, parsed_raw, version, named, here))

  -- The server's latest release is `release`, and `raw` is the manifest that stands under its tag.
  abbrev pub Served : Json → List ℕ → Type 0
  Served release raw =
      ((resp : crates.Response) × (crates.get_url (releases_api +++ "/latest") ≡ got resp)
        × (crates.json resp ≡ got release))
      × ((resp : crates.Response) × (crates.get_url (manifest_url (latest_of release)) ≡ got resp)
          × (crates.bytes resp ≡ got raw))

  -- An update is offered only if the latest release's tag is a newer version than the running one, and
  -- only from the manifest of that tag: the embedded key of 32 bytes strictly verifies the signature of
  -- 64 bytes in it over the rest of it, its version is the offered one, and it names the offered
  -- artifact for this machine's target.
  pub check_for_update-available :
      (pubkey_hex target current v : String) (entry : ArtifactEntry)
      → check_for_update crates pubkey_hex target current ≡ update_available v entry
      → (release : Json) × (raw : List ℕ) × Served release raw
        × (is_newer_version (codes current) (codes (latest_of release)) ≡ true)
        × Vouched pubkey_hex target raw v entry
  unfolding check_for_update
  check_for_update-available pubkey_hex target current v entry h =
      let (client, _, h₁) = or_fail-available _ _ _ v entry h in
      let (resp, served, h₂) = or_fail-available _ _ _ v entry h₁ in
      let (release, read, h₃) = or_fail-available _ _ _ v entry h₂ in
      let latest = latest_of release in
      let (newer, h₄) =
        if_available (is_newer_version (codes current) (codes latest)) _ _ v entry
          up_to_date_available h₃ in
      let (manifest_resp, found, h₅) = or_fail-available _ _ _ v entry h₄ in
      let (raw, body, h₆) = or_fail-available _ _ _ v entry h₅ in
      (
        release,
        raw,
        ((resp, served, read), (manifest_resp, found, body)),
        newer,
        judge_manifest-available pubkey_hex target latest v raw entry h₆,
      )
