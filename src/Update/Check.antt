-- ===== src/Update/Check.antt =====
-- The check for an update in autoupdate.rs, and the download.
--
-- The HTTP client, the JSON codec, the hex decoder, SHA-256 and Ed25519 are third-party code, and
-- stand here as the fields of `Crates`. A manifest's `artifacts` is the list of its entries, in the
-- order in which the hash map gives them. `target` is `current_target()`, which the build fixes.
use synth_hires_bridge.Prelude.{
  ℕ, String, Bool, false, not, Option, none, some, List, [], ◌∷◌, if◌then◌else◌, str_eq, length,
  ◌==◌, unwrap_or,
}
use Prim.Native.Char.{code}
use Prim.Native.String.{◌++◌ as ◌+++◌}
use synth_hires_bridge.Prelude.Text.{codes, bytes_eq}
use synth_hires_bridge.Protocol.{Json, Fields, obj, end, field, get, as_str}
use synth_hires_bridge.Errors.{DaemonError, io, protocol, Result, ok, err}
use synth_hires_bridge.Update.Versions.{is_newer_version}

pub record ArtifactEntry : Type 0 where
  pub target : String
  pub sha256 : String
  pub url : String

pub record SignedManifest : Type 0 where
  pub version : String
  pub published_at : String
  pub artifacts : List (String × ArtifactEntry)
  pub signature : String

pub data UpdateStatus : Type 0 where
  up_to_date : UpdateStatus
  update_available : (version : String) (artifact : ArtifactEntry) → UpdateStatus
  check_failed : String → UpdateStatus

-- What a call of another crate gives: its value, or its error as a text.
pub data Fetched {ℓ} (A : Type ℓ) : Type ℓ where
  got : A → Fetched A
  lost : String → Fetched A

-- `Key` is a verifying key and `Signature` a signature; `get` ends in a response, `json` and `bytes`
-- read one's body.
pub record Crates : Type 1 where
  pub Key : Type 0
  pub Signature : Type 0
  pub Response : Type 0
  pub build : Fetched (Unit {0})
  pub get_url : String → Fetched Response
  pub json : Response → Fetched Json
  pub bytes : Response → Fetched (List ℕ)
  pub error_for_status : Response → Fetched Response
  pub hex_decode : String → Fetched (List ℕ)
  pub key_from_bytes : List ℕ → Option Key
  pub signature_from_slice : List ℕ → Option Signature
  pub verify_strict : Key → List ℕ → Signature → Bool
  pub parse : List ℕ → Fetched Json
  pub to_vec : Json → List ℕ
  pub parse_manifest : List ℕ → Fetched SignedManifest
  pub sha256 : List ℕ → List ℕ

-- `tag_name.strip_prefix("v").unwrap_or(tag_name)`
unfoldable pub strip_prefix_v : String → String
strip_prefix_v String.[] = String.[]
strip_prefix_v (String.◌∷◌ c s) = if code c == b'v' then s else String.◌∷◌ c s

abbrev pub latest_of : Json → String
latest_of release = strip_prefix_v (unwrap_or (as_str (get release "tag_name")) "unknown")

unfoldable pub remove_field : String → Fields → Fields
remove_field k end = end
remove_field k (field j v fs) =
    let rest = remove_field k fs in if str_eq j k then rest else field j v rest

-- `if let Some(obj) = value.as_object_mut() { obj.remove("signature") }`
unfoldable pub unsigned : Json → Json
unsigned (obj fs) = obj (remove_field "signature" fs)
unsigned v = v

-- `Ok(b) if b.len() == n`
unfoldable pub of_length : ℕ → Fetched (List ℕ) → Option (List ℕ)
of_length n (lost e) = none
of_length n (got b) = if length b == n then some b else none

unfoldable pub parsed : Fetched Json → Option Json
parsed (got v) = some v
parsed (lost e) = none

unfoldable pub find_artifact : String → List (String × ArtifactEntry) → Option ArtifactEntry
find_artifact target [] = none
find_artifact target ((name, entry) ∷ entries) =
    if str_eq entry.target target then some entry else find_artifact target entries

unfoldable pub offer : String → String → SignedManifest → Option ArtifactEntry → UpdateStatus
offer target latest manifest (some entry) = update_available manifest.version entry
offer target latest manifest none =
    check_failed ("no artifact for target " +++ (target +++ (" in release " +++ latest)))

abbrev pub releases_api : String
releases_api = "https://api.github.com/repos/planobinario/synthhires-bridge/releases"

abbrev pub manifest_url : String → String
manifest_url latest =
    releases_api
    +++ ("/download/v" +++ (latest +++ ("/release-manifest-" +++ (latest +++ ".json"))))

module _ (crates : Crates) where
  -- `let Ok(x) = … else { return false }`
  abbrev pub or_refuse {ℓ} : {A : Type ℓ} → Option A → (A → Bool) → Bool
  or_refuse none next = false
  or_refuse (some a) next = next a

  unfoldable pub verify_manifest_signature : String → List ℕ → Bool
  verify_manifest_signature pubkey_hex raw_json =
      or_refuse (of_length 32 (crates.hex_decode pubkey_hex)) λ pubkey_bytes.
        or_refuse (crates.key_from_bytes pubkey_bytes) λ pubkey.
          or_refuse (parsed (crates.parse raw_json)) λ value.
            or_refuse
              (of_length 64 (crates.hex_decode (unwrap_or (as_str (get value "signature")) "")))
              λ bytes.
                or_refuse (crates.signature_from_slice bytes)
                  λ sig. crates.verify_strict pubkey (crates.to_vec (unsigned value)) sig

  -- `Err(e) => return UpdateStatus::CheckFailed(format!("…: {e}"))`
  unfoldable pub or_fail {ℓ} : {A : Type ℓ} → String → Fetched A → (A → UpdateStatus) → UpdateStatus
  or_fail step (lost e) next = check_failed (step +++ e)
  or_fail step (got a) next = next a

  -- What follows the download of the manifest's bytes.
  unfoldable pub judge_manifest : String → String → String → List ℕ → UpdateStatus
  judge_manifest pubkey_hex target latest raw =
      if not (verify_manifest_signature pubkey_hex raw)
      then check_failed "manifest Ed25519 signature verification failed — update refused"
      else or_fail "parse manifest: " (crates.parse_manifest raw)
          λ manifest. offer target latest manifest (find_artifact target manifest.artifacts)

  unfoldable pub check_for_update : String → String → String → UpdateStatus
  unfolding judge_manifest
  check_for_update pubkey_hex target current = or_fail "client build: " crates.build λ client.
      or_fail "fetch latest: " (crates.get_url (releases_api +++ "/latest")) λ resp.
        or_fail "parse release: " (crates.json resp) λ release.
          if not (is_newer_version (codes current) (codes (latest_of release)))
          then up_to_date
          else or_fail "fetch manifest: " (crates.get_url (manifest_url (latest_of release)))
              λ manifest_resp.
                or_fail "read manifest body: " (crates.bytes manifest_resp)
                  λ raw. judge_manifest pubkey_hex target (latest_of release) raw

  unfoldable pub or_stop {ℓ κ} :
      {A : Type ℓ} {B : Type κ} → DaemonError → Fetched A → (A → Result B) → Result B
  or_stop e (lost _) next = err e
  or_stop e (got a) next = next a

  -- The bytes that are written to `dest_path`; the errors of other crates are left without their texts.
  unfoldable pub download_and_verify : ArtifactEntry → Result (List ℕ)
  download_and_verify entry = or_stop (io "client") crates.build λ client.
      or_stop (io "send") (crates.get_url entry.url) λ resp.
        or_stop (io "status") (crates.error_for_status resp) λ good.
          or_stop (io "body") (crates.bytes good) λ bytes.
            or_stop (protocol "invalid sha256 in manifest") (crates.hex_decode entry.sha256)
              λ expected.
                if not (bytes_eq (crates.sha256 bytes) expected)
                then err (protocol "downloaded binary SHA-256 mismatch — update aborted")
                else ok bytes
