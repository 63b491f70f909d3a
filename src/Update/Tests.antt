-- ===== src/Update/Tests.antt =====
-- Updates on concrete versions, and on a concrete implementation of the third-party crates.
use synth_hires_bridge.Prelude.{ℕ, String, true, ◌≡◌, refl, ◌↔◌, some, List, [], ◌∷◌, ◌++◌}
use synth_hires_bridge.Prelude.Text.{codes, bytes_eq}
use synth_hires_bridge.Protocol.{Json, null, str, obj, field, end, get, get_field, as_str}
use synth_hires_bridge.Errors.{ok}
use synth_hires_bridge.Update.Versions.{
  parts, is_newer_version, collect, split_dots, core, strip_v, compare_from, part, parse_u64,
  digits, newer_parts, both, prepend,
}
use synth_hires_bridge.Update.Newer.{Older, is_newer_version_iff}
use synth_hires_bridge.Update.Check.{
  ArtifactEntry, SignedManifest, update_available, Fetched, got, Crates, check_for_update,
  download_and_verify, or_fail, or_stop, verify_manifest_signature, of_length, judge_manifest,
  parsed, unsigned, find_artifact, offer, latest_of, strip_prefix_v,
}
use synth_hires_bridge.Update.Offers.{Vouched, Served, check_for_update-available}

abbrev old : List ℕ
old = codes "0.1.9"

abbrev recent : List ℕ
recent = codes "v0.1.21"

is_newer_version_iff_example :
    (is_newer_version old recent ≡ true)
    ↔ ((a : List ℕ) × (b : List ℕ) × (parts old ≡ some a) × (parts recent ≡ some b) × Older a b)
is_newer_version_iff_example = is_newer_version_iff old recent

abbrev linux : ArtifactEntry
linux = record {
  target = "x86_64-unknown-linux-gnu";
  sha256 = "00";
  url = "https://example.com/bridge";
}

abbrev manifest : SignedManifest
manifest = record {
  version = "0.1.21";
  published_at = "";
  artifacts = ("bridge", linux) ∷ [];
  signature = "";
}

abbrev zeros : List ℕ
zeros =
    0 ∷ 0 ∷ 0 ∷ 0 ∷ 0 ∷ 0 ∷ 0 ∷ 0 ∷ 0 ∷ 0 ∷ 0 ∷ 0 ∷ 0 ∷ 0 ∷ 0 ∷ 0 ∷ 0 ∷ 0 ∷ 0 ∷ 0 ∷ 0 ∷ 0 ∷ 0 ∷ 0
    ∷ 0 ∷ 0 ∷ 0 ∷ 0 ∷ 0 ∷ 0 ∷ 0 ∷ 0 ∷ []

-- Every key is 32 zeros, every signature 64, and each request is answered with the release above.
abbrev hex : String → Fetched (List ℕ)
hex String.[] = got (zeros ++ zeros)
hex _ = got zeros

abbrev crates : Crates
crates = record {
  Key = Unit {0};
  Signature = Unit {0};
  Response = Unit {0};
  build = got tt;
  get_url = λ url. got tt;
  json = λ response. got (obj (field "tag_name" (str "v0.1.21") end));
  bytes = λ response. got [];
  error_for_status = λ response. got tt;
  hex_decode = hex;
  key_from_bytes = λ bytes. some tt;
  signature_from_slice = λ bytes. some tt;
  verify_strict = λ key message signature. true;
  parse = λ bytes. got null;
  to_vec = λ value. [];
  parse_manifest = λ bytes. got manifest;
  sha256 = λ bytes. zeros;
}

offered :
    check_for_update crates "aa" "x86_64-unknown-linux-gnu" "0.1.9"
    ≡ update_available "0.1.21" linux
unfolding check_for_update or_fail is_newer_version parts collect split_dots core strip_v
    compare_from part verify_manifest_signature of_length judge_manifest parsed unsigned
    find_artifact offer parse_u64 digits newer_parts both prepend get as_str get_field
    strip_prefix_v
offered = refl

check_for_update-available_example :
    (release : Json) × (raw : List ℕ) × Served crates release raw
    × (is_newer_version (codes "0.1.9") (codes (latest_of release)) ≡ true)
    × Vouched crates "aa" "x86_64-unknown-linux-gnu" raw "0.1.21" linux
check_for_update-available_example =
    check_for_update-available crates "aa" "x86_64-unknown-linux-gnu" "0.1.9" "0.1.21" linux offered

written : download_and_verify crates linux ≡ ok []
unfolding download_and_verify or_stop bytes_eq
written = refl
