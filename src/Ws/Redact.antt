-- ===== src/Ws/Redact.antt =====
-- `redact_audit_params` of ws_client.rs: what of an action's parameters reaches the audit log.
--
-- The source then prints the value (`serde_json::to_string`, of a third-party crate); the model stops
-- at the value. An object keeps the order of its keys.
use Prim.Native.Char.{code}
use Prim.Native.String.{◌++◌}
use synth_hires_bridge.Prelude.{
  ℕ, zero, suc, ◌+◌, ◌/◌, ◌%◌, String, Bool, not, ◌||◌, List, [], ◌∷◌, reverse, any, retain, ltb,
  ◌==◌, if◌then◌else◌,
}
use synth_hires_bridge.Prelude.Chars.{len_utf8}
use synth_hires_bridge.Prelude.Text.{codes, to_ascii_lowercase, bytes_eq, has_prefix}
use synth_hires_bridge.Protocol.{
  Json, Items, Fields, null, bool, num, str, arr, obj, nil, cons, end, field,
}

abbrev pub sensitive : List String
sensitive =
    "content" ∷ "content_base64" ∷ "replacement" ∷ "replacementcontent" ∷ "targetcontent" ∷ "code"
    ∷ "command" ∷ "token" ∷ "password" ∷ "secret" ∷ "apikey" ∷ "api_key" ∷ "authorization"
    ∷ "cookie" ∷ "body" ∷ "headers" ∷ "stdout" ∷ "stderr" ∷ "output" ∷ "diff" ∷ []

-- `str::ends_with`
unfoldable pub ends_with : List ℕ → List ℕ → Bool
ends_with text suffix = has_prefix (reverse suffix) (reverse text)

-- `k.to_ascii_lowercase().replace(['_', '-'], "")`
unfoldable pub normal_key : String → List ℕ
normal_key k = retain (λ c. not (c == b'_' || c == b'-')) (to_ascii_lowercase (codes k))

unfoldable pub key_matches : List ℕ → String → Bool
key_matches kl s = bytes_eq kl (codes s) || ends_with kl (codes s)

unfoldable pub is_sensitive : String → Bool
is_sensitive k = let kl = normal_key k in any (key_matches kl) sensitive

-- `str::len`
unfoldable pub byte_len : String → ℕ
byte_len String.[] = 0
byte_len (String.◌∷◌ c s) = len_utf8 (code c) + byte_len s

-- `chars().count()`
unfoldable pub char_count : String → ℕ
char_count String.[] = 0
char_count (String.◌∷◌ c s) = suc (char_count s)

-- `s.get(..cut)`: the characters that begin before byte 500. The first argument is where `s` begins.
unfoldable pub kept_prefix : ℕ → String → String
kept_prefix at String.[] = ""
kept_prefix at (String.◌∷◌ c s) =
    let rest = kept_prefix (at + len_utf8 (code c)) s in
    if ltb at 500 then String.◌∷◌ c rest else ""

unfoldable pub digit : ℕ → String
digit d =
    if d == 0
    then "0"
    else if d == 1
    then "1"
    else if d == 2
    then "2"
    else if d == 3
    then "3"
    else if d == 4
    then "4"
    else if d == 5
    then "5"
    else if d == 6
    then "6"
    else if d == 7
    then "7"
    else if d == 8
    then "8"
    else "9"

-- A number in decimal, with as many digits as the first argument at most.
unfoldable pub decimal : ℕ → ℕ → String
decimal zero n = ""
decimal (suc room) n =
    let high = decimal room (n / 10) in if ltb n 10 then digit n else high ++ digit (n % 10)

unfoldable pub redact_text : String → String
redact_text s =
    if ltb 500 (byte_len s)
    then (let count = char_count s in
        kept_prefix 0 s ++ ("…[truncated " ++ (decimal (suc count) count ++ " chars]")))
    else s

-- What stands under a key, given whether the key is sensitive.
unfoldable pub field_value : Bool → Json → Json
field_value hidden v = if hidden then str "[redacted]" else v

unfoldable mutual
  pub redact : Json → Json
  redact (obj fs) = obj (redact_fields fs)
  redact (arr xs) = arr (redact_items xs)
  redact (str s) = str (redact_text s)
  redact null = null
  redact (bool b) = bool b
  redact (num n) = num n

  pub redact_items : Items → Items
  redact_items nil = nil
  redact_items (cons v xs) = cons (redact v) (redact_items xs)

  pub redact_fields : Fields → Fields
  redact_fields end = end
  redact_fields (field k v fs) =
      field k (field_value (is_sensitive k) (redact v)) (redact_fields fs)
