-- ===== src/Pairing.antt =====
-- Pairing: apps/desktop-daemon/crates/daemon-core/src/pairing.rs.
--
-- A text is the list of its code points. `complete` acts on the requests that left for the backend
-- and on the keyring; the HTTP client, the keyring of the operating system and the JSON codec are
-- third-party code, and their answers are the fields of `Answers`.
pub mod Complete
pub mod Address
pub mod Safe
pub mod Endpoint
mod Tests
use synth_hires_bridge.Prelude.{
  ℕ, String, Bool, true, false, not, ◌&&◌, ◌||◌, Option, none, some, List, [], ◌∷◌, ◌++◌, any,
  reverse, if◌then◌else◌, ◌==◌, drop, length,
}
use synth_hires_bridge.Prelude.Text.{
  codes, bytes_eq, has_prefix, replace, split, trim, between, to_ascii_lowercase,
}

pub data UrlError : Type 0 where
  empty no_scheme bad_scheme no_host userinfo not_loopback bad_characters : UrlError

pub data UrlCheck : Type 0 where
  accepted : UrlCheck
  rejected : UrlError → UrlCheck

abbrev pub scheme_end : List ℕ
scheme_end = codes "://"

unfoldable pub before_all : ℕ → Option (List ℕ × List ℕ) → Option (List ℕ × List ℕ)
before_all c none = none
before_all c (some (head, tail)) = some (c ∷ head, tail)

-- `split_once(separator)`, at the first place where it stands.
unfoldable pub split_once : List ℕ → List ℕ → Option (List ℕ × List ℕ)
unfolding before_all
split_once separator [] = none
split_once separator (c ∷ text) =
    let rest = split_once separator text in
    if has_prefix separator (c ∷ text)
    then some ([], drop (length separator) (c ∷ text))
    else before_all c rest

unfoldable pub is_one_of : List ℕ → List String → Bool
is_one_of text names = any (λ n. bytes_eq (codes n) text) names

unfoldable pub first_piece : List (List ℕ) → List ℕ
first_piece [] = []
first_piece (piece ∷ rest) = piece

-- `rest.split('/').next().unwrap_or("")`
unfoldable pub authority_of : List ℕ → List ℕ
unfolding first_piece
authority_of rest = first_piece (split b'/' rest)

-- `authority.split(':').next().unwrap_or("")`
unfoldable pub host_of : List ℕ → List ℕ
unfolding first_piece
host_of authority = first_piece (split b':' authority)

unfoldable pub is_loopback : List ℕ → Bool
unfolding is_one_of
is_loopback host = is_one_of host ("localhost" ∷ "127.0.0.1" ∷ "::1" ∷ "[::1]" ∷ [])

-- `char::is_control`
unfoldable pub is_control : ℕ → Bool
unfolding between
is_control c = between 0 31 c || between 127 159 c

unfoldable pub bad_character : ℕ → Bool
bad_character c = is_control c || (c == b' ')

-- From the scheme on; `b` is the trimmed address.
unfoldable pub check_scheme : List ℕ → Option (List ℕ × List ℕ) → UrlCheck
unfolding is_one_of
check_scheme b none = rejected no_scheme
check_scheme b (some (scheme, rest)) =
    let authority = authority_of rest in
    if not (is_one_of scheme ("https" ∷ "wss" ∷ "http" ∷ "ws" ∷ []))
    then rejected bad_scheme
    else if bytes_eq authority []
    then rejected no_host
    else if any (λ c. c == b'@') authority
    then rejected userinfo
    else if is_one_of scheme ("http" ∷ "ws" ∷ []) && not (is_loopback (host_of authority))
    then rejected not_loopback
    else if any bad_character b
    then rejected bad_characters
    else accepted

unfoldable pub validate_backend_url : List ℕ → UrlCheck
unfolding check_scheme
validate_backend_url backend =
    let b = trim backend in
    if bytes_eq b []
    then rejected empty
    else check_scheme b (split_once scheme_end (to_ascii_lowercase b))

unfoldable pub drop_while_eq : ℕ → List ℕ → List ℕ
drop_while_eq x [] = []
drop_while_eq x (c ∷ text) = let rest = drop_while_eq x text in if c == x then rest else c ∷ text

-- `trim_end_matches`, of one character
unfoldable pub trim_end_matches : ℕ → List ℕ → List ℕ
unfolding drop_while_eq
trim_end_matches x text = reverse (drop_while_eq x (reverse text))

unfoldable pub ends_with : List ℕ → List ℕ → Bool
ends_with suffix text = has_prefix (reverse suffix) (reverse text)

-- `replace("https://", "wss://").replace("http://", "ws://")`
unfoldable pub to_ws : List ℕ → List ℕ
to_ws url =
    replace (codes "http://") (codes "ws://") (replace (codes "https://") (codes "wss://") url)

unfoldable pub is_ws : List ℕ → Bool
is_ws url = has_prefix (codes "ws://") url || has_prefix (codes "wss://") url

unfoldable pub ws_endpoint_for_origin : List ℕ → List ℕ → List ℕ
unfolding is_ws to_ws trim_end_matches ends_with
ws_endpoint_for_origin backend_origin ws_path =
    let trimmed = trim_end_matches b'/' backend_origin in
    if is_ws ws_path
    then ws_path
    else if is_ws backend_origin
    then backend_origin
    else if ends_with ws_path trimmed
    then to_ws trimmed
    else to_ws trimmed ++ ws_path
