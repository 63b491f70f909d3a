-- ===== src/Fs.antt =====
-- File contents on the wire: `base64_encode` and `base64_decode` in
-- apps/desktop-daemon/crates/daemon-core/src/fs_ops.rs.
--
-- Bytes are numbers, below 256. Shifts are written as products, quotients and remainders, and an `|` of
-- values that share no bit as a sum.
pub mod RoundTrip
pub mod Text
pub mod Hashline
pub mod Splice
pub mod Ranges
pub mod Edits
pub mod Disk
pub mod Atomic
pub mod Ops
pub mod Writes
pub mod PatchLaws
pub mod Outcomes
pub mod Progress
mod PatchTests
use synth_hires_bridge.Prelude.{
  ℕ, zero, suc, ◌+◌, ◌*◌, ◌/◌, ◌%◌, Bool, true, false, not, Option, none, some, List, [], ◌∷◌, ◌++◌,
  if◌then◌else◌, ◌==◌, any, retain,
}
use synth_hires_bridge.Prelude.Text.{codes}

abbrev pub alphabet : List ℕ
alphabet = codes "ABCDEFGHIJKLMNOPQRSTUVWXYZabcdefghijklmnopqrstuvwxyz0123456789+/"

-- `ALPHABET[v]`; every index in the code is below 64, where the list has its element.
unfoldable pub nth : ℕ → List ℕ → ℕ
nth v [] = 0
nth zero (x ∷ xs) = x
nth (suc v) (x ∷ xs) = nth v xs

unfoldable pub next : Option ℕ → Option ℕ
next none = none
next (some v) = some (suc v)

-- `table[b]`, with none for 255.
unfoldable pub position : ℕ → List ℕ → Option ℕ
unfolding next
position b [] = none
position b (x ∷ xs) = if x == b then some 0 else next (position b xs)

abbrev pub symbol : ℕ → ℕ
symbol v = nth v alphabet

unfoldable pub base64_encode : List ℕ → List ℕ
base64_encode [] = []
base64_encode (a ∷ []) =
    let n = a * 65536 in symbol (n / 262144 % 64) ∷ symbol (n / 4096 % 64) ∷ b'=' ∷ b'=' ∷ []
base64_encode (a ∷ b ∷ []) =
    let n = a * 65536 + b * 256 in
    symbol (n / 262144 % 64) ∷ symbol (n / 4096 % 64) ∷ symbol (n / 64 % 64) ∷ b'=' ∷ []
base64_encode (a ∷ b ∷ c ∷ bytes) =
    let n = a * 65536 + b * 256 + c in
    symbol (n / 262144 % 64)
    ∷ symbol (n / 4096 % 64)
    ∷ symbol (n / 64 % 64)
    ∷ symbol (n % 64)
    ∷ base64_encode bytes

unfoldable pub is_space : ℕ → Bool
is_space b = any (λ s. s == b) (codes " \t\r\n")

abbrev pub first_byte : ℕ → ℕ → ℕ
first_byte x y = x * 4 % 256 + y / 16

abbrev pub second_byte : ℕ → ℕ → ℕ
second_byte y z = y * 16 % 256 + z / 4

abbrev pub third_byte : ℕ → ℕ → ℕ
third_byte z w = z * 64 % 256 + w

-- The `match filled` after the loop, on what the chunk holds.
unfoldable pub finish : List ℕ → Option (List ℕ)
finish [] = some []
finish (x ∷ y ∷ []) = some (first_byte x y ∷ [])
finish (x ∷ y ∷ z ∷ []) = some (first_byte x y ∷ second_byte y z ∷ [])
finish _ = none

unfoldable pub emit : List ℕ → Option (List ℕ) → Option (List ℕ)
emit bytes none = none
emit bytes (some rest) = some (bytes ++ rest)

-- The chunk takes one more value, which completes it after three.
unfoldable pub fill : List ℕ → Option ℕ → (List ℕ → Option (List ℕ)) → Option (List ℕ)
unfolding emit
fill chunk none rest = none
fill (x ∷ y ∷ z ∷ []) (some w) rest =
    emit (first_byte x y ∷ second_byte y z ∷ third_byte z w ∷ []) (rest [])
fill chunk (some v) rest = rest (chunk ++ v ∷ [])

-- The loop over the bytes.
unfoldable pub decode_from : List ℕ → List ℕ → Option (List ℕ)
unfolding fill finish
decode_from chunk [] = finish chunk
decode_from chunk (b ∷ bytes) =
    if b == b'='
    then finish chunk
    else fill chunk (position b alphabet) (λ filled. decode_from filled bytes)

unfoldable pub base64_decode : List ℕ → Option (List ℕ)
base64_decode input = decode_from [] (retain (λ b. not (is_space b)) input)
