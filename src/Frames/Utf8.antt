-- ===== src/Frames/Utf8.antt =====
-- `str::from_utf8` of Rust's standard library: the characters of bytes that are well formed.
use synth_hires_bridge.Prelude.{
  ℕ, zero, suc, ◌+◌, ◌*◌, ◌%◌, ◌≤◌, ◌≡◌, refl, Option, none, some, List, [], ◌∷◌, if◌then◌else◌,
  ◌==◌, take, All, arith,
}
use synth_hires_bridge.Fs.Text.{width, followers, tails}

unfoldable pub with_tail : ℕ → List ℕ → ℕ
with_tail acc [] = acc
with_tail acc (b ∷ bytes) = with_tail (acc * 64 + b % 64) bytes

-- The character of a sequence, by its first byte and the bytes behind it.
unfoldable pub scalar : ℕ → List ℕ → ℕ
scalar a bytes =
    if width a == 1
    then a
    else if width a == 2
    then with_tail (a % 32) bytes
    else if width a == 3
    then with_tail (a % 16) bytes
    else with_tail (a % 8) bytes

unfoldable pub put_before : ℕ → Option (List ℕ) → Option (List ℕ)
put_before c none = none
put_before c (some text) = some (c ∷ text)

-- The first argument counts the bytes of the present character that are still to be skipped.
unfoldable pub chars_from : ℕ → List ℕ → Option (List ℕ)
chars_from skip [] = some []
chars_from (suc skip) (b ∷ bytes) = chars_from skip bytes
chars_from zero (b ∷ bytes) =
    let more = followers b bytes in
    let rest = chars_from more bytes in
    if suc more == width b then put_before (scalar b (take more bytes)) rest else none

unfoldable pub from_utf8 : List ℕ → Option (List ℕ)
from_utf8 bytes = chars_from 0 bytes

abbrev pub Ascii : ℕ → Type 0
Ascii b = b ≤ 127

width-Ascii : (b : ℕ) → Ascii b → width b ≡ 1
unfolding width
width-Ascii b h = ground arith

followers-Ascii : (b : ℕ) (bytes : List ℕ) → Ascii b → followers b bytes ≡ 0
unfolding followers tails
followers-Ascii b [] h = refl
followers-Ascii b (c ∷ bytes) h = rw (width-Ascii b h) (ground arith)

-- ASCII bytes are their characters.
pub from_utf8-Ascii : (bytes : List ℕ) → All Ascii bytes → from_utf8 bytes ≡ some bytes
unfolding from_utf8 chars_from put_before scalar
from_utf8-Ascii [] h = refl
from_utf8-Ascii (b ∷ bytes) h =
    rw (followers-Ascii b bytes h.0, width-Ascii b h.0, from_utf8-Ascii bytes h.1) refl
