-- ===== src/Fs/Text.antt =====
-- The text operations of Rust's standard library that `patch` and `annotate_content` of fs_ops.rs use.
--
-- A text is its UTF-8 bytes, as a file has them; the hashes of a request are code points.
use synth_hires_bridge.Prelude.Text.{between, onto_first}
use synth_hires_bridge.Prelude.{
  ℕ, zero, suc, ◌-◌, Bool, false, ◌&&◌, List, [], ◌∷◌, ◌++◌, take, if◌then◌else◌, leb, ◌==◌,
}

-- Line feed and carriage return.
abbrev pub lf : ℕ
lf = 10

abbrev pub cr : ℕ
cr = 13

-- The number of leading bytes, up to a bound, that continue a character.
unfoldable pub tails : ℕ → List ℕ → ℕ
unfolding between
tails zero bytes = 0
tails (suc n) [] = 0
tails (suc n) (b ∷ bytes) = let rest = tails n bytes in if between 128 191 b then suc rest else 0

-- The second byte that may follow the first byte of a character of three or four bytes.
unfoldable pub second_ok : ℕ → ℕ → Bool
unfolding between
second_ok a b =
    if a == 0xE0
    then between 0xA0 0xBF b
    else if a == 0xED
    then between 0x80 0x9F b
    else if a == 0xF0
    then between 0x90 0xBF b
    else if a == 0xF4
    then between 0x80 0x8F b
    else between 0x80 0xBF b

-- How many bytes a character has that starts with this one; none at all starts with the others.
unfoldable pub width : ℕ → ℕ
unfolding between
width a =
    if leb a 127
    then 1
    else if between 0xC2 0xDF a
    then 2
    else if between 0xE0 0xEF a
    then 3
    else if between 0xF0 0xF4 a
    then 4
    else 0

-- The bytes behind the first that belong to its character, or to the broken start of one.
unfoldable pub followers : ℕ → List ℕ → ℕ
unfolding second_ok width tails
followers a [] = 0
followers a (b ∷ bytes) = if second_ok a b then tails (width a - 1) (b ∷ bytes) else 0

-- `String::from_utf8_lossy`: each broken sequence becomes one U+FFFD. The first argument counts the
-- bytes of the present sequence that are still to be skipped.
unfoldable pub lossy_from : ℕ → List ℕ → List ℕ
unfolding followers width
lossy_from skip [] = []
lossy_from (suc skip) (b ∷ bytes) = lossy_from skip bytes
lossy_from zero (b ∷ bytes) =
    let more = followers b bytes in
    let rest = lossy_from more bytes in
    if suc more == width b then b ∷ take more bytes ++ rest else 0xEF ∷ 0xBF ∷ 0xBD ∷ rest

unfoldable pub from_utf8_lossy : List ℕ → List ℕ
unfolding lossy_from
from_utf8_lossy bytes = lossy_from 0 bytes

-- `str::lines`: a line ends with a line feed, which is dropped with a carriage return before it; the
-- last one needs no line feed.
unfoldable pub lines : List ℕ → List (List ℕ)
unfolding onto_first
lines [] = []
lines (b ∷ []) = if b == lf then [] ∷ [] else (b ∷ []) ∷ []
lines (b ∷ c ∷ text) =
    let rest = lines (c ∷ text) in
    if b == lf then [] ∷ rest else if (b == cr) && (c == lf) then rest else onto_first b rest

-- `lines.join("\n")`
unfoldable pub join : List (List ℕ) → List ℕ
join [] = []
join (line ∷ []) = line
join (line ∷ next ∷ rest) = line ++ lf ∷ join (next ∷ rest)

unfoldable pub ends_with : ℕ → List ℕ → Bool
ends_with x [] = false
ends_with x (b ∷ []) = b == x
ends_with x (b ∷ c ∷ bytes) = ends_with x (c ∷ bytes)
