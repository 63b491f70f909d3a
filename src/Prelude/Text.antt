-- ===== src/Prelude/Text.antt =====
-- Texts as the bytes that the code walks, and the ASCII operations of Rust's `str` and `[u8]`.
use Prim.Native.Char.{code}
use Prim.Native.String.{String}
use Prim.Native.Nat.{ℕ, zero, suc, ◌+◌, ◌-◌}
use mathlib.Core.Path.{◌≡◌, refl}
use mathlib.Core.Bool.{Bool, true, false, ◌&&◌, ◌||◌}
use mathlib.Core.Logic.{◌↔◌}
use mathlib.Core.List.{List, [], ◌∷◌, ◌++◌, map, reverse}
use native.Mathlib.Omega.{arith}
use synth_hires_bridge.Prelude.Tests.{leb, ◌==◌, if◌then◌else◌}
use synth_hires_bridge.Prelude.Lists.{length, any}

-- The code points of a text, which are its bytes where it is ASCII.
abbrev pub codes : String → List ℕ
codes String.[] = []
codes (String.◌∷◌ c s) = code c ∷ codes s

-- `u8::to_ascii_lowercase`, on a code point.
unfoldable pub to_lower : ℕ → ℕ
to_lower c = if leb b'A' c && leb c b'Z' then c + 32 else c

-- `to_ascii_lowercase` of a text.
abbrev pub to_ascii_lowercase : List ℕ → List ℕ
to_ascii_lowercase = map to_lower

-- Equality of two byte strings.
unfoldable pub bytes_eq : List ℕ → List ℕ → Bool
bytes_eq [] [] = true
bytes_eq [] (y ∷ ys) = false
bytes_eq (x ∷ xs) [] = false
bytes_eq (x ∷ xs) (y ∷ ys) = (x == y) && bytes_eq xs ys

pub bytes_eq_iff : (xs ys : List ℕ) → (bytes_eq xs ys ≡ true) ↔ (xs ≡ ys)
unfolding bytes_eq
bytes_eq_iff [] [] = ((λ _. refl), (λ _. refl))
bytes_eq_iff [] (y ∷ ys) = ((λ h. cc), (λ h. cc))
bytes_eq_iff (x ∷ xs) [] = ((λ h. cc), (λ h. cc))
bytes_eq_iff (x ∷ xs) (y ∷ ys) =
    ((λ h. ground (arith, bytes_eq_iff xs ys)), (λ h. ground (arith, bytes_eq_iff xs ys)))

-- `str::contains` and `starts_with` on bytes.
unfoldable pub has_prefix : List ℕ → List ℕ → Bool
has_prefix [] s = true
has_prefix (p ∷ ps) [] = false
has_prefix (p ∷ ps) (c ∷ s) = (p == c) && has_prefix ps s

-- `haystack.contains(needle)`
unfoldable pub contains : List ℕ → List ℕ → Bool
contains needle [] = has_prefix needle []
contains needle (c ∷ s) = has_prefix needle (c ∷ s) || contains needle s

-- `str::replace(from, to)` for a `from` that is not empty: left to right, without overlaps. The first
-- argument counts the bytes of the present match that are still to be skipped.
unfoldable pub replace_from : ℕ → List ℕ → List ℕ → List ℕ → List ℕ
replace_from skip old new [] = []
replace_from (suc skip) old new (c ∷ s) = replace_from skip old new s
replace_from zero old new (c ∷ s) =
    let found = has_prefix old (c ∷ s) in
    let rest = replace_from (if found then length old - 1 else 0) old new s in
    if found then new ++ rest else c ∷ rest

unfoldable pub replace : List ℕ → List ℕ → List ℕ → List ℕ
unfolding replace_from
replace old new s = replace_from 0 old new s

unfoldable pub between : ℕ → ℕ → ℕ → Bool
between low high b = leb low b && leb b high

-- A character in front of the first piece; no piece yet makes it one.
unfoldable pub onto_first : ℕ → List (List ℕ) → List (List ℕ)
onto_first b [] = (b ∷ []) ∷ []
onto_first b (line ∷ rest) = (b ∷ line) ∷ rest

-- `str::split` at one character.
unfoldable pub split : ℕ → List ℕ → List (List ℕ)
unfolding onto_first
split at [] = [] ∷ []
split at (c ∷ text) = let rest = split at text in if c == at then [] ∷ rest else onto_first c rest

-- `char::is_whitespace`
unfoldable pub is_whitespace : ℕ → Bool
unfolding between
is_whitespace c =
    between 9 13 c
    || between 0x2000 0x200A c
    || any (λ w. w == c)
        (32 ∷ 0x85 ∷ 0xA0 ∷ 0x1680 ∷ 0x2028 ∷ 0x2029 ∷ 0x202F ∷ 0x205F ∷ 0x3000 ∷ [])

unfoldable pub trim_start : List ℕ → List ℕ
trim_start [] = []
trim_start (c ∷ text) = let rest = trim_start text in if is_whitespace c then rest else c ∷ text

unfoldable pub trim : List ℕ → List ℕ
unfolding trim_start
trim text = reverse (trim_start (reverse (trim_start text)))
