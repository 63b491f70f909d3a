-- ===== src/Update/Versions.antt =====
-- Version numbers in autoupdate.rs: `is_newer_version`, on the code points of its texts.
use synth_hires_bridge.Prelude.{
  ℕ, zero, suc, ◌+◌, ◌-◌, ◌*◌, max, Bool, false, ◌&&◌, ◌||◌, Option, none, some, List, [], ◌∷◌,
  if◌then◌else◌, leb, ltb, ◌==◌, length,
}

-- `strip_prefix("v").unwrap_or(v)`
unfoldable pub strip_v : List ℕ → List ℕ
strip_v [] = []
strip_v (c ∷ s) = if c == b'v' then s else c ∷ s

-- `split(|c| c == '-' || c == '+').next()`
unfoldable pub core : List ℕ → List ℕ
core [] = []
core (c ∷ s) = let rest = core s in if (c == b'-') || (c == b'+') then [] else c ∷ rest

unfoldable pub prepend : ℕ → List (List ℕ) → List (List ℕ)
prepend c [] = (c ∷ []) ∷ []
prepend c (p ∷ ps) = (c ∷ p) ∷ ps

-- `split('.')`
unfoldable pub split_dots : List ℕ → List (List ℕ)
unfolding prepend
split_dots [] = [] ∷ []
split_dots (c ∷ s) = let rest = split_dots s in if c == b'.' then [] ∷ rest else prepend c rest

-- `str::parse::<u64>` on a text without a sign: digits, at least one, of a number of 64 bits.
unfoldable pub digits : ℕ → List ℕ → Option ℕ
digits n [] = some n
digits n (c ∷ s) =
    let next = n * 10 + (c - b'0') in
    let rest = digits next s in
    if leb b'0' c && leb c b'9' && ltb next 18446744073709551616 then rest else none

unfoldable pub parse_u64 : List ℕ → Option ℕ
unfolding digits
parse_u64 [] = none
parse_u64 (c ∷ s) = digits 0 (c ∷ s)

unfoldable pub both : Option ℕ → Option (List ℕ) → Option (List ℕ)
both (some n) (some ns) = some (n ∷ ns)
both _ _ = none

-- `map(parse).collect::<Option<Vec<_>>>()`
unfoldable pub collect : List (List ℕ) → Option (List ℕ)
unfolding both parse_u64
collect [] = some []
collect (p ∷ ps) = both (parse_u64 p) (collect ps)

unfoldable pub parts : List ℕ → Option (List ℕ)
parts v = collect (split_dots (core (strip_v v)))

-- `a.get(i).copied().unwrap_or(0)`
unfoldable pub part : List ℕ → ℕ → ℕ
part [] i = 0
part (x ∷ xs) zero = x
part (x ∷ xs) (suc i) = part xs i

-- The loop over `i..len`, of which `n` positions are left.
unfoldable pub compare_from : ℕ → ℕ → List ℕ → List ℕ → Bool
compare_from zero i a b = false
compare_from (suc n) i a b =
    let rest = compare_from n (suc i) a b in
    if part a i == part b i then rest else ltb (part a i) (part b i)

unfoldable pub newer_parts : Option (List ℕ) → Option (List ℕ) → Bool
newer_parts (some a) (some b) = compare_from (max (length a) (length b)) 0 a b
newer_parts _ _ = false

unfoldable pub is_newer_version : List ℕ → List ℕ → Bool
unfolding newer_parts
is_newer_version current latest = newer_parts (parts current) (parts latest)
