-- ===== src/Fs/RoundTrip.antt =====
-- `base64_decode` undoes `base64_encode`: fs_ops.rs.
use synth_hires_bridge.Prelude.{
  ℕ, zero, suc, ◌+◌, ◌*◌, ◌/◌, ◌%◌, ◌<◌, Bool, true, false, not, ◌&&◌, ◌≡◌, refl, ◌≢◌, some, List,
  [], ◌∷◌, arith, if◌then◌else◌, ◌==◌, retain, all, All, length, ◌∙◌, ap,
}
use synth_hires_bridge.Fs.{
  alphabet, nth, next, position, symbol, base64_encode, is_space, first_byte, second_byte,
  third_byte, finish, emit, fill, decode_from, base64_decode,
}

-- Every entry occurs once.
distinct : List ℕ → Bool
distinct [] = true
distinct (x ∷ xs) = all (λ y. not (y == x)) xs && distinct xs

nth-differs :
    (v x : ℕ) (xs : List ℕ) → all (λ y. not (y == x)) xs ≡ true → v < length xs → nth v xs ≢ x
unfolding nth
nth-differs v x [] h k = absurd (omega arith)
nth-differs zero x (y ∷ ys) h k = ground arith
nth-differs (suc v) x (y ∷ ys) h k = nth-differs v x ys (ground arith) (omega arith)

position-nth :
    (v : ℕ) (xs : List ℕ) → distinct xs ≡ true → v < length xs → position (nth v xs) xs ≡ some v
unfolding nth position next distinct
position-nth v [] h k = absurd (omega arith)
position-nth zero (x ∷ xs) h k = ground arith
position-nth (suc v) (x ∷ xs) h k =
    let rest = position-nth v xs (ground arith) (omega arith) in
    let other = nth-differs v x xs (ground arith) (omega arith) in ground arith

alphabet-distinct : distinct alphabet ≡ true
unfolding distinct
alphabet-distinct = refl

position-symbol : (v : ℕ) → v < 64 → position (symbol v) alphabet ≡ some v
position-symbol v h = position-nth v alphabet alphabet-distinct h

nth-plain :
    (v : ℕ) (xs : List ℕ)
    → all (λ y. not (is_space y) && not (y == b'=')) xs ≡ true
    → v < length xs
    → (is_space (nth v xs) ≡ false) × ((nth v xs == b'=') ≡ false)
unfolding nth
nth-plain v [] h k = absurd (omega arith)
nth-plain zero (y ∷ ys) h k = (ground arith, ground arith)
nth-plain (suc v) (y ∷ ys) h k = nth-plain v ys (ground arith) (omega arith)

alphabet-plain : all (λ y. not (is_space y) && not (y == b'=')) alphabet ≡ true
unfolding is_space
alphabet-plain = refl

symbol-plain : (v : ℕ) → v < 64 → (is_space (symbol v) ≡ false) × ((symbol v == b'=') ≡ false)
symbol-plain v h = nth-plain v alphabet alphabet-plain h

decode_from-value :
    (chunk : List ℕ) (b v : ℕ) (bytes : List ℕ)
    → (b == b'=') ≡ false
    → position b alphabet ≡ some v
    → decode_from chunk (b ∷ bytes) ≡ fill chunk (some v) (λ filled. decode_from filled bytes)
unfolding decode_from
decode_from-value chunk b v bytes h k =
    ap
      (λ t.
        if t
        then finish chunk
        else fill chunk (position b alphabet) (λ filled. decode_from filled bytes))
      h
    ∙ ap (λ o. fill chunk o (λ filled. decode_from filled bytes)) k

decode_from-symbol :
    (chunk : List ℕ) (v : ℕ) (bytes : List ℕ)
    → v < 64
    → decode_from chunk (symbol v ∷ bytes)
      ≡ fill chunk (some v) (λ filled. decode_from filled bytes)
decode_from-symbol chunk v bytes h =
    decode_from-value chunk (symbol v) v bytes (symbol-plain v h).1 (position-symbol v h)

retain-kept :
    (b : ℕ) (bytes : List ℕ)
    → is_space b ≡ false
    → retain (λ c. not (is_space c)) (b ∷ bytes) ≡ b ∷ retain (λ c. not (is_space c)) bytes
retain-kept b bytes h =
    let rest = retain (λ c. not (is_space c)) bytes in ap (λ t. if not t then b ∷ rest else rest) h

-- A byte that the decoder does not skip.
abbrev Shown : ℕ → Type 0
Shown b = is_space b ≡ false

retain-Shown : (bytes : List ℕ) → All Shown bytes → retain (λ b. not (is_space b)) bytes ≡ bytes
retain-Shown [] h = refl
retain-Shown (b ∷ bytes) h = retain-kept b bytes h.0 ∙ ap (λ xs. b ∷ xs) (retain-Shown bytes h.1)

padding-Shown : Shown b'='
unfolding is_space
padding-Shown = refl

-- A whole group of four symbols.
decode_from-group :
    (x y z w : ℕ) (bytes : List ℕ)
    → x < 64
    → y < 64
    → z < 64
    → w < 64
    → decode_from [] (symbol x ∷ symbol y ∷ symbol z ∷ symbol w ∷ bytes)
      ≡ emit (first_byte x y ∷ second_byte y z ∷ third_byte z w ∷ []) (decode_from [] bytes)
unfolding fill
decode_from-group x y z w bytes hx hy hz hw =
    decode_from-symbol [] x (symbol y ∷ symbol z ∷ symbol w ∷ bytes) hx
    ∙ decode_from-symbol (x ∷ []) y (symbol z ∷ symbol w ∷ bytes) hy
    ∙ decode_from-symbol (x ∷ y ∷ []) z (symbol w ∷ bytes) hz
    ∙ decode_from-symbol (x ∷ y ∷ z ∷ []) w bytes hw

-- Sextets of the 24 bits of a group.
abbrev sextet : ℕ → ℕ → ℕ
sextet n place = n / place % 64

sextet-lt : (n place : ℕ) → sextet n place < 64
sextet-lt n place = omega arith

low-lt : (n : ℕ) → n % 64 < 64
low-lt n = omega arith

-- A byte.
abbrev pub IsByte : ℕ → Type 0
IsByte b = b < 256

-- The sextets of three bytes give the bytes back.
group-bytes :
    (a b c : ℕ)
    → IsByte a
    → IsByte b
    → IsByte c
    → let n = a * 65536 + b * 256 + c in
      (first_byte (sextet n 262144) (sextet n 4096) ≡ a)
      × (second_byte (sextet n 4096) (sextet n 64) ≡ b)
      × (third_byte (sextet n 64) (n % 64) ≡ c)
group-bytes a b c h k l = (omega arith, omega arith, omega arith)

sextet-Shown : (n place : ℕ) → Shown (symbol (sextet n place))
sextet-Shown n place = (symbol-plain (sextet n place) (sextet-lt n place)).0

-- The encoder writes no white space.
base64_encode-Shown : (bytes : List ℕ) → All Shown (base64_encode bytes)
unfolding base64_encode
base64_encode-Shown [] = tt
base64_encode-Shown (a ∷ []) =
    let n = a * 65536 in
    (sextet-Shown n 262144, (sextet-Shown n 4096, (padding-Shown, (padding-Shown, tt))))
base64_encode-Shown (a ∷ b ∷ []) =
    let n = a * 65536 + b * 256 in
    (sextet-Shown n 262144, (sextet-Shown n 4096, (sextet-Shown n 64, (padding-Shown, tt))))
base64_encode-Shown (a ∷ b ∷ c ∷ bytes) =
    let n = a * 65536 + b * 256 + c in
    (
      sextet-Shown n 262144,
      (
        sextet-Shown n 4096,
        (sextet-Shown n 64, ((symbol-plain (n % 64) (low-lt n)).0, base64_encode-Shown bytes)),
      ),
    )

padded : (chunk bytes : List ℕ) → decode_from chunk (b'=' ∷ bytes) ≡ finish chunk
unfolding decode_from
padded chunk bytes = refl

decode_from-base64_encode :
    (bytes : List ℕ) → All IsByte bytes → decode_from [] (base64_encode bytes) ≡ some bytes
unfolding base64_encode fill finish
decode_from-base64_encode [] h = unfold decode_from in refl
decode_from-base64_encode (a ∷ []) (h, rest) =
    let n = a * 65536 in
    let x = sextet n 262144 in
    let y = sextet n 4096 in
    decode_from-symbol [] x (symbol y ∷ b'=' ∷ b'=' ∷ []) (sextet-lt n 262144)
    ∙ decode_from-symbol (x ∷ []) y (b'=' ∷ b'=' ∷ []) (sextet-lt n 4096)
    ∙ padded (x ∷ y ∷ []) (b'=' ∷ [])
    ∙ ap (λ v. some (v ∷ [])) (omega arith)
decode_from-base64_encode (a ∷ b ∷ []) (h, (k, rest)) =
    let n = a * 65536 + b * 256 in
    let x = sextet n 262144 in
    let y = sextet n 4096 in
    let z = sextet n 64 in
    let ea : first_byte x y ≡ a = omega arith in
    let eb : second_byte y z ≡ b = omega arith in
    decode_from-symbol [] x (symbol y ∷ symbol z ∷ b'=' ∷ []) (sextet-lt n 262144)
    ∙ decode_from-symbol (x ∷ []) y (symbol z ∷ b'=' ∷ []) (sextet-lt n 4096)
    ∙ decode_from-symbol (x ∷ y ∷ []) z (b'=' ∷ []) (sextet-lt n 64)
    ∙ padded (x ∷ y ∷ z ∷ []) []
    ∙ cc (ea, eb)
decode_from-base64_encode (a ∷ b ∷ c ∷ bytes) (h, (k, (l, rest))) =
    let n = a * 65536 + b * 256 + c in
    let (ea, eb, ec) = group-bytes a b c h k l in
    decode_from-group (sextet n 262144) (sextet n 4096) (sextet n 64) (n % 64) (base64_encode bytes)
      (sextet-lt n 262144) (sextet-lt n 4096) (sextet-lt n 64) (low-lt n)
    ∙ ap
        (emit (
          first_byte (sextet n 262144) (sextet n 4096)
          ∷ second_byte (sextet n 4096) (sextet n 64)
          ∷ third_byte (sextet n 64) (n % 64)
          ∷ []))
        (decode_from-base64_encode bytes rest)
    ∙ unfold emit in cc (ea, eb, ec)

-- Decoding what was encoded gives the bytes back.
pub base64_decode-base64_encode :
    (bytes : List ℕ) → All IsByte bytes → base64_decode (base64_encode bytes) ≡ some bytes
unfolding base64_decode
base64_decode-base64_encode bytes h =
    ap (λ xs. decode_from [] xs) (retain-Shown (base64_encode bytes) (base64_encode-Shown bytes))
    ∙ decode_from-base64_encode bytes h
