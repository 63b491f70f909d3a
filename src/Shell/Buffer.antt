-- ===== src/Shell/Buffer.antt =====
-- How much of a stream shell.rs keeps: `push_capped`.
use synth_hires_bridge.Prelude.{
  ◌+◌, ◌*◌, ◌≤◌, ◌<◌, ◌-◌, Bool, true, ℕ, ◌≡◌, refl, ◌⊎◌, inl, inr, List, ◌++◌, arith, take,
  Bool-cases, leb, ltb, ltb-false,
}
use synth_hires_bridge.Prelude.Chars.{
  len_utf8, utf8_len, utf8_len-append, utf8_len-take-le, utf8_len-take-ge,
}
use synth_hires_bridge.Shell.{max_output_bytes, push_capped, truncation_marker}

marker_len : utf8_len truncation_marker ≡ 44
unfolding utf8_len len_utf8 truncation_marker
marker_len = refl

-- The text that fits behind a buffer by the count of characters, and the marker.
abbrev pub cut : List ℕ → List ℕ → List ℕ
cut buf text = buf ++ (take (max_output_bytes - utf8_len buf) text ++ truncation_marker)

pub utf8_len-cut :
    (buf text : List ℕ)
    → utf8_len (cut buf text) ≤ utf8_len buf + 4 * (max_output_bytes - utf8_len buf) + 44
utf8_len-cut buf text =
    let room = max_output_bytes - utf8_len buf in
    let whole : utf8_len (cut buf text)
        ≡ utf8_len buf + utf8_len (take room text ++ truncation_marker) =
      utf8_len-append buf (take room text ++ truncation_marker) in
    omega (
      arith,
      whole,
      marker_len,
      utf8_len-append (take room text) truncation_marker,
      utf8_len-take-le room text,
    )

-- Where the text does not fit, the limit is reached.
pub utf8_len-cut-ge :
    (buf text : List ℕ)
    → max_output_bytes < utf8_len buf + utf8_len text
    → max_output_bytes ≤ utf8_len (cut buf text)
utf8_len-cut-ge buf text h =
    let room = max_output_bytes - utf8_len buf in
    let whole : utf8_len (cut buf text)
        ≡ utf8_len buf + utf8_len (take room text ++ truncation_marker) =
      utf8_len-append buf (take room text ++ truncation_marker) in
    let parts = utf8_len-append (take room text) truncation_marker in
    elim (utf8_len-take-ge room text) [ inl all ↦ omega arith | inr many ↦ omega arith ]

pub push_capped-full :
    (buf text : List ℕ) (dropped : Bool)
    → max_output_bytes ≤ utf8_len buf
    → push_capped (buf, dropped) text ≡ (buf, true)
unfolding push_capped
push_capped-full buf text dropped h = ground arith

pub push_capped_cases :
    (buf text : List ℕ) (dropped : Bool)
    → ((utf8_len buf + utf8_len text ≤ max_output_bytes)
        × (push_capped (buf, dropped) text ≡ (buf ++ text, dropped)))
      ⊎ ((utf8_len buf < max_output_bytes)
          × (max_output_bytes < utf8_len buf + utf8_len text)
          × (push_capped (buf, dropped) text ≡ (cut buf text, true)))
      ⊎ ((max_output_bytes ≤ utf8_len buf) × (push_capped (buf, dropped) text ≡ (buf, true)))
unfolding push_capped
push_capped_cases buf text dropped = elim (Bool-cases (leb max_output_bytes (utf8_len buf))) [
  | inl full ↦ inr (inr (ground arith, rw full refl))
  | inr room ↦ elim (Bool-cases (ltb max_output_bytes (utf8_len buf + utf8_len text))) [
    | inl over ↦ inr (inl (ground arith, ground arith, rw (room, over) refl))
    | inr fits ↦
        inl (ltb-false max_output_bytes (utf8_len buf + utf8_len text) fits, rw (room, fits) refl)
  ]
]
