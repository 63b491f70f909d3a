-- ===== src/Pairing/Endpoint.antt =====
-- `ws_endpoint_for_origin` of pairing.rs may be run on its own output.
use mathlib.Core.List.{append-nil}
use synth_hires_bridge.Prelude.{
  ℕ, true, false, List, [], ◌++◌, ◌≡◌, refl, sym, ap, ◌∙◌, ◌⊎◌, inl, inr, Bool-cases,
}
use synth_hires_bridge.Prelude.Text.{codes, has_prefix, replace, replace_from}
use synth_hires_bridge.Pairing.{is_ws, to_ws, ends_with, trim_end_matches, ws_endpoint_for_origin}

-- An address without encryption or with it, of a web server.
abbrev pub HttpAddress : List ℕ → List ℕ → Type 0
HttpAddress url rest = (url ≡ codes "https://" ++ rest) ⊎ (url ≡ codes "http://" ++ rest)

to_ws-is_ws : (url rest more : List ℕ) → HttpAddress url rest → is_ws (to_ws url ++ more) ≡ true
unfolding is_ws to_ws replace replace_from has_prefix
to_ws-is_ws url rest more (inl e) = ap (λ u. is_ws (to_ws u ++ more)) e ∙ refl
to_ws-is_ws url rest more (inr e) = ap (λ u. is_ws (to_ws u ++ more)) e ∙ refl

is_ws-stays :
    (origin path : List ℕ)
    → is_ws origin ≡ true
    → is_ws path ≡ false
    → ws_endpoint_for_origin origin path ≡ origin
unfolding ws_endpoint_for_origin
is_ws-stays origin path h k = rw (k, h) refl

endpoint-is_ws :
    (origin path rest : List ℕ)
    → HttpAddress (trim_end_matches b'/' origin) rest
    → is_ws path ≡ false
    → is_ws (ws_endpoint_for_origin origin path) ≡ true
unfolding ws_endpoint_for_origin
endpoint-is_ws origin path rest h k = elim (Bool-cases (is_ws origin)) [
  | inl done ↦ rw (k, done) done
  | inr web ↦ elim (Bool-cases (ends_with path (trim_end_matches b'/' origin))) [
    | inl carried ↦
        rw (k, web, carried)
          (ap is_ws (sym (append-nil (to_ws (trim_end_matches b'/' origin))))
            ∙ to_ws-is_ws (trim_end_matches b'/' origin) rest [] h)
    | inr bare ↦ rw (k, web, bare) (to_ws-is_ws (trim_end_matches b'/' origin) rest path h)
  ]
]

path-stays : (origin path : List ℕ) → is_ws path ≡ true → ws_endpoint_for_origin origin path ≡ path
unfolding ws_endpoint_for_origin
path-stays origin path h = rw h refl

-- The endpoint of a web address, with or without encryption, is a fixed point: computed from itself it
-- is the same, so the path is never appended twice.
pub ws_endpoint_for_origin-idempotent :
    (origin path rest : List ℕ)
    → HttpAddress (trim_end_matches b'/' origin) rest
    → ws_endpoint_for_origin (ws_endpoint_for_origin origin path) path
      ≡ ws_endpoint_for_origin origin path
ws_endpoint_for_origin-idempotent origin path rest h = elim (Bool-cases (is_ws path)) [
  | inl absolute ↦
      path-stays (ws_endpoint_for_origin origin path) path absolute
      ∙ sym (path-stays origin path absolute)
  | inr relative ↦
      is_ws-stays (ws_endpoint_for_origin origin path) path
        (endpoint-is_ws origin path rest h relative) relative
]
