-- ===== src/Ws/Secrets.antt =====
-- What the audit log of ws_client.rs hides, and one name that it does not.
use Prim.Native.Char.{code}
use synth_hires_bridge.Prelude.{
  ℕ, ◌+◌, ◌≤◌, ◌<◌, String, Bool, true, false, ◌≡◌, refl, ◌⊎◌, inl, inr, ap, arith, ltb, ltb→lt,
  lt→ltb, ltb-false, Bool-cases,
}
use synth_hires_bridge.Prelude.Text.{codes, bytes_eq, has_prefix}
use synth_hires_bridge.Protocol.{
  Json, Items, Fields, null, bool, num, str, arr, obj, nil, cons, end, field,
}
use synth_hires_bridge.Prelude.Chars.{len_utf8}
use synth_hires_bridge.Ws.Redact.{
  normal_key, key_matches, ends_with, is_sensitive, byte_len, kept_prefix, field_value, redact,
  redact_items, redact_fields,
}

-- Wherever a key is sensitive, at any depth, its value is the placeholder.
abbrev mutual
  pub IsClean : Json → Type 0
  IsClean (obj fs) = AreClean fs
  IsClean (arr xs) = ItemsClean xs
  IsClean _ = Unit

  pub ItemsClean : Items → Type 0
  ItemsClean nil = Unit
  ItemsClean (cons v xs) = IsClean v × ItemsClean xs

  pub AreClean : Fields → Type 0
  AreClean end = Unit
  AreClean (field k v fs) =
      ((is_sensitive k ≡ false) ⊎ (v ≡ str "[redacted]")) × IsClean v × AreClean fs

-- The two values differ at most in what stands under sensitive keys.
abbrev mutual
  pub Agree : Json → Json → Type 0
  Agree (obj fs) (obj gs) = FieldsAgree fs gs
  Agree (arr xs) (arr ys) = ItemsAgree xs ys
  Agree v w = v ≡ w

  pub ItemsAgree : Items → Items → Type 0
  ItemsAgree nil nil = Unit
  ItemsAgree (cons v xs) (cons w ys) = Agree v w × ItemsAgree xs ys
  ItemsAgree _ _ = ⊥

  pub FieldsAgree : Fields → Fields → Type 0
  FieldsAgree end end = Unit
  FieldsAgree (field k v fs) (field j w gs) =
      (k ≡ j) × ((is_sensitive k ≡ true) ⊎ Agree v w) × FieldsAgree fs gs
  FieldsAgree _ _ = ⊥

value-IsClean :
    (b : Bool) (v : Json)
    → IsClean v
    → ((b ≡ false) ⊎ (field_value b v ≡ str "[redacted]")) × IsClean (field_value b v)
unfolding field_value
value-IsClean true v h = (inr refl, tt)
value-IsClean false v h = (inl refl, h)

value-Agree : (b : Bool) (v w : Json) → (b ≡ true) ⊎ (v ≡ w) → field_value b v ≡ field_value b w
unfolding field_value
value-Agree true v w h = refl
value-Agree false v w (inl e) = cc
value-Agree false v w (inr e) = e

mutual
  unfolding redact

  redact-IsClean : (v : Json) → IsClean (redact v)
  redact-IsClean (obj fs) = fields-AreClean fs
  redact-IsClean (arr xs) = items-ItemsClean xs
  redact-IsClean (str s) = tt
  redact-IsClean null = tt
  redact-IsClean (bool b) = tt
  redact-IsClean (num n) = tt

  items-ItemsClean : (xs : Items) → ItemsClean (redact_items xs)
  items-ItemsClean nil = tt
  items-ItemsClean (cons v xs) = (redact-IsClean v, items-ItemsClean xs)

  fields-AreClean : (fs : Fields) → AreClean (redact_fields fs)
  fields-AreClean end = tt
  fields-AreClean (field k v fs) =
      let (hidden, clean) = value-IsClean (is_sensitive k) (redact v) (redact-IsClean v) in
      (hidden, clean, fields-AreClean fs)

mutual
  unfolding redact

  redact-Agree : (v w : Json) → Agree v w → redact v ≡ redact w
  redact-Agree (obj fs) (obj gs) h = ap obj (fields-Agree fs gs h)
  redact-Agree (arr xs) (arr ys) h = ap arr (items-Agree xs ys h)
  redact-Agree v w h = ap redact h

  items-Agree : (xs ys : Items) → ItemsAgree xs ys → redact_items xs ≡ redact_items ys
  items-Agree nil nil h = refl
  items-Agree (cons v xs) (cons w ys) h = cc (redact-Agree v w h.0, items-Agree xs ys h.1)
  items-Agree _ _ h = absurd h

  fields-Agree : (fs gs : Fields) → FieldsAgree fs gs → redact_fields fs ≡ redact_fields gs
  fields-Agree end end h = refl
  fields-Agree (field k v fs) (field j w gs) h = cc (
    h.0,
    value-Agree (is_sensitive k) (redact v) (redact w)
        (elim h.1 [ inl hidden ↦ inl hidden | inr same ↦ inr (redact-Agree v w same) ]),
    fields-Agree fs gs h.2,
  )
  fields-Agree _ _ h = absurd h

-- What is written to the audit log depends only on what stands outside the sensitive keys, and under
-- every sensitive key, at any depth, stands the placeholder.
pub redact_hides : (v w : Json) → Agree v w → (redact v ≡ redact w) × IsClean (redact v)
redact_hides v w h = (redact-Agree v w h, redact-IsClean v)

is_sensitive-content_base64 :
    (k : String) → normal_key k ≡ codes "contentbase64" → is_sensitive k ≡ false
unfolding is_sensitive key_matches ends_with bytes_eq has_prefix
is_sensitive-content_base64 k e = rw (e, is_sensitive)

-- The list names `content_base64`, but the keys that are compared with it have lost their `_`, so no
-- spelling of that key is hidden: its value is logged like any other.
pub content_base64_shown :
    (k : String) (v : Json) (fs : Fields)
    → normal_key k ≡ codes "contentbase64"
    → redact (obj (field k v fs)) ≡ obj (field k (redact v) (redact_fields fs))
unfolding redact field_value
content_base64_shown k v fs e = rw (is_sensitive-content_base64 k e)

kept_prefix-beyond : (s : String) (at : ℕ) → 500 ≤ at → byte_len (kept_prefix at s) ≡ 0
unfolding kept_prefix byte_len
kept_prefix-beyond String.[] at h = refl
kept_prefix-beyond (String.◌∷◌ c s) at h = elim (Bool-cases (ltb at 500)) [
  | inl before ↦ absurd (omega (arith, ltb→lt at 500 before))
  | inr after ↦ rw after
]

len_utf8-le : (c : ℕ) → len_utf8 c ≤ 4
unfolding len_utf8
len_utf8-le c = ground arith

-- From any position before byte 500 on, what is kept of a long text ends before byte 504.
pub kept_prefix-len : (s : String) (at : ℕ) → at < 500 → at + byte_len (kept_prefix at s) ≤ 503
unfolding kept_prefix byte_len
kept_prefix-len String.[] at h = omega arith
kept_prefix-len (String.◌∷◌ c s) at h =
    let next = at + len_utf8 (code c) in
    rw (lt→ltb at 500 h) (elim (Bool-cases (ltb next 500)) [
      | inl before ↦
          omega (arith, len_utf8-le (code c), kept_prefix-len s next (ltb→lt next 500 before))
      | inr after ↦
          omega (arith, len_utf8-le (code c), kept_prefix-beyond s next (ltb-false next 500 after))
    ])
