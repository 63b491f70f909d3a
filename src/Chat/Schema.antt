-- ===== src/Chat/Schema.antt =====
-- The migrations of chat_store.rs: `ChatStore::migrate`.
use synth_hires_bridge.Prelude.{
  ℕ, zero, suc, ◌≤◌, max, sym, ap, ◌∙◌, ◌⊎◌, ltb-ge, lt→ltb, Bool, true, false, ◌≡◌, refl, Option,
  none, some, if◌then◌else◌, ltb, unwrap_or, arith, inl, inr,
}

-- The recorded version, and which of the tables there are: those of version 1 (conversations and messages) and of version 2
-- (artifacts and projects).
pub record Schema : Type 0 where
  pub version : Option ℕ
  pub has_v1 : Bool
  pub has_v2 : Bool

abbrev pub fresh : Schema
fresh = record { version = none; has_v1 = false; has_v2 = false }

-- `INSERT ... VALUES ('schema_version', 2) ON CONFLICT(key) DO UPDATE SET value = MAX(value, 2)`
unfoldable pub to_v2 : Schema → Schema
to_v2 s = record {
  version = some (max (unwrap_or s.version 2) 2);
  has_v1 = s.has_v1;
  has_v2 = true;
}

-- `INSERT ... VALUES ('schema_version', 1) ON CONFLICT(key) DO UPDATE SET value = 1`
unfoldable pub to_v1 : Schema → Schema
to_v1 s = record { version = some 1; has_v1 = true; has_v2 = s.has_v2 }

-- Both tests read the version from before.
unfoldable pub migrate : Schema → Schema
unfolding to_v1 to_v2
migrate s =
    let current = unwrap_or s.version 0 in
    let s' = if ltb current 2 then to_v2 s else s in if ltb current 1 then to_v1 s' else s'

-- The tables of a recorded version are there.
pub record Sound (s : Schema) : Type 0 where
  pub first : 1 ≤ unwrap_or s.version 0 → s.has_v1 ≡ true
  pub second : 2 ≤ unwrap_or s.version 0 → s.has_v2 ≡ true

abbrev version_of : Schema → ℕ
version_of s = unwrap_or s.version 0

migrate-idle : (s : Schema) → 2 ≤ version_of s → migrate s ≡ s
unfolding migrate
migrate-idle s h = rw (ltb-ge (version_of s) 2 h, ltb-ge (version_of s) 1 (omega arith)) refl

migrate-first :
    (s : Schema)
    → version_of s ≡ 0
    → migrate s ≡ record { version = some 1; has_v1 = true; has_v2 = true }
unfolding migrate
migrate-first s h =
    rw (lt→ltb (version_of s) 2 (omega arith), lt→ltb (version_of s) 1 (omega arith)) refl

migrate-second :
    (s : Schema)
    → version_of s ≡ 1
    → migrate s ≡ record { version = some 2; has_v1 = s.has_v1; has_v2 = true }
unfolding migrate
migrate-second s h =
    rw (lt→ltb (version_of s) 2 (omega arith), ltb-ge (version_of s) 1 (omega arith))
      (ap (λ v. record { version = some v; has_v1 = s.has_v1; has_v2 = true })
        (recorded s.version h))
  where
    recorded : (v : Option ℕ) → unwrap_or v 0 ≡ 1 → max (unwrap_or v 2) 2 ≡ 2
    recorded none e = absurd (omega arith)
    recorded (some n) e = omega arith

-- A new file has all the tables after its first opening, and is recorded as version 1 by it; the second
-- opening records version 2, and no later one changes anything. A schema whose recorded version has
-- its tables has all of them after one opening.
pub migrate_complete :
    (s : Schema)
    → Sound s
    → ((migrate s).has_v1 ≡ true)
      × ((migrate s).has_v2 ≡ true)
      × ((migrate fresh).version ≡ some 1)
      × ((migrate (migrate fresh)).version ≡ some 2)
      × (migrate (migrate (migrate s)) ≡ migrate (migrate s))
migrate_complete s h = elim (small_cases (version_of s)) [
  | inl none_yet ↦
      let e = migrate-first s none_yet in
      (
        ap (λ x. x.has_v1) e,
        ap (λ x. x.has_v2) e,
        new.0,
        new.1,
        ap (λ x. migrate (migrate x)) e
            ∙ ap migrate settled
            ∙ migrate-idle at_two (omega arith)
            ∙ sym settled
            ∙ sym (ap migrate e),
      )
  | inr (inl one) ↦
      let e = migrate-second s one in
      let idle =
        migrate-idle (record { version = some 2; has_v1 = s.has_v1; has_v2 = true })
          (omega arith) in
      (
        ap (λ x. x.has_v1) e ∙ h.first (omega arith),
        ap (λ x. x.has_v2) e,
        new.0,
        new.1,
        ap (λ x. migrate (migrate x)) e ∙ ap migrate idle ∙ sym (ap migrate e),
      )
  | inr (inr more) ↦
      let e = migrate-idle s more in
      (
        ap (λ x. x.has_v1) e ∙ h.first (omega arith),
        ap (λ x. x.has_v2) e ∙ h.second more,
        new.0,
        new.1,
        ap (λ x. migrate (migrate x)) e,
      )
]
  where
    small_cases : (n : ℕ) → (n ≡ 0) ⊎ (n ≡ 1) ⊎ (2 ≤ n)
    small_cases zero = inl refl
    small_cases (suc zero) = inr (inl refl)
    small_cases (suc (suc n)) = inr (inr (omega arith))

    at_two : Schema
    at_two = record { version = some 2; has_v1 = true; has_v2 = true }

    settled : migrate (record { version = some 1; has_v1 = true; has_v2 = true }) ≡ at_two
    settled = migrate-second (record { version = some 1; has_v1 = true; has_v2 = true }) refl

    new : ((migrate fresh).version ≡ some 1) × ((migrate (migrate fresh)).version ≡ some 2)
    new = (
      ap (λ x. x.version) (migrate-first fresh refl),
      ap (λ x. (migrate x).version) (migrate-first fresh refl) ∙ ap (λ x. x.version) settled,
    )
