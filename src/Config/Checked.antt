-- ===== src/Config/Checked.antt =====
-- Which file is read, and what a configuration that passes the validation switches.
use neon_world_os.Base.{
  Bool, true, false, ◌||◌, List, [], ◌∷◌, ◌++◌, Option, none, some, ◌≡◌, refl, sym, ap, ◌∙◌, subst,
  ◌⊎◌, inl, inr, arith, Bytes, codes, str_eq, str_eq_iff, All, find, Option-cases,
}
use neon_world_os.Config.{
  NeonConfig, Env, candidates, load_first, load_config, load_text, telemetry, is_off, is_valid,
  lower, telemetry_off, config_ok, validate_json,
}

-- The configuration that is read: no file can be opened, and it is empty; or it is the text of the first
-- that can.
abbrev pub FirstOf : (Bytes → Option Bytes) → List Bytes → NeonConfig → Type 0
FirstOf opened ps cfg =
    (All (λ p. opened p ≡ none) ps × (cfg ≡ record { file = []; kv = [] }))
    ⊎ ((qs : List Bytes) × (p : Bytes) × (rs : List Bytes) × (text : Bytes) × (ps ≡ qs ++ p ∷ rs)
        × All (λ q. opened q ≡ none) qs
        × (opened p ≡ some text)
        × (cfg ≡ record { file = p; kv = load_text text }))

load_first-FirstOf :
    (opened : Bytes → Option Bytes) (ps : List Bytes) → FirstOf opened ps (load_first opened ps)
unfolding load_first
load_first-FirstOf opened [] = inl (tt, refl)
load_first-FirstOf opened (p ∷ ps) = elim (Option-cases (opened p)) [
  | inr (text, e) ↦ inr ([], p, ps, text, refl, tt, e, (rw (e, load_first) refl))
  | inl e ↦
      subst (FirstOf opened (p ∷ ps)) (sym (rw (e, load_first) refl))
        (later e (load_first-FirstOf opened ps))
]
  where
    later :
        opened p ≡ none
        → FirstOf opened ps (load_first opened ps)
        → FirstOf opened (p ∷ ps) (load_first opened ps)
    later e (inl (h, same)) = inl ((e, h), same)
    later e (inr (qs, q, rs, text, split, h, o, same)) =
        inr (p ∷ qs, q, rs, text, ap (◌∷◌ p) split, (e, h), o, same)

-- The configuration is read from the first candidate that can be opened, in the order of the
-- environment's file, `$XDG_CONFIG_HOME`, `$HOME` and `/etc`; and it is empty if none can.
pub load_config-FirstOf :
    (opened : Bytes → Option Bytes) (env : Env)
    → FirstOf opened (candidates env) (load_config opened env)
unfolding load_config
load_config-FirstOf opened env = load_first-FirstOf opened (candidates env)

-- A value that passes, in lower case, and what it switches.
abbrev pub Switches : Bytes → Bool → Type 0
Switches v off =
    ((off ≡ true) × ((v ≡ codes "off") ⊎ ((v ≡ codes "false") ⊎ (v ≡ codes "0"))))
    ⊎ ((off ≡ false) × ((v ≡ codes "on") ⊎ ((v ≡ codes "true") ⊎ (v ≡ codes "1"))))

or-cases : (a b : Bool) → (a || b) ≡ true → (a ≡ true) ⊎ (b ≡ true)
or-cases true b h = inl refl
or-cases false b h = inr h

same_text : (s t : Bytes) → str_eq s t ≡ true → s ≡ t
same_text s t h = (str_eq_iff s t).0 h

-- What is known of one of the texts holds of the value that is equal to it.
at_text : (v t : Bytes) → Switches t (is_off t) → str_eq v t ≡ true → Switches v (is_off v)
at_text v t h e = subst (λ (u : Bytes). Switches u (is_off u)) (sym (same_text v t e)) h

is_valid-Switches : (v : Bytes) → is_valid v ≡ true → Switches v (is_off v)
unfolding is_valid is_off str_eq
is_valid-Switches v h = elim (or-cases (str_eq v (codes "on")) _ h) [
  | inl e ↦ at_text v (codes "on") (inr (refl, inl refl)) e
  | inr h₁ ↦ elim (or-cases (str_eq v (codes "off")) _ h₁) [
    | inl e ↦ at_text v (codes "off") (inl (refl, inl refl)) e
    | inr h₂ ↦ elim (or-cases (str_eq v (codes "true")) _ h₂) [
      | inl e ↦ at_text v (codes "true") (inr (refl, inr (inl refl))) e
      | inr h₃ ↦ elim (or-cases (str_eq v (codes "false")) _ h₃) [
        | inl e ↦ at_text v (codes "false") (inl (refl, inr (inl refl))) e
        | inr h₄ ↦ elim (or-cases (str_eq v (codes "0")) _ h₄) [
          | inl e ↦ at_text v (codes "0") (inl (refl, inr (inr refl))) e
          | inr e ↦ at_text v (codes "1") (inr (refl, inr (inr refl))) e
        ]
      ]
    ]
  ]
]

code-ok : (cfg : NeonConfig) → (validate_json cfg).1 ≡ 0 → config_ok cfg ≡ true
unfolding validate_json
code-ok cfg h = ground (arith, h)

-- If the validation exits with 0 then there is no `telemetry` key and telemetry is not switched off, or
-- its value, in lower case, is one of six texts, and it is switched off by `off`, `false` and `0` and
-- not by `on`, `true` and `1`.
pub validate_json-Switches :
    (cfg : NeonConfig)
    → (validate_json cfg).1 ≡ 0
    → ((find telemetry cfg.kv ≡ none) × (telemetry_off cfg ≡ false))
      ⊎ ((v : Bytes) × (find telemetry cfg.kv ≡ some v) × Switches (lower v) (telemetry_off cfg))
validate_json-Switches cfg h = go (find telemetry cfg.kv) refl
  where
    off_of : (v : Bytes) → find telemetry cfg.kv ≡ some v → telemetry_off cfg ≡ is_off (lower v)
    off_of v e = unfold telemetry_off in rw (e, telemetry_off) refl

    checked_of : (v : Bytes) → find telemetry cfg.kv ≡ some v → config_ok cfg ≡ is_valid (lower v)
    checked_of v e = unfold config_ok in rw (e, config_ok) refl

    ok_of : (v : Bytes) → find telemetry cfg.kv ≡ some v → is_valid (lower v) ≡ true
    ok_of v e = sym (checked_of v e) ∙ code-ok cfg h

    go :
        (o : Option Bytes)
        → find telemetry cfg.kv ≡ o
        → ((find telemetry cfg.kv ≡ none) × (telemetry_off cfg ≡ false))
          ⊎ ((v : Bytes) × (find telemetry cfg.kv ≡ some v)
              × Switches (lower v) (telemetry_off cfg))
    go none e = inl (e, unfold telemetry_off in rw (e, telemetry_off) refl)
    go (some v) e = inr (
      v,
      e,
      subst (Switches (lower v)) (sym (off_of v e)) (is_valid-Switches (lower v) (ok_of v e)),
    )
