-- ===== src/Shell/Exec/Policy.antt =====
-- The rules of `Exec`: the first that applies decides.
use neon_world_os.Base.{
  Bool, true, false, not, ◌&&◌, ◌||◌, List, [], ◌∷◌, ◌++◌, Option, none, some, ◌≡◌, ◌↔◌, ◌⊎◌, refl,
  sym, ap, ◌∙◌, inl, inr, arith, is_empty, Option-cases, subst, Bytes, All, Bool-cases,
}
use neon_world_os.Shell.Exec.{path_hit, rule_found, rule_applies, policy_denies}
use neon_world_os.Shell.State.{PolicyRule}

-- A path is found, and no search before it throws or finds one.
abbrev pub Hits : (Bytes → Option Bool) → List Bytes → Type 0
Hits rp paths =
    (before : List Bytes) × (p : Bytes) × (after : List Bytes) × (paths ≡ before ++ p ∷ after)
    × All (λ q. rp q ≡ some false) before
    × (rp p ≡ some true)

-- Both regular expressions are there, the first is found in the command, and there are no paths, or the
-- second is found in one.
pub record Applies (search : Bytes → Option (Bytes → Option Bool)) (c : Bytes) (paths : List Bytes)
    (rule : PolicyRule) : Type 0 where
  pub rc : Bytes → Option Bool
  pub rp : Bytes → Option Bool
  pub cmd_there : search rule.cmd_re ≡ some rc
  pub path_there : search rule.path_re ≡ some rp
  pub cmd_found : rc c ≡ some true
  pub path_found : (paths ≡ []) ⊎ Hits rp paths

path_hit-Hits :
    (rp : Bytes → Option Bool) (ps : List Bytes) → path_hit rp ps ≡ some true → Hits rp ps
unfolding path_hit
path_hit-Hits rp [] e = absurd (cc)
path_hit-Hits rp (p ∷ ps) e = elim (Option-cases (rp p)) [
  | inl n ↦ absurd (ground (arith, e, n))
  | inr (true, n) ↦ ([], p, ps, refl, tt, n)
  | inr (false, n) ↦
      let (before, q, after, split, none_before, found) = path_hit-Hits rp ps (ground (arith, n)) in
      (p ∷ before, q, after, ap (◌∷◌ p) split, (n, none_before), found)
]

Hits-path_hit :
    (rp : Bytes → Option Bool) (before : List Bytes) (p : Bytes) (after : List Bytes)
    → All (λ q. rp q ≡ some false) before
    → rp p ≡ some true
    → path_hit rp (before ++ p ∷ after) ≡ some true
unfolding path_hit
Hits-path_hit rp [] p after h e = rw e refl
Hits-path_hit rp (q ∷ before) p after (hq, h) e = rw hq (Hits-path_hit rp before p after h e)

module _ (search : Bytes → Option (Bytes → Option Bool)) (c : Bytes) (paths : List Bytes) where
  -- A rule that applies and denies, with none before it that applies.
  abbrev pub FirstDenies : List PolicyRule → Type 0
  FirstDenies rules =
      (before : List PolicyRule) × (rule : PolicyRule) × (after : List PolicyRule) × (rules
        ≡ before ++ rule ∷ after)
      × All (λ r. ¬ Applies search c paths r) before
      × Applies search c paths rule
      × (rule.allow ≡ false)

  rule_found-path :
      (rc rp : Bytes → Option Bool)
      → rule_found c paths rc rp ≡ true
      → (rc c ≡ some true) × ((paths ≡ []) ⊎ Hits rp paths)
  unfolding rule_found
  rule_found-path rc rp e = elim (Option-cases (rc c)) [
    | inl n ↦ absurd (ground (arith, e, n))
    | inr (ok, n) ↦ elim (Option-cases (path_hit rp paths)) [
      | inl m ↦ absurd (ground (arith, e, n, m))
      | inr (hit, m) ↦
          let both : (ok && (is_empty paths || hit)) ≡ true = ground (arith, e, n, m) in
          (n ∙ ap some (and_left ok _ both), found paths refl hit m (and_right ok _ both))
    ]
  ]
    where
      and_left : (a b : Bool) → (a && b) ≡ true → a ≡ true
      and_left true b h = refl
      and_left false b h = h

      and_right : (a b : Bool) → (a && b) ≡ true → b ≡ true
      and_right true b h = h
      and_right false b h = absurd (cc)

      found :
          (ps : List Bytes)
          → paths ≡ ps
          → (hit : Bool) → path_hit rp paths ≡ some hit
          → (is_empty ps || hit) ≡ true
          → (paths ≡ []) ⊎ Hits rp paths
      found [] same hit m h = inl same
      found (p ∷ ps) same hit m h = inr (path_hit-Hits rp paths (m ∙ ap some h))

  rule_applies-Applies :
      (rule : PolicyRule) → rule_applies search c paths rule ≡ true → Applies search c paths rule
  unfolding rule_applies
  rule_applies-Applies rule e = elim (Option-cases (search rule.cmd_re)) [
    | inl n ↦ absurd (ground (arith, e, n))
    | inr (rc, n) ↦ elim (Option-cases (search rule.path_re)) [
      | inl m ↦ absurd (ground (arith, e, n, m))
      | inr (rp, m) ↦
          let (cmd, path) = rule_found-path rc rp (ground (arith, e, n, m)) in
          record {
            rc = rc;
            rp = rp;
            cmd_there = n;
            path_there = m;
            cmd_found = cmd;
            path_found = path;
          }
    ]
  ]

  Applies-rule_applies :
      (rule : PolicyRule) → Applies search c paths rule → rule_applies search c paths rule ≡ true
  unfolding rule_applies rule_found
  Applies-rule_applies rule a =
      rw (rule_applies, a.cmd_there, a.path_there) (rw (rule_found, a.cmd_found) (hit a.path_found))
    where
      or_true : (b : Bool) → (b || true) ≡ true
      or_true true = refl
      or_true false = refl

      hit :
          (paths ≡ []) ⊎ Hits a.rp paths
          → elim (path_hit a.rp paths) [
            | none ↦ false
            | some there ↦ true && (is_empty paths || there)
          ]
            ≡ true
      hit (inl e) =
          subst
            (λ ps.
              elim (path_hit a.rp ps) [ none ↦ false | some there ↦ true && (is_empty ps || there) ]
              ≡ true)
            (sym e) (unfold path_hit in refl)
      hit (inr (before, p, after, split, h, e)) =
          rw (ap (path_hit a.rp) split ∙ Hits-path_hit a.rp before p after h e) (or_true _)

  not-Applies :
      (rule : PolicyRule) → rule_applies search c paths rule ≡ false → ¬ Applies search c paths rule
  not-Applies rule e a = absurd (ground (arith, e, Applies-rule_applies rule a))

  Applies-false :
      (rule : PolicyRule) → ¬ Applies search c paths rule → rule_applies search c paths rule ≡ false
  Applies-false rule never = elim (Bool-cases (rule_applies search c paths rule)) [
    | inl e ↦ absurd (never (rule_applies-Applies rule e))
    | inr e ↦ e
  ]

  denies_head :
      (rule : PolicyRule) (rules : List PolicyRule)
      → rule_applies search c paths rule ≡ true
      → policy_denies search c paths (rule ∷ rules) ≡ not rule.allow
  unfolding policy_denies
  denies_head rule rules e = rw e refl

  denies_tail :
      (rule : PolicyRule) (rules : List PolicyRule)
      → rule_applies search c paths rule ≡ false
      → policy_denies search c paths (rule ∷ rules) ≡ policy_denies search c paths rules
  unfolding policy_denies
  denies_tail rule rules e = rw e refl

  not-eq-true : (b : Bool) → not b ≡ true → b ≡ false
  not-eq-true true h = absurd (cc)
  not-eq-true false h = refl

  denies-First :
      (rules : List PolicyRule) → policy_denies search c paths rules ≡ true → FirstDenies rules
  denies-First [] h = absurd (unfold policy_denies in cc)
  denies-First (rule ∷ rules) h = elim (Bool-cases (rule_applies search c paths rule)) [
    | inl e ↦ (
      [],
      rule,
      rules,
      refl,
      tt,
      rule_applies-Applies rule e,
      not-eq-true rule.allow (sym (denies_head rule rules e) ∙ h),
    )
    | inr e ↦
        let (before, r, after, split, none_before, applies, deny) =
          denies-First rules (sym (denies_tail rule rules e) ∙ h) in
        (
          rule ∷ before,
          r,
          after,
          ap (◌∷◌ rule) split,
          (not-Applies rule e, none_before),
          applies,
          deny,
        )
  ]

  First-denies :
      (before : List PolicyRule) (rule : PolicyRule) (after : List PolicyRule)
      → All (λ r. ¬ Applies search c paths r) before
      → Applies search c paths rule
      → rule.allow ≡ false
      → policy_denies search c paths (before ++ rule ∷ after) ≡ true
  First-denies [] rule after h applies deny =
      denies_head rule after (Applies-rule_applies rule applies) ∙ ap not deny
  First-denies (r ∷ before) rule after (hr, h) applies deny =
      denies_tail r (before ++ rule ∷ after) (Applies-false r hr)
      ∙ First-denies before rule after h applies deny

  -- The policy denies a command with its paths if and only if a rule that denies is the first that
  -- applies. A rule applies if both regular expressions are built, the first is found in the command, and
  -- there are no paths or the second is found in one of them; one that throws, when a regular expression is
  -- built or searched for before a path is found, does not apply.
  pub policy_denies_iff :
      (rules : List PolicyRule) → (policy_denies search c paths rules ≡ true) ↔ FirstDenies rules
  policy_denies_iff rules = (denies-First rules, back)
    where
      back : FirstDenies rules → policy_denies search c paths rules ≡ true
      back (before, rule, after, split, h, applies, deny) =
          ap (policy_denies search c paths) split ∙ First-denies before rule after h applies deny
