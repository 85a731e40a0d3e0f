-- ===== src/Vfs/Quota/Best.antt =====
-- `best_quota_prefix_` finds the longest prefix that has a quota.
use neon_world_os.Base.{
  ℕ, ◌≤◌, true, [], ◌∷◌, none, ◌≡◌, refl, ◌⊎◌, inl, inr, arith, Bytes, ltb, length, starts_with,
  str_eq_iff, Dict, find, All, Bool-cases,
}
use neon_world_os.Vfs.State.{Vfs}
use neon_world_os.Vfs.Quota.{better, best_from, best_quota_prefix}

-- The key is no prefix of the text, or no longer than `best`.
abbrev NoLonger : Bytes → Bytes → Bytes × ℕ → Type 0
NoLonger norm best (p, n) = starts_with norm p ≡ true → length p ≤ length best

starts_with-le : (s p : Bytes) → starts_with s p ≡ true → length p ≤ length s
unfolding starts_with
starts_with-le s [] h = omega arith
starts_with-le [] (b ∷ p) h = cc
starts_with-le (a ∷ s) (b ∷ p) h = ground (arith, starts_with-le s p)

-- A prefix of the text that is as long as any with a quota, and has a quota itself if it is not the
-- first one.
pub record Longest (norm first : Bytes) (m : Dict ℕ) (best : Bytes) : Type 0 where
  pub is_prefix : starts_with norm best ≡ true
  pub longer : length first ≤ length best
  pub longest : All (NoLonger norm best) m
  pub found : find best m ≡ none → best ≡ first

-- One more entry, which does not become `best`, or does.
skip :
    (norm p best b : Bytes) (n : ℕ) (m : Dict ℕ)
    → (starts_with norm p ≡ true → length p ≤ length best)
    → Longest norm best m b
    → Longest norm best ((p, n) ∷ m) b
unfolding find
skip norm p best b n m h l = record {
  is_prefix = l.is_prefix;
  longer = l.longer;
  longest = (λ e. omega (arith, h e, l.longer), l.longest);
  found = λ e. ground (arith, e, l.found);
}

pick :
    (norm p best b : Bytes) (n : ℕ) (m : Dict ℕ)
    → length best ≤ length p
    → Longest norm p m b
    → Longest norm best ((p, n) ∷ m) b
unfolding find
pick norm p best b n m h l = record {
  is_prefix = l.is_prefix;
  longer = omega (arith, l.longer);
  longest = (λ e. l.longer, l.longest);
  found = λ e. ground (arith, e, l.found, str_eq_iff p b);
}

-- What one round makes of `best`.
better-cases :
    (norm p best : Bytes)
    → ((better norm p best ≡ best) × (starts_with norm p ≡ true → length p ≤ length best))
      ⊎ ((better norm p best ≡ p) × ((starts_with norm p ≡ true) × (length best ≤ length p)))
unfolding better
better-cases norm p best = elim (Bool-cases (starts_with norm p)) [
  | inr e ↦ inl (ground (arith, e), λ t. absurd (cc))
  | inl e ↦ elim (Bool-cases (ltb (length best) (length p))) [
    | inl lt ↦ inr (ground (arith, e, lt, starts_with-le norm p e), (e, ground (arith, lt)))
    | inr ge ↦ inl (ground (arith, e, ge), λ t. ground (arith, ge))
  ]
]

best_from_step :
    (norm p best : Bytes) (n : ℕ) (m : Dict ℕ)
    → best_from norm ((p, n) ∷ m) best ≡ best_from norm m (better norm p best)
unfolding best_from
best_from_step norm p best n m = refl

best_from-Longest :
    (norm : Bytes) (m : Dict ℕ) (best : Bytes)
    → starts_with norm best ≡ true
    → Longest norm best m (best_from norm m best)
best_from-Longest norm [] best h =
    unfold best_from in
    record { is_prefix = h; longer = omega arith; longest = tt; found = λ e. refl }
best_from-Longest norm ((p, n) ∷ m) best h = elim (better-cases norm p best) [
  | inl (e, le) ↦
      rw (best_from_step norm p best n m, e)
        (skip norm p best (best_from norm m best) n m le (best_from-Longest norm m best h))
  | inr (e, (hp, le)) ↦
      rw (best_from_step norm p best n m, e)
        (pick norm p best (best_from norm m p) n m le (best_from-Longest norm m p hp))
]

-- `best_quota_prefix_` returns a prefix of the path that is as long as any prefix of the path with a
-- quota, and it has a quota itself if it is not empty.
pub best_quota_prefix-Longest :
    (norm : Bytes) (v : Vfs) → Longest norm [] v.quota_limit (best_quota_prefix norm v)
unfolding best_quota_prefix
best_quota_prefix-Longest norm v =
    best_from-Longest norm v.quota_limit [] (unfold starts_with in refl)
