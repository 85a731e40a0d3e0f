-- ===== src/Shell/Permissions.antt =====
-- What `has_perm_` grants, bit by bit.
use neon_world_os.Base.{
  ℕ, zero, suc, ◌+◌, ◌*◌, ◌/◌, ◌%◌, ◌^◌, ◌<◌, Bool, true, false, ◌||◌, ◌&&◌, List, [], ◌∷◌, Option,
  none, some, ◌≡◌, ◌↔◌, ◌⊎◌, refl, sym, ap, ◌∙◌, inl, inr, arith, Bytes, codes, if◌then◌else◌, ◌==◌,
  ==_iff, str_eq, str_eq_iff, if_by, starts_with, Dict, find,
}
use neon_world_os.Shell.Commands.{Rule, bit_or, bit_and, granted, has_perm}

-- A bit of a number is set.
unfoldable pub has_bit : ℕ → ℕ → Bool
has_bit zero n = n % 2 == 1
has_bit (suc i) n = has_bit i (n / 2)

has_bit-bit_or : (w i a b : ℕ) → i < w → has_bit i (bit_or w a b) ≡ (has_bit i a || has_bit i b)
unfolding has_bit bit_or
has_bit-bit_or zero i a b lt = absurd (omega arith)
has_bit-bit_or (suc w) zero a b lt = ground arith
has_bit-bit_or (suc w) (suc i) a b lt =
    ap (has_bit i) half ∙ has_bit-bit_or w i (a / 2) (b / 2) (omega arith)
  where
    half :
        ((if a % 2 + b % 2 == 0 then 0 else 1) + 2 * bit_or w (a / 2) (b / 2)) / 2
        ≡ bit_or w (a / 2) (b / 2)
    half = ground arith

-- The number has no bit at `w` or above.
abbrev IsWord : ℕ → ℕ → Type 0
IsWord zero n = n ≡ 0
IsWord (suc w) n = IsWord w (n / 2)

abbrev power : ℕ → ℕ
power zero = 1
power (suc w) = 2 * power w

lt-IsWord : (w n : ℕ) → n < power w → IsWord w n
lt-IsWord zero n lt = omega arith
lt-IsWord (suc w) n lt = lt-IsWord w (n / 2) (omega arith)

-- All bits of `b` are bits of `a`.
abbrev Covers : ℕ → ℕ → ℕ → Type 0
Covers w a b = (i : ℕ) → i < w → has_bit i b ≡ true → has_bit i a ≡ true

product_bit : (p q : ℕ) → p < 2 → q < 2 → p * q < 2
product_bit zero q lt lt' = omega arith
product_bit (suc zero) q lt lt' = omega arith
product_bit (suc (suc p)) q lt lt' = absurd (omega arith)

product_covered : (p q : ℕ) → p < 2 → q < 2 → (q ≡ 1 → p ≡ 1) → p * q ≡ q
product_covered p zero lt lt' h = omega arith
product_covered p (suc zero) lt lt' h = let e = h refl in rw e (omega arith)
product_covered p (suc (suc q)) lt lt' h = absurd (omega arith)

bit_and-eq-Covers : (w a b : ℕ) → bit_and w a b ≡ b → Covers w a b
unfolding bit_and has_bit
bit_and-eq-Covers zero a b e i lt h = absurd (omega arith)
bit_and-eq-Covers (suc w) a b e zero lt h = ground (arith, e, h)
bit_and-eq-Covers (suc w) a b e (suc i) lt h =
    bit_and-eq-Covers w (a / 2) (b / 2)
      (omega (arith, e, product_bit (a % 2) (b % 2) (omega arith) (omega arith))) i (omega arith) h

Covers-bit_and : (w a b : ℕ) → IsWord w b → Covers w a b → bit_and w a b ≡ b
unfolding bit_and has_bit
Covers-bit_and zero a b small h = sym small
Covers-bit_and (suc w) a b small h =
    let rest = Covers-bit_and w (a / 2) (b / 2) small (λ i lt. h (suc i) (omega arith)) in
    let low : a % 2 * (b % 2) ≡ b % 2 =
      product_covered (a % 2) (b % 2) (omega arith) (omega arith)
        (λ e. (==_iff (a % 2) 1).0 (h 0 (omega arith) ((==_iff (b % 2) 1).1 e))) in
    omega (arith, rest, low)

-- A rule for a prefix of the path has the bit.
unfoldable pub grants : ℕ → Bytes → List Rule → Bool
unfolding has_bit
grants i path [] = false
grants i path (e ∷ es) = (starts_with path e.prefix && has_bit i e.perms) || grants i path es

has_bit-granted :
    (i : ℕ) (path : Bytes) (es : List Rule) (acc : ℕ)
    → i < 32
    → has_bit i (granted es path acc) ≡ (has_bit i acc || grants i path es)
unfolding granted grants
has_bit-granted i path [] acc lt = or_false (has_bit i acc)
  where
    or_false : (b : Bool) → b ≡ (b || false)
    or_false true = refl
    or_false false = refl
has_bit-granted i path (e ∷ es) acc lt =
    has_bit-granted i path es (if starts_with path e.prefix then bit_or 32 acc e.perms else acc) lt
    ∙ ap (λ b. b || grants i path es) (by_prefix (starts_with path e.prefix))
    ∙ or_assoc (has_bit i acc) _ (grants i path es)
  where
    by_prefix :
        (b : Bool)
        → has_bit i (if b then bit_or 32 acc e.perms else acc)
          ≡ (has_bit i acc || (b && has_bit i e.perms))
    by_prefix true = has_bit-bit_or 32 i acc e.perms lt
    by_prefix false = ground arith

    or_assoc : (a b c : Bool) → ((a || b) || c) ≡ (a || (b || c))
    or_assoc true b c = refl
    or_assoc false b c = refl

has_bit-zero : (i : ℕ) → has_bit i 0 ≡ false
unfolding has_bit
has_bit-zero zero = refl
has_bit-zero (suc i) = has_bit-zero i

-- Each bit that is needed is granted.
abbrev pub AllGranted : ℕ → Bytes → List Rule → Type 0
AllGranted need path es = (i : ℕ) → i < 32 → has_bit i need ≡ true → grants i path es ≡ true

granted_iff :
    (path : Bytes) (es : List Rule) (need : ℕ)
    → need < 2 ^ 32
    → ((bit_and 32 (granted es path 0) need == need) ≡ true) ↔ AllGranted need path es
granted_iff path es need small = (
  λ e i lt h. sym (bits i lt) ∙ bit_and-eq-Covers 32 _ need ((==_iff _ need).0 e) i lt h,
  λ all. (==_iff _ need).1 (
      Covers-bit_and 32 _ need (lt-IsWord 32 need (omega arith))
        (λ i lt h. bits i lt ∙ all i lt h)),
)
  where
    bits : (i : ℕ) → i < 32 → has_bit i (granted es path 0) ≡ grants i path es
    bits i lt = has_bit-granted i path es 0 lt ∙ ap (λ b. b || grants i path es) (has_bit-zero i)

-- `has_perm_` grants what is needed on a path exactly if the role is `root`, or if the role has rules
-- and each bit that is needed stands in a rule for a prefix of the path, where the bits may come from
-- different rules, if what is needed fits into 32 bits.
pub has_perm_iff :
    (roles : Dict (List Rule)) (role path : Bytes) (need : ℕ)
    → need < 2 ^ 32
    → (has_perm roles role path need ≡ true) ↔ (
        (role ≡ codes "root")
        ⊎ ((es : List Rule) × (find role roles ≡ some es) × AllGranted need path es))
unfolding has_perm
has_perm_iff roles role path need small =
    (there (str_eq role (codes "root")) refl (find role roles) refl, back)
  where
    there :
        (b : Bool)
        → str_eq role (codes "root") ≡ b
        → (o : Option (List Rule)) → find role roles ≡ o
        → (if b
            then true
            else elim o [ none ↦ false | some es ↦ bit_and 32 (granted es path 0) need == need ])
          ≡ true
        → (role ≡ codes "root")
          ⊎ ((es : List Rule) × (find role roles ≡ some es) × AllGranted need path es)
    there true root o f e = inl ((str_eq_iff role (codes "root")).0 root)
    there false other none f e = absurd (cc)
    there false other (some es) f e = inr (es, f, (granted_iff path es need small).0 e)

    back :
        (role ≡ codes "root")
          ⊎ ((es : List Rule) × (find role roles ≡ some es) × AllGranted need path es)
        → has_perm roles role path need ≡ true
    back (inl e) =
        if_by (λ b. b ≡ true) (str_eq role (codes "root")) true _ (λ _. refl)
          (λ other. absurd (cc ((str_eq_iff role (codes "root")).1 e, other)))
    back (inr (es, f, all)) =
        if_by (λ b. b ≡ true) (str_eq role (codes "root")) true _ (λ _. refl)
          (λ _.
            ap
              (λ (o : Option (List Rule)). elim o as (λ _. Bool) [
                | none ↦ false
                | some fs ↦ bit_and 32 (granted fs path 0) need == need
              ])
              f
            ∙ (granted_iff path es need small).1 all)
