-- ===== src/Vfs/Dump/Decimal.antt =====
-- Numbers in the dump: `stoul` reads what `decimal` writes.
use neon_world_os.Base.{
  ℕ, zero, suc, ◌+◌, ◌*◌, ◌/◌, ◌%◌, ◌≤◌, ◌<◌, [], ◌∷◌, none, some, ◌≡◌, sym, ap, ◌∙◌, inl, inr,
  arith, Bytes, ltb, Bool-cases, Lacks, subst,
}
use neon_world_os.Vfs.State.{word_mod}
use neon_world_os.Vfs.Dump.{
  decimal_from, decimal, is_space, skip_spaces, read_digits, in_word, stoul_signed, stoul,
}

abbrev power : ℕ → ℕ
power zero = 1
power (suc k) = 10 * power k

-- The text begins with a digit.
abbrev StartsWithDigit : Bytes → Type 0
StartsWithDigit s = (c : ℕ) × (t : Bytes) × (s ≡ c ∷ t) × (48 ≤ c) × (c ≤ 57)

read_digits-digit :
    (n d : ℕ) (s : Bytes)
    → d < 10
    → read_digits (some n) ((48 + d) ∷ s) ≡ read_digits (some (n * 10 + d)) s
unfolding read_digits
read_digits-digit n d s lt = ground arith

read_digits-first :
    (d : ℕ) (s : Bytes) → d < 10 → read_digits none ((48 + d) ∷ s) ≡ read_digits (some d) s
unfolding read_digits
read_digits-first d s lt = ground arith

decimal_from-last :
    (fuel n : ℕ) (tail : Bytes) → n < 10 → decimal_from (suc fuel) n tail ≡ (48 + n) ∷ tail
unfolding decimal_from
decimal_from-last fuel n tail lt = ground arith

decimal_from-more :
    (fuel n : ℕ) (tail : Bytes)
    → 10 ≤ n
    → decimal_from (suc fuel) n tail ≡ decimal_from fuel (n / 10) ((48 + n % 10) ∷ tail)
unfolding decimal_from
decimal_from-more fuel n tail le = ground arith

module _ (fuel n : ℕ) (tail : Bytes) where
  more_digits : 10 ≤ n → n < power (suc fuel) → (n / 10 < power fuel) × (0 < fuel)
  more_digits le lt = (omega arith, some_fuel fuel lt)
    where
      some_fuel : (k : ℕ) → n < power (suc k) → 0 < k
      some_fuel zero small = absurd (omega arith)
      some_fuel (suc k) small = omega arith

read_digits-decimal_from :
    (fuel n : ℕ) (tail : Bytes)
    → n < power fuel
    → 0 < fuel
    → read_digits none (decimal_from fuel n tail) ≡ read_digits (some n) tail
read_digits-decimal_from zero n tail lt pos = absurd (omega arith)
read_digits-decimal_from (suc fuel) n tail lt pos = elim (Bool-cases (ltb n 10)) [
  | inl e ↦
      ap (read_digits none) (decimal_from-last fuel n tail (ground arith))
      ∙ read_digits-first n tail (ground arith)
  | inr e ↦
      let le : 10 ≤ n = ground arith in
      let (lt', pos') = more_digits fuel n tail le lt in
      ap (read_digits none) (decimal_from-more fuel n tail le)
      ∙ read_digits-decimal_from fuel (n / 10) ((48 + n % 10) ∷ tail) lt' pos'
      ∙ read_digits-digit (n / 10) (n % 10) tail (omega arith)
      ∙ ap (λ k. read_digits (some k) tail) (omega arith)
]

decimal_from-StartsWithDigit :
    (fuel n : ℕ) (tail : Bytes)
    → n < power fuel
    → 0 < fuel
    → StartsWithDigit (decimal_from fuel n tail)
decimal_from-StartsWithDigit zero n tail lt pos = absurd (omega arith)
decimal_from-StartsWithDigit (suc fuel) n tail lt pos = elim (Bool-cases (ltb n 10)) [
  | inl e ↦ (48 + n, tail, decimal_from-last fuel n tail (ground arith), omega arith, ground arith)
  | inr e ↦
      let le : 10 ≤ n = ground arith in
      let (lt', pos') = more_digits fuel n tail le lt in
      let (c, s, eq, lo, hi) =
        decimal_from-StartsWithDigit fuel (n / 10) ((48 + n % 10) ∷ tail) lt' pos' in
      (c, s, decimal_from-more fuel n tail le ∙ eq, lo, hi)
]

stoul_signed-digit :
    (c : ℕ) (s : Bytes) → 48 ≤ c → c ≤ 57 → stoul (c ∷ s) ≡ in_word (read_digits none (c ∷ s))
unfolding stoul skip_spaces is_space stoul_signed
stoul_signed-digit c s lo hi = ground arith

-- A number that fits into `size_t` is read back.
pub stoul-decimal : (n : ℕ) → n < word_mod → stoul (decimal n) ≡ some n
unfolding decimal
stoul-decimal n lt =
    let (c, s, e, lo, hi) = decimal_from-StartsWithDigit 20 n [] (omega arith) (omega arith) in
    ap stoul e
    ∙ stoul_signed-digit c s lo hi
    ∙ ap (λ t. in_word (read_digits none t)) (sym e)
    ∙ ap in_word (read_digits-decimal_from 20 n [] (omega arith) (omega arith))
    ∙ fits
  where
    fits : in_word (read_digits (some n) []) ≡ some n
    fits = unfold in_word read_digits in ground arith

decimal_from-Lacks :
    (b fuel n : ℕ) (tail : Bytes) → b < 48 → Lacks b tail → Lacks b (decimal_from fuel n tail)
decimal_from-Lacks b zero n tail lt h = unfold decimal_from in h
decimal_from-Lacks b (suc fuel) n tail lt h = elim (Bool-cases (ltb n 10)) [
  | inl e ↦
      subst (Lacks b) (sym (decimal_from-last fuel n tail (ground arith))) (λ i. omega arith, h)
  | inr e ↦
      subst (Lacks b) (sym (decimal_from-more fuel n tail (ground arith)))
        (decimal_from-Lacks b fuel (n / 10) ((48 + n % 10) ∷ tail) lt (λ i. omega arith, h))
]

-- A byte below the digits stands in no number.
pub decimal-Lacks : (b n : ℕ) → b < 48 → Lacks b (decimal n)
unfolding decimal
decimal-Lacks b n lt = decimal_from-Lacks b 20 n [] lt tt
