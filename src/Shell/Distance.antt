-- ===== src/Shell/Distance.antt =====
-- `levenshtein_` of src/shell.cpp. The numbers are at most the longer length, so `int` holds them for
-- texts shorter than 2 ^ 31.
pub mod Edit
use neon_world_os.Base.{
  ℕ, zero, suc, ◌+◌, min, List, [], ◌∷◌, Bytes, codes, if◌then◌else◌, ◌==◌, ◌≡◌, refl,
}

-- `dp[j] = j`, from a number on, for the positions behind it.
unfoldable pub first_row : ℕ → Bytes → List ℕ
first_row j [] = []
first_row j (b ∷ bs) = suc j ∷ first_row (suc j) bs

-- The inner loop behind `dp[0]`: `prev` is the old `dp[j-1]`, and `left` the new one.
unfoldable pub next_row : ℕ → Bytes → List ℕ → ℕ → ℕ → List ℕ
next_row a [] dp prev left = []
next_row a (b ∷ bs) [] prev left = []
next_row a (b ∷ bs) (d ∷ dp) prev left =
    let cell = if a == b then prev else min (prev + 1) (min (d + 1) (left + 1)) in
    cell ∷ next_row a bs dp d cell

-- `dp[m]`.
unfoldable pub last_or : ℕ → List ℕ → ℕ
last_or d [] = d
last_or d (e ∷ dp) = last_or e dp

-- The outer loop, over `dp[0]` and the rest of `dp`.
unfoldable pub rows : Bytes → Bytes → ℕ → List ℕ → ℕ
unfolding next_row last_or
rows [] b d dp = last_or d dp
rows (x ∷ a) b d dp = rows a b (suc d) (next_row x b dp d (suc d))

unfoldable pub levenshtein : Bytes → Bytes → ℕ
unfolding rows first_row
levenshtein a b = rows a b 0 (first_row 0 b)

levenshtein_runs : levenshtein (codes "kitten") (codes "sitting") ≡ 3
unfolding levenshtein
levenshtein_runs = refl
