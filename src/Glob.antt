-- ===== src/Glob.antt =====
-- `glob_match` of src/shell.cpp. The positions `i` and `j` are kept as what stands behind them in the
-- text and in the pattern, and `star`, `mark` as the pattern behind the last star and the text behind
-- the mark. `none` is a loop that is out of fuel.
pub mod Meaning
pub mod Correct
use neon_world_os.Base.{
  ℕ, zero, suc, ◌+◌, ◌*◌, Bool, true, false, ◌||◌, List, [], ◌∷◌, Option, none, some, Bytes, codes,
  ◌≡◌, refl, if◌then◌else◌, ◌==◌, length,
}

abbrev pub any_char : ℕ
any_char = b'?'

abbrev pub star : ℕ
star = b'*'

-- `while (j<p.size() && p[j]=='*') ++j; return j==p.size();`
unfoldable pub only_stars : Bytes → Bool
only_stars [] = true
only_stars (d ∷ p) = if d == star then only_stars p else false

-- `j=star+1; i=++mark`, or `return false` if there was no star.
abbrev pub Mark : Type 0
Mark = Option (Bytes × Bytes)

unfoldable pub resume : (Bytes → Bytes → Mark → Option Bool) → Mark → Option Bool
resume loop none = some false
resume loop (some (q, [])) = some false
resume loop (some (q, c ∷ m)) = loop m q (some (q, m))

unfoldable pub glob_loop : ℕ → Bytes → Bytes → Mark → Option Bool
unfolding only_stars resume
glob_loop zero s p mark = none
glob_loop (suc fuel) [] p mark = some (only_stars p)
glob_loop (suc fuel) (c ∷ s) [] mark = resume (glob_loop fuel) mark
glob_loop (suc fuel) (c ∷ s) (d ∷ p) mark = elim (d == any_char || d == c) [
  | true ↦ glob_loop fuel s p mark
  | false ↦ elim (d == star) [
    | true ↦ glob_loop fuel (c ∷ s) p (some (p, c ∷ s))
    | false ↦ resume (glob_loop fuel) mark
  ]
]

-- The fuel covers every round, see `glob_match-decides`.
unfoldable pub glob_match : Bytes → Bytes → Option Bool
unfolding glob_loop
glob_match s p = glob_loop (suc (length s * (length p + 2) + length p)) s p none

glob_runs : glob_match (codes "abcbd") (codes "a*b?") ≡ some true
unfolding glob_match
glob_runs = refl

glob_star_text : glob_match (codes "*a") (codes "*") ≡ some false
unfolding glob_match
glob_star_text = refl
