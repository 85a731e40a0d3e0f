-- ===== src/Shell/Vars.antt =====
-- `Shell::expand_vars_` of src/shell.cpp.
pub mod Templates
use neon_world_os.Base.{
  ℕ, zero, suc, ◌+◌, Bool, true, false, List, [], ◌∷◌, ◌++◌, Option, none, some, Bytes, codes, ◌==◌,
  length, take, find_byte, Dict, find, str_eq, ◌≡◌, refl,
}
use mathlib.Core.Option

abbrev pub dollar : ℕ
dollar = b'$'

abbrev pub open_brace : ℕ
open_brace = 123

abbrev pub close_brace : ℕ
close_brace = 125

-- The name behind `${`, up to the next `}`.
unfoldable pub braced : Bytes → Option Bytes
braced [] = none
braced (d ∷ t) = elim (d == open_brace) [
  | true ↦ Option.map (λ j. take j t) (find_byte close_brace t)
  | false ↦ none
]

-- The value of a variable, nothing if it is not set.
unfoldable pub value_of : Dict Bytes → Bytes → Bytes
value_of vars key = elim (find key vars) [ none ↦ [] | some v ↦ v ]

-- The loop over the text, with the number of characters that `i = j+1` jumps over.
unfoldable pub expand_from : Dict Bytes → Bytes → ℕ → Bytes
unfolding braced value_of
expand_from vars [] skip = []
expand_from vars (c ∷ s) (suc skip) = expand_from vars s skip
expand_from vars (c ∷ s) zero = elim (c == dollar) [
  | true ↦ elim (braced s) [
    | some key ↦ value_of vars key ++ expand_from vars s (length key + 2)
    | none ↦ c ∷ expand_from vars s 0
  ]
  | false ↦ c ∷ expand_from vars s 0
]

unfoldable pub expand_vars : Dict Bytes → Bytes → Bytes
unfolding expand_from
expand_vars vars s = expand_from vars s 0

expand_vars_runs :
    expand_vars ((codes "u", codes "ann") ∷ []) (codes "hi ${u}${x}!") ≡ codes "hi ann!"
unfolding expand_vars find find_byte str_eq
expand_vars_runs = refl
